-- ===== src/Iou/Files.antt =====
-- Registered files: ielb_ioux_regfiles and ielb_iou_xreg. A descriptor and a slot are `int`s, kept as
-- 32-bit words; `update` is whether the kernel accepts IORING_REGISTER_FILES_UPDATE of a table, and
-- `close` whether it closes a descriptor. `none` is an access out of bounds, the bitmap's assertion or a
-- loop that has used up its rounds.
pub mod Round
pub mod Slots
pub mod Many
pub mod Loop
pub mod Restore
pub mod All
mod Tests
use iel.Base.{
  put_elem?, ℕ, zero, suc, ◌+◌, ◌-◌, ◌/◌, ◌^◌, Option, none, some, Bool, true, false, not, ◌&&◌,
  ◌>>=◌, List, [], ◌∷◌,
}
use iel.Base.{if◌then◌else◌, ◌==◌, ltb, get_elem?, set, length, sub64, u32, max64}
use iel.Bitmap.{Scan, scan_clear, bm_set, npos}
use iel.Iou.{Ctx, einval}
use iel.Iou.Submit.{has}

-- `iel_pf_reg_fd`
pub record RegFd : Type 0 where
  pub raw : ℕ
  pub reg : ℕ

-- `IEL_PF_FD_R_INVAL`, and -1 in the file table
abbrev pub inval : ℕ
inval = 2 ^ 32 - 1

abbrev pub enobufs : ℕ
enobufs = 105

abbrev pub noimpl : ℕ
noimpl = 666

-- What a call leaves: the `iel_taskres` (-1 is `max64`), `iel_errno`, the context and `out`.
pub record Done : Type 0 where
  pub ret : ℕ
  pub errno : ℕ
  pub pud : Ctx
  pub out : List RegFd

-- An `int` as a `size_t`
widen : ℕ → ℕ
widen reg = if ltb reg (2 ^ 31) then reg else reg + (2 ^ 64 - 2 ^ 32)

-- The number of words of the bitmap
abbrev pub bmsz : Ctx → ℕ
bmsz pud = (pud.filetable_len + 63) / 64

-- The loop without a file table: every slot is invalid.
inval_all : ℕ → ℕ → List RegFd → Option (List RegFd)
inval_all zero i out = some out
inval_all (suc left) i out = get_elem? out i >>= λ o.
    put_elem? out i (record { raw = o.raw; reg = inval }) >>= inval_all left (i + 1)

-- What the loop over the arguments ends in: `full` is the jump to `nobufs` without a free slot.
pub record Looped : Type 0 where
  pub full : Bool
  pub i : ℕ
  pub pud : Ctx
  pub out : List RegFd

-- The round that has got the slot `idx`
pub take_slot : Ctx → List RegFd → List RegFd → ℕ → Scan → Option Looped
take_slot pud fds out i s = get_elem? fds i >>= λ fd.
    put_elem? pud.filetable s.ret fd.raw >>= λ table.
    put_elem? out i (record { raw = fd.raw; reg = u32 s.ret }) >>= λ out. some (record {
      full = false;
      i = i + 1;
      pud = record pud { filetable = table; filetable_bitmap = s.bm };
      out = out;
    })

-- The loop: each round moves on by a word at least, so `bmsz + 1` rounds are enough.
pub reg_loop : ℕ → Ctx → List RegFd → List RegFd → ℕ → ℕ → ℕ → Option Looped
reg_loop zero pud fds out nr_args i it = none
reg_loop (suc rounds) pud fds out nr_args i it =
    scan_clear pud.filetable_bitmap (bmsz pud) it >>= λ s.
    if s.ret == npos
    then some (record {
      full = true;
      i = sub64 i 1;
      pud = record pud { filetable_bitmap = s.bm };
      out = out;
    })
    else (take_slot pud fds out i s >>= λ r.
        let rest = reg_loop rounds r.pud fds r.out nr_args r.i s.it in
        if ltb r.i nr_args && ltb s.it (bmsz pud) then rest else some r)

-- The loop at `nobufs`, down from `i` to SIZE_MAX
pub give_back : ℕ → Ctx → List RegFd → ℕ → Option (Ctx × List RegFd)
give_back zero pud out i = none
give_back (suc rounds) pud out i =
    if i == max64
    then some (pud, out)
    else (get_elem? out i >>= λ o. bm_set pud.filetable_bitmap (bmsz pud) (widen o.reg) >>= λ bm.
        put_elem? pud.filetable (widen o.reg) inval >>= λ table.
        put_elem? out i (record { raw = o.raw; reg = inval }) >>= λ out.
        give_back rounds (record pud { filetable = table; filetable_bitmap = bm }) out (sub64 i 1))

nobufs : ℕ → ℕ → Ctx → List RegFd → ℕ → Option Done
nobufs rounds errno pud out i = give_back rounds pud out i >>= λ (pud, out).
    some (record { ret = 0; errno = errno; pud = pud; out = out })

-- The registration of the table, once the loop is over
register : (List ℕ → Bool) → ℕ → Looped → Option Done
register update nr_args r =
    if r.full
    then nobufs (nr_args + 2) enobufs r.pud r.out r.i
    else if update r.pud.filetable
    then some (record { ret = nr_args; errno = noimpl; pud = r.pud; out = r.out })
    else nobufs (nr_args + 2) noimpl r.pud r.out r.i

-- `ielb_ioux_regfiles`, called with `iel_errno` at `noimpl`; `err_ret` is 0, since the backend has the
-- feature IEL_FEAT_NOREG_HANDLE.
pub regfiles : (List ℕ → Bool) → Ctx → List RegFd → List RegFd → ℕ → Option Done
regfiles update pud fds out nr_args =
    if pud.filetable_len == 0
    then (inval_all nr_args 0 out >>= λ out.
        some (record { ret = 0; errno = enobufs; pud = pud; out = out }))
    else if nr_args == 0
    then some (record { ret = 0; errno = 0; pud = pud; out = out })
    else reg_loop (bmsz pud + 1) pud fds out nr_args 0 0 >>= register update nr_args

-- `IEL_FLAG_XREG_DRG` and the slot of `fd`
deregister : (List ℕ → Bool) → Ctx → RegFd → Option (Bool × Ctx)
deregister update pud fd = put_elem? pud.filetable (widen fd.reg) inval >>= λ table.
    if update table
    then (bm_set pud.filetable_bitmap (bmsz pud) (widen fd.reg) >>= λ bm.
        some (true, record pud { filetable = table; filetable_bitmap = bm }))
    else some (false, record pud { filetable = table })

-- `IEL_FLAG_XREG_DEL`
close_raw : (ℕ → Bool) → Ctx → RegFd → ℕ → List RegFd → Done
close_raw close pud fd flags out =
    if has flags 2 && not (close fd.raw)
    then record { ret = max64; errno = noimpl; pud = pud; out = out }
    else record { ret = 1; errno = noimpl; pud = pud; out = out }

-- `ielb_iou_xreg`; `input` is NULL or the array.
pub xreg :
    (List ℕ → Bool) → (ℕ → Bool) → Ctx → ℕ → Option (List RegFd) → List RegFd → ℕ → ℕ → Option Done
xreg update close pud opcode input out nr_args flags =
    let invalid = some (record { ret = max64; errno = einval; pud = pud; out = out }) in
    if ltb opcode 2
    then (if not (flags == 0) then invalid else elim input [
      | none ↦ regfiles update pud out out nr_args
      | some fds ↦ regfiles update pud fds out nr_args
    ])
    else if ltb opcode 4
    then (if not (nr_args == 1)
        then invalid
        else (input >>= λ fds. get_elem? fds 0 >>= λ fd.
            if has flags 1
            then (deregister update pud fd >>= λ (ok, after).
                if ok
                then some (close_raw close after fd flags out)
                else some (record { ret = max64; errno = noimpl; pud = after; out = out }))
            else some (close_raw close pud fd flags out)))
    else invalid
