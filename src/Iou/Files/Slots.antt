-- ===== src/Iou/Files/Slots.antt =====
-- What registering and deregistering do to the file table and to the set of free slots.
use iel.Base.{
  put_elem?-inside, ℕ, ◌^◌, ◌≤◌, ◌<◌, ◌≡◌, refl, Option, none, some, Bool, true, false, ◌>>=◌, List,
  [], ◌∷◌,
}
use iel.Base.{arith, if◌then◌else◌, ◌==◌, ltb, set, eq-false, Bool-cases, inl, inr}
use iel.Bitmap.Free.{free_at, bm_set-frees}
use iel.Iou.{Ctx}
use iel.Iou.Files.{
  RegFd, Done, Looped, inval, enobufs, noimpl, bmsz, widen, give_back, nobufs, register, regfiles,
  deregister, close_raw, xreg,
}
use iel.Iou.Files.Round.{Slots, filled, FirstRound, got, gone, reg_loop-FirstRound}

-- What a call for one descriptor does.
pub data RegisteredOne (update : List ℕ → Bool) (pud : Ctx) (fd o : RegFd)
    : Option Done → Type 0 where
  registered :
      (idx : ℕ) (bm : List ℕ)
      → idx < pud.filetable_len
      → free_at pud.filetable_bitmap idx ≡ 1
      → ((i : ℕ) → free_at bm i ≡ (if i == idx then 0 else free_at pud.filetable_bitmap i))
      → update (set pud.filetable idx fd.raw) ≡ true
      → RegisteredOne update pud fd o (
          some (record {
            ret = 1;
            errno = noimpl;
            pud = filled pud idx fd.raw bm;
            out = record { raw = fd.raw; reg = idx } ∷ [];
          }))
  none_free :
      ((i : ℕ) → free_at pud.filetable_bitmap i ≡ 0)
      → RegisteredOne update pud fd o
          (some (record { ret = 0; errno = enobufs; pud = pud; out = o ∷ [] }))
  overrun :
      (idx : ℕ)
      → free_at pud.filetable_bitmap idx ≡ 1
      → update (set pud.filetable idx fd.raw) ≡ false
      → RegisteredOne update pud fd o none

register-One :
    (update : List ℕ → Bool) (pud : Ctx) (fd o : RegFd) {r : Option Looped}
    → Slots pud
    → FirstRound pud fd o [] r
    → RegisteredOne update pud fd o (r >>= register update 1)
unfolding register nobufs give_back
register-One update pud fd o slots (got idx bm was cleared) =
    elim (Bool-cases (update (set pud.filetable idx fd.raw))) [
      | inl yes_it_does ↦
          rw yes_it_does (registered idx bm (slots.inside idx was) was cleared yes_it_does)
      | inr refuses ↦ rw refuses (overrun idx was refuses)
    ]
register-One update pud fd o slots (gone taken) = none_free taken

-- A call for one descriptor, with a file table. It takes a free slot of the table, stores the descriptor
-- there and returns 1; or no slot is free, and it returns 0 with IEL_ENOBUFS and has changed
-- nothing. If the kernel refuses the update, it reads past the end of `out`.
regfiles-RegisteredOne :
    (update : List ℕ → Bool) (pud : Ctx) (fd o : RegFd)
    → Slots pud
    → RegisteredOne update pud fd o (regfiles update pud (fd ∷ []) (o ∷ []) 1)
unfolding regfiles
regfiles-RegisteredOne update pud fd o slots =
    let some_table = eq-false pud.filetable_len 0 (omega (arith, slots.nonempty)) in
    rw some_table
      (register-One update pud fd o slots (reg_loop-FirstRound pud fd o [] [] 1 slots (inl refl)))

register-skips :
    (update : List ℕ → Bool) (pud : Ctx) (fd o : RegFd) (rest : List RegFd) (nr_args free : ℕ)
    → free_at pud.filetable_bitmap free ≡ 1
    → ((table : List ℕ) → update table ≡ true)
    → {r : Option Looped} → FirstRound pud fd o rest r
    → (idx : ℕ) × (after : Ctx) × ((r >>= register update nr_args)
        ≡ some (record {
          ret = nr_args;
          errno = noimpl;
          pud = after;
          out = record { raw = fd.raw; reg = idx } ∷ rest;
        }))
unfolding register
register-skips update pud fd o rest nr_args free free_one accepts (got idx bm was cleared) =
    (idx, filled pud idx fd.raw bm, rw (accepts (set pud.filetable idx fd.raw)))
register-skips update pud fd o rest nr_args free free_one accepts (gone taken) =
    absurd (omega (arith, taken free, free_one))

-- A table of at most 64 slots, with a free one, and a call for more than one descriptor that the
-- kernel accepts: it returns the number of descriptors, but only the first entry of `out` is
-- written.
pub regfiles_skips :
    (update : List ℕ → Bool) (pud : Ctx) (fd o : RegFd) (fds rest : List RegFd) (nr_args free : ℕ)
    → Slots pud
    → pud.filetable_len ≤ 64
    → 1 < nr_args
    → free_at pud.filetable_bitmap free ≡ 1
    → ((table : List ℕ) → update table ≡ true)
    → (idx : ℕ) × (after : Ctx) × (regfiles update pud (fd ∷ fds) (o ∷ rest) nr_args
        ≡ some (record {
          ret = nr_args;
          errno = noimpl;
          pud = after;
          out = record { raw = fd.raw; reg = idx } ∷ rest;
        }))
unfolding regfiles
regfiles_skips update pud fd o fds rest nr_args free slots small many free_one accepts =
    let some_table = eq-false pud.filetable_len 0 (omega (arith, slots.nonempty)) in
    let some_args = eq-false nr_args 0 (omega arith) in
    let one_word : bmsz pud ≡ 1 = omega (arith, slots.nonempty) in
    rw (some_table, some_args)
      (register-skips update pud fd o rest nr_args free free_one accepts
        (reg_loop-FirstRound pud fd o fds rest nr_args slots (inr one_word)))

-- xreg with IEL_XREG_DE_FILES and IEL_FLAG_XREG_DRG on a slot of the table, where the kernel accepts
-- the update: it returns 1, empties the slot's entry of the table, and frees that slot and no other.
xreg-frees :
    (update : List ℕ → Bool) (close : ℕ → Bool) (pud : Ctx) (fd : RegFd) (out : List RegFd)
    → Slots pud
    → fd.reg < pud.filetable_len
    → update (set pud.filetable fd.reg inval) ≡ true
    → (bm : List ℕ) × (xreg update close pud 2 (some (fd ∷ [])) out 1 1
        ≡ some (record { ret = 1; errno = noimpl; pud = filled pud fd.reg inval bm; out = out }))
      × ((i : ℕ) → free_at bm i ≡ (if i == fd.reg then 1 else free_at pud.filetable_bitmap i))
unfolding xreg deregister widen close_raw
xreg-frees update close pud fd out slots inside accepts =
    let (bm, e, size, wide, freed) =
      bm_set-frees pud.filetable_bitmap (bmsz pud) fd.reg slots.words (omega arith) slots.wide in
    let small : ltb fd.reg (2 ^ 31) ≡ true = ground (arith, inside, slots.bounded) in
    (
      bm,
      rw (
        small,
        put_elem?-inside pud.filetable fd.reg inval (omega (arith, slots.entries)),
        accepts,
        e,
      ),
      freed,
    )
