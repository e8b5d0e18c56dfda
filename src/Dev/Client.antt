-- ===== src/Dev/Client.antt =====
-- The client of dev/be/iou.c: it connects to the echo server, sends a pattern and verifies what
-- comes back. The block of `struct connect_comp` is `cbp`, its buffer is `buf`.
pub mod Run
pub mod Verify
pub mod Owned
pub mod Callbacks
pub mod Ends
pub mod Start
pub mod Whole
mod Tests
use iel.Base.{
  ℕ, zero, suc, ◌+◌, ◌^◌, Option, none, some, Bool, true, false, List, [], ◌∷◌, ◌++◌, bit_and,
  if◌then◌else◌, not, ◌==◌, get_elem?, put_elem?, length, drop, u32,
}
use iel.Base.{◌>>=◌ as and_then}
use iel.Iou.{Res, value, error, flag_noreg_handle}
use iel.Iou.Files.{inval}
use iel.Dev.{
  Holding, block, sock, Op, sr, sw, sc, Part, base_write, base_read, base_vfy, Request, Call,
  xreg_de_sockets, failure, mismatch, correct, Env, World, M, pure, ◌>>=◌, ◌>>◌, access, hold,
  let_go, call, say, set_stop, alloc, request, negative, not_positive,
}

abbrev pub cbp : Holding
cbp = block 0

abbrev pub buf : Holding
buf = block 1

-- `IEL_XREG_DE_SOCKETS` with IEL_FLAG_XREG_DEL, of a socket that is not registered
pub close_sock : ℕ → M (Unit {0})
close_sock fd = do call (xreg_de_sockets fd inval 2); let_go (sock fd)

-- The end of each client_callback that does not go on
pub free_rsrc : ℕ → M (Unit {0})
free_rsrc fd = do close_sock fd; let_go buf; set_stop; let_go cbp

-- The loop of `onconnect_vfy` from byte `i` on: the first byte that differs, with what is expected
pub verify : ℕ → ℕ → List ℕ → Option (Option (ℕ × ℕ × ℕ))
verify zero i bytes = some none
verify (suc left) i bytes = and_then (get_elem? bytes i) (λ b.
    let rest = verify left (i + 1) bytes in
    if b == bit_and i 255 then rest else some (some (i, bit_and i 255, b)))

-- What the loop comes to for `res` bytes
pub verdict : ℕ → M (Unit {0})
verdict n w = elim (verify (u32 n) 0 w.bytes) [
  | none ↦ none
  | some none ↦ say (correct n) w
  | some (some (i, expected, got)) ↦ say (mismatch i expected got) w
]

pub onconnect_vfy : ℕ → Res → M (Unit {0})
onconnect_vfy fd (error n) = do access cbp; say (failure (error n)); free_rsrc fd
onconnect_vfy fd (value n) =
    if n == 0
    then (do access cbp; say (failure (value 0)); free_rsrc fd)
    else do access cbp; access buf; verdict n; free_rsrc fd

module _ (env : Env) (fd : ℕ) where
  pub onconnect_doread : Res → M (Unit {0})
  onconnect_doread res =
      if not_positive res then (do access cbp; say (failure res); free_rsrc fd) else do
        access cbp
        refused ← request env (record { op = sr; part = base_vfy }) fd 4100 flag_noreg_handle
        elim refused [ none ↦ pure tt | some errno ↦ onconnect_vfy fd (error errno) ]

  pub onconnect_dowrite : Res → M (Unit {0})
  onconnect_dowrite res =
      if negative res then (do access cbp; say (failure res); free_rsrc fd) else do
        access cbp
        refused ← request env (record { op = sw; part = base_read }) fd 4100 flag_noreg_handle
        elim refused [ none ↦ pure tt | some errno ↦ onconnect_doread (error errno) ]

-- `for (i < 4100) cbp->buf[i] = i & 0xff`
pub fill : ℕ → ℕ → List ℕ → Option (List ℕ)
fill zero i bytes = some bytes
fill (suc left) i bytes = and_then (put_elem? bytes i (bit_and i 255)) (fill left (i + 1))

pub fill_buf : M (Unit {0})
fill_buf w = elim (fill 4100 0 w.bytes) [
  | none ↦ none
  | some bytes ↦ some (tt, record w { bytes = bytes })
]

-- The part of `amain_c` with a block for `cbp`
pub start_client : Env → ℕ → M ℕ
start_client env fd = do
  got_buf ← alloc env buf 4100
  if not got_buf then (do let_go cbp; close_sock fd; pure 1) else do
    refused ← request env (record { op = sc; part = base_write }) fd 16 flag_noreg_handle
    elim refused [ none ↦ pure tt | some errno ↦ onconnect_dowrite env fd (error errno) ]
    access cbp
    access buf
    fill_buf
    pure 0

-- `amain_c`: `socket` is the descriptor, or `none` where `socket` fails. `size` is that of
-- `struct connect_comp`.
pub amain_c : Env → ℕ → Option ℕ → M ℕ
amain_c env size none = pure 1
amain_c env size (some fd) = do
  hold (sock fd)
  got_cbp ← alloc env cbp size
  if not got_cbp then (do close_sock fd; pure 1) else start_client env fd
