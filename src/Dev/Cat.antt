-- ===== src/Dev/Cat.antt =====
-- The copying of standard input to standard output in dev/be/iou.c: `onread_comp` and `onwrite_comp`.
-- The block of `struct cbt_onread_comp` is `rcb`, its buffer is `rbuf`, and the block of `struct
-- cbt_onwrite_comp` is `wcb`. A callback that calls another one makes the call by `again`.
pub mod Steps
pub mod Copied
mod Tests
use iel.Base.{ℕ, zero, suc, Option, none, some, Bool, true, false, List, [], ◌∷◌, ◌==◌}
use iel.Iou.{Res, value, error, flag_noreg_handle}
use iel.Dev.{
  Holding, block, Op, fr, fw, Part, base, base_write, base_read, base_vfy, Request, failure, Env,
  World, M, pure, ◌>>=◌, ◌>>◌, access, let_go, say, set_stop, alloc, request,
}

abbrev pub rcb : Holding
rcb = block 4

abbrev pub rbuf : Holding
rbuf = block 5

abbrev pub wcb : Holding
wcb = block 6

-- The callback of the blocks, with the field `sz` of the block that is written
pub data Event : Type 0 where
  onread onwrite : Event

-- STDIN_FILENO and STDOUT_FILENO
abbrev pub f_in : ℕ
f_in = 0

abbrev pub f_out : ℕ
f_out = 1

abbrev pub read_request : Request
read_request = record { op = fr; part = base }

abbrev pub write_request : Request
write_request = record { op = fw; part = base_write }

-- The end of `onread_comp`
pub stop_copying : M (Unit {0})
stop_copying = do let_go rbuf; set_stop; let_go rcb

-- `res` against `(iel_taskres)cbp->sz`
abbrev pub complete_write : Res → ℕ → Bool
complete_write (value n) sz = n == sz
complete_write (error n) sz = false

-- `size` is that of `struct cbt_onwrite_comp`; the number with an event is `sz`.
module _ (env : Env) (size : ℕ) (again : Event → ℕ → Res → M (Unit {0})) where
  pub onwrite_comp : ℕ → Res → M (Unit {0})
  onwrite_comp sz res = do
    access wcb
    elim (complete_write res sz) [
      | false ↦ say (failure res)
      | true ↦ (do
        access rcb
        refused ← request env read_request f_in 4096 flag_noreg_handle
        elim refused [ none ↦ pure tt | some errno ↦ again onread sz (error errno) ])
    ]
    let_go wcb

  pub onread_comp : Res → M (Unit {0})
  onread_comp (error n) = do access rcb; say (failure (error n)); stop_copying
  onread_comp (value n) = do
    access rcb
    elim (n == 0) [
      | true ↦ stop_copying
      | false ↦ (do
        granted ← alloc env wcb size
        elim granted [
          | false ↦ stop_copying
          | true ↦ (do
            refused ← request env write_request f_out n flag_noreg_handle
            elim refused [ none ↦ pure tt | some errno ↦ again onwrite n (error errno) ])
        ])
    ]

-- The callbacks, with at most `depth` calls inside one another
pub copy_callback : Env → ℕ → ℕ → Event → ℕ → Res → M (Unit {0})
copy_callback env size zero event sz res = λ w. none
copy_callback env size (suc depth) onread sz res =
    onread_comp env size (copy_callback env size depth) res
copy_callback env size (suc depth) onwrite sz res =
    onwrite_comp env size (copy_callback env size depth) sz res
