-- ===== src/Dev/Client/Run.antt =====
-- Completions of the client's requests: which client_callback lrun1 calls, and what a read leaves in the
-- buffer.
use iel.Base.{Option, none, some, List, [], ◌∷◌, ◌++◌, ℕ, drop, length}
use iel.Iou.{Res}
use iel.Dev.{Op, fr, fw, sr, sw, sa, sc, Part, base, base_write, base_read, base_vfy, Env, World, M}
use iel.Dev.Client.{onconnect_dowrite, onconnect_doread, onconnect_vfy}

-- The result of a request, and the bytes that the kernel has stored if it was a read
pub record Completion : Type 0 where
  pub res : Res
  pub got : List ℕ

abbrev pub received : Op → List ℕ → List ℕ → List ℕ
received fr got bytes = got ++ drop (length got) bytes
received sr got bytes = got ++ drop (length got) bytes
received fw got bytes = bytes
received sw got bytes = bytes
received sa got bytes = bytes
received sc got bytes = bytes

-- The callbacks that `amain_c` stores
pub client_callback : Env → ℕ → Part → Res → M (Unit {0})
client_callback env fd base_write = onconnect_dowrite env fd
client_callback env fd base_read = onconnect_doread env fd
client_callback env fd base_vfy = onconnect_vfy fd
client_callback env fd base = λ res w. none

unfoldable pub complete : Env → ℕ → Completion → World → Option World
unfolding client_callback
complete env fd c w = elim w.pending [
  | [] ↦ some w
  | r ∷ rest ↦
      elim (client_callback env fd r.part c.res
        (record w { pending = rest; bytes = received r.op c.got w.bytes })) [
          | none ↦ none
          | some (_, w') ↦ some w'
        ]
]

unfoldable pub run : Env → ℕ → List Completion → World → Option World
run env fd [] w = some w
run env fd (c ∷ cs) w = elim (complete env fd c w) [ none ↦ none | some w' ↦ run env fd cs w' ]
