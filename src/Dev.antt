-- ===== src/Dev.antt =====
-- The programs under dev/ that exercise the library. What they meet is a parameter: the answers of
-- the backend, of `malloc` and of the system, each of which may depend on all calls made so far.
pub mod Client
pub mod Echo
pub mod Cat
pub mod QueTest
pub mod Soon
pub mod HeapTest
pub mod TagTest
use iel.Base.{
  ℕ, ◌+◌, ◌^◌, Option, none, some, Bool, true, false, List, [], ◌∷◌, if◌then◌else◌, ◌==◌,
}
use iel.Iou.{Res, value, error}

-- What a program holds and has to give back: a block of memory, or a descriptor
pub data Holding : Type 0 where
  block sock : ℕ → Holding

abbrev pub same_holding : Holding → Holding → Bool
same_holding (block a) (block b) = a == b
same_holding (sock a) (sock b) = a == b
same_holding (block a) (sock b) = false
same_holding (sock a) (block b) = false

-- The operations of the backend that the programs request
pub data Op : Type 0 where
  fr fw sr sw sa sc : Op

-- The callback that a request names, by its place in the block of the program
pub data Part : Type 0 where
  base base_write base_read base_vfy : Part

-- A request that has been accepted and not completed
pub record Request : Type 0 where
  pub op : Op
  pub part : Part

-- A call that leaves the program, with what its answer may depend on
pub data Call : Type 0 where
  malloc : ℕ → Call
  submit : Request → ℕ → ℕ → ℕ → Call
  xreg_sockets : ℕ → Call
  xreg_de_sockets : ℕ → ℕ → ℕ → Call

-- What is printed, where the programs tell their users of an outcome
pub data Note : Type 0 where
  failure : Res → Note
  mismatch : ℕ → ℕ → ℕ → Note
  correct : ℕ → Note

-- The answers of the calls, the last of which is the first of the list: `iel_errno` of a request that
-- is refused, whether `malloc` grants, and the slot and the result of `IEL_XREG_SOCKETS`
pub record Env : Type 0 where
  pub refuses : List Call → Option ℕ
  pub grants : List Call → Bool
  pub registers : List Call → Option ℕ

-- `bytes` is the buffer of the program.
pub record World : Type 0 where
  pub held : List Holding
  pub calls : List Call
  pub pending : List Request
  pub stop : Bool
  pub bytes : List ℕ
  pub notes : List Note

-- A world by its parts
abbrev pub holding : List Holding → List Request → List Call → Bool → List ℕ → List Note → World
holding held pending calls stop bytes notes = record {
  held = held;
  calls = calls;
  pending = pending;
  stop = stop;
  bytes = bytes;
  notes = notes;
}

-- `none` is a fault: an access to a block that is not live, or giving back what is not held.
abbrev pub M : Type 0 → Type 0
M A = World → Option (A × World)

abbrev pub pure : {A : Type 0} → A → M A
pure a w = some (a, w)

infixl 5 ◌>>=◌ ◌>>◌
abbrev pub ◌>>=◌ : {A B : Type 0} → M A → (A → M B) → M B
◌>>=◌ m f w = elim (m w) [ none ↦ none | some (a, w') ↦ f a w' ]

abbrev pub ◌>>◌ : {B : Type 0} → M (Unit {0}) → M B → M B
m >> k = m >>= λ _. k

abbrev pub take_from : Holding → List Holding → Option (List Holding)
take_from r [] = none
take_from r (x ∷ held) =
    if same_holding r x
    then some held
    else elim (take_from r held) [ none ↦ none | some left ↦ some (x ∷ left) ]

-- An access through a pointer to `r`
abbrev pub access : Holding → M (Unit {0})
access r w = elim (take_from r w.held) [ none ↦ none | some left ↦ some (tt, w) ]

abbrev pub hold : Holding → M (Unit {0})
hold r w = some (tt, record w { held = r ∷ w.held })

-- `free`, or the end of a descriptor
abbrev pub let_go : Holding → M (Unit {0})
let_go r w = elim (take_from r w.held) [
  | none ↦ none
  | some left ↦ some (tt, record w { held = left })
]

abbrev pub call : Call → M (Unit {0})
call c w = some (tt, record w { calls = c ∷ w.calls })

abbrev pub say : Note → M (Unit {0})
say n w = some (tt, record w { notes = n ∷ w.notes })

abbrev pub set_stop : M (Unit {0})
set_stop w = some (tt, record w { stop = true })

-- `malloc` of `size` bytes; what it grants is the block `r`.
abbrev pub alloc : Env → Holding → ℕ → M Bool
alloc env r size w =
    let calls = malloc size ∷ w.calls in
    elim (env.grants calls) [
      | true ↦ some (true, record w { calls = calls; held = r ∷ w.held })
      | false ↦ some (false, record w { calls = calls })
    ]

-- A request: `none` if it is accepted, else `iel_errno`
abbrev pub request : Env → Request → ℕ → ℕ → ℕ → M (Option ℕ)
request env r fd len flags w =
    let calls = submit r fd len flags ∷ w.calls in
    elim (env.refuses calls) [
      | none ↦ some (none, record w { calls = calls; pending = r ∷ w.pending })
      | some errno ↦ some (some errno, record w { calls = calls })
    ]

-- `res < 0` and `res <= 0`
abbrev pub negative : Res → Bool
negative (value n) = false
negative (error n) = if n == 0 then false else true

abbrev pub not_positive : Res → Bool
not_positive (value n) = n == 0
not_positive (error n) = true
