-- ===== src/Dev/QueTest.antt =====
-- The program of dev/que.c, which tests src/quep.c: chunks of 2 ^ 7 elements, a map of at least 16
-- entries. What it prints is left out, and with it `pque` and the wrappers of the allocator.
pub mod Steps
pub mod Loops
pub mod Stops
pub mod Whole
mod Tests
use Prim.Native.Nat.{bit_xor}
use iel.Base.{ℕ, zero, suc, ◌-◌, ◌&&◌, Bool, true, false, Option, none, some, List, [], ◌∷◌, ◌==◌}
use iel.Base.{length, if◌then◌else◌}
use iel.Que.{Que, Map, Alloc, Popped, empty, more, last, init, push, pop1, pop_to, trim, size, del}

abbrev pub chunk_ents_bit : ℕ
chunk_ents_bit = 7

abbrev pub min_chunks : ℕ
min_chunks = 16

-- `que`, how often the program has called the allocator, and `tests_passed`
pub record Test : Type 0 where
  pub que : Que ℕ
  pub calls : ℕ
  pub passed : ℕ

-- Where the program is after a statement: behind it, at a return of `main` (with `tests_passed` and
-- the map, whose chunks are still allocated then), or at `abort`. A fault of the queue is `none`.
pub data Outcome : Type 0 where
  go : Test → Outcome
  exit : ℕ → ℕ → Map ℕ → Outcome
  abort : Outcome

infixl 5 ◌~>◌
abbrev pub ◌~>◌ : Option Outcome → (Test → Option Outcome) → Option Outcome
none ~> f = none
some (go t) ~> f = f t
some (exit code n m) ~> f = some (exit code n m)
some abort ~> f = some abort

-- `ASSERT_EQ`
abbrev pub assert_eq : ℕ → ℕ → Test → Option Outcome
assert_eq a b t = elim (a == b) [
  | true ↦ some (go (record t { passed = suc t.passed }))
  | false ↦ some abort
]

-- A pop, and `return code` where the queue is empty.
pub pop_one : ℕ → Test → Option Outcome
pop_one code t = elim (pop1 chunk_ents_bit t.que 0 0) [
  | none ↦ none
  | some (out, q) ↦ elim out [
    | empty ↦ some (exit code t.passed q.map)
    | more v ↦ some (go (record t { que = q }))
    | last v ↦ some (go (record t { que = q }))
  ]
]

pub pop_loop : ℕ → ℕ → Test → Option Outcome
pop_loop code zero t = some (go t)
pop_loop code (suc rounds) t = pop_one code t ~> pop_loop code rounds

-- `while (1)` with its break where the queue is empty. To run out of rounds is `none` too.
pub pop_rest : ℕ → Test → Option Outcome
pop_rest zero t = none
pop_rest (suc rounds) t = elim (pop1 chunk_ents_bit t.que 0 0) [
  | none ↦ none
  | some (out, q) ↦ elim out [
    | empty ↦ some (go (record t { que = q }))
    | more v ↦ pop_rest rounds (record t { que = q })
    | last v ↦ pop_rest rounds (record t { que = q })
  ]
]

-- A pop into an array of `blk` elements; what follows is told their number.
pub pop_array : ℕ → (ℕ → Test → Option Outcome) → Test → Option Outcome
pop_array blk after t = elim (pop_to chunk_ents_bit t.que blk) [
  | none ↦ none
  | some (out, q) ↦ after (length out) (record t { que = q })
]

-- `(i ^ 0xd27)`
pub mixed : ℕ → ℕ
mixed i = bit_xor i 0xd27

-- The pop of a round of the last loop, with its two assertions. `vout` is indeterminate where the
-- queue is empty, and to read it is a fault.
pub check : ℕ → ℕ → ℕ → Test → Option Outcome
check chunk_stop os_stop i t =
    let expected = if i == 1023 then 1 else 0 in
    elim (pop1 chunk_ents_bit t.que chunk_stop os_stop) [
      | none ↦ none
      | some (out, q) ↦ elim out [
        | empty ↦ none
        | more v ↦ assert_eq v (mixed i) (record t { que = q }) ~> assert_eq 0 expected
        | last v ↦ assert_eq v (mixed i) (record t { que = q }) ~> assert_eq 1 expected
      ]
    ]

-- `ASSERT_EQ(iel_quep_size(&que), 1024)`
abbrev pub assert_size : Test → Option Outcome
assert_size t = assert_eq (size chunk_ents_bit t.que) 1024 t

-- `iel_quep_del(&que); return 0;`
pub leave : Test → Option Outcome
leave t = elim (del t.que) [ none ↦ none | some m ↦ some (exit 0 t.passed m) ]

-- The allocator by the number of the call
module _ (mems : ℕ → Alloc ℕ) where
  -- `wval = iel_quep_rsv1(&que); if (!wval) return code; *wval = v;`
  pub rsv : ℕ → ℕ → Test → Option Outcome
  rsv code v t = elim (push chunk_ents_bit (mems t.calls) t.que v) [
    | none ↦ none
    | some (stored, q) ↦
        let t' = record t { que = q; calls = suc t.calls } in
        elim stored [ true ↦ some (go t') | false ↦ some (exit code t.passed q.map) ]
  ]

  -- `rounds` of these, with `f(i)`, `f(i + 1)` and so on.
  pub rsv_loop : ℕ → (ℕ → ℕ) → ℕ → ℕ → Test → Option Outcome
  rsv_loop code f zero i t = some (go t)
  rsv_loop code f (suc rounds) i t = rsv code (f i) t ~> rsv_loop code f rounds (suc i)

  pub trim_que : Test → Option Outcome
  trim_que t = elim (trim min_chunks (mems t.calls) t.que) [
    | none ↦ none
    | some q ↦ some (go (record t { que = q; calls = suc t.calls }))
  ]

  -- The loop over `j`
  pub fill_and_pop : ℕ → Test → Option Outcome
  fill_and_pop zero t = some (go t)
  fill_and_pop (suc rounds) t =
      rsv_loop 2 (λ i. i) 33 0 t ~> pop_loop 3 32 ~> trim_que ~> fill_and_pop rounds

  -- The two blocks with an array
  pub arrays : Test → Option Outcome
  arrays t =
      rsv 4 42 t
      ~> rsv_loop 6 (λ i. i) 1024 0
      ~> pop_array 1030 (λ out. trim_que)
      ~> rsv_loop 7 (λ i. 256 - i) 256 0
      ~> pop_array 256 (λ out. assert_eq out 256)
      ~> trim_que

  -- The last loop, from `i` on
  pub check_loop : ℕ → ℕ → ℕ → ℕ → Test → Option Outcome
  check_loop chunk_stop os_stop zero i t = some (go t)
  check_loop chunk_stop os_stop (suc rounds) i t =
      check chunk_stop os_stop i t ~> rsv 9 0 ~> check_loop chunk_stop os_stop rounds (suc i)

  -- The block with `chunk_stop`
  pub stops : Test → Option Outcome
  stops t =
      rsv_loop 8 mixed 1024 0 t
      ~> assert_size
      ~> (λ u. check_loop u.que.chunk_e u.que.os_e 1024 0 u)
      ~> assert_size

  pub main : Option Outcome
  main = elim (init min_chunks (mems 0) 0) [
    | none ↦ some (exit 1 0 (λ c. none))
    | some q ↦
        trim_que (record { que = q; calls = 1; passed = 0 })
        ~> fill_and_pop 3
        ~> (λ t. pop_rest (suc (size chunk_ents_bit t.que)) t)
        ~> arrays
        ~> stops
        ~> leave
  ]
