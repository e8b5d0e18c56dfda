-- ===== src/Dev/QueTest/Tests.antt =====
-- The program with an allocator that grants a chunk and up to 2000 bytes at each call.
use iel.Base.{ℕ, ◌≡◌, refl, inl, inr, Option, none, some, arith, ltb}
use iel.Que.{Map, Alloc}
use iel.Que.Push.{Bounded}
use iel.Dev.QueTest.{Outcome, exit, main}
use iel.Dev.QueTest.Whole.{Ended, all_passed, refused, main-Ended}

abbrev mem : Alloc ℕ
mem = record { grants = λ n. ltb n 2000; chunk = some (λ o. 0) }

mem-Bounded : Bounded mem
mem-Bounded n granted = ground (arith, granted)

main-Ended_example : Ended (λ k. mem) (main (λ k. mem))
main-Ended_example = main-Ended (λ k. mem) (λ k. mem-Bounded)

-- This allocator refuses none of the calls, so the program returns 0.
nothing_refused :
    {o : Option Outcome}
    → Ended (λ k. mem) o
    → (m : Map ℕ) × (o ≡ some (exit 0 2051 m)) × ((c : ℕ) → m c ≡ none)
nothing_refused (all_passed {m} freed) = (m, refl, freed)
nothing_refused (refused k early (inl no_chunk) nz nt) = absurd cc
nothing_refused (refused k early (inr (n, small, denied)) nz nt) =
    absurd (ground (arith, small, denied))

returns_0 : (m : Map ℕ) × (main (λ k. mem) ≡ some (exit 0 2051 m)) × ((c : ℕ) → m c ≡ none)
returns_0 = nothing_refused (main-Ended (λ k. mem) (λ k. mem-Bounded))
