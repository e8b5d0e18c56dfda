-- ===== src/Dev/Soon/Tests.antt =====
-- The tasks of `amain_s` with an `esoon` that accepts all, and with one that refuses two of the calls.
use iel.Base.{ℕ, ◌≡◌, refl, none, some, Bool, true, false, [], ◌>>=◌, arith, ltb, leb, ◌&&◌}
use iel.Dev.Soon.{Tasks, soon_tasks, run_tasks}
use iel.Dev.Soon.Steps.{tasks}
use iel.Dev.Soon.Freed.{soon_tasks-Freed, soon_tasks_dangle}

abbrev always : ℕ → Bool
always k = true

abbrev never : ℕ → Bool
never k = false

-- The task 0x33 is the call 51, and the task 0x81 that it asks for the call 52.
abbrev two_refused : ℕ → Bool
two_refused i = leb 51 i && ltb i 53

soon_tasks-Freed_example :
    (soon_tasks never always 4096 (tasks [] [] 0 0) >>= run_tasks never 68)
    ≡ some (tasks [] [] 67 1)
soon_tasks-Freed_example =
    soon_tasks-Freed never always 4096 [] 0 0 refl (omega arith) (λ i le lt. refl)

soon_tasks_dangle_example :
    (s : Tasks) × (soon_tasks two_refused always 4096 (tasks [] [] 0 0) ≡ some s)
    × (run_tasks two_refused 68 s ≡ none)
soon_tasks_dangle_example =
    soon_tasks_dangle two_refused always 4096 [] 0 0 refl (omega arith) 68 refl
      (λ i le lt. ground (arith, lt)) refl refl (λ i le lt. ground (arith, le))
