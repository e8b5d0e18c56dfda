-- ===== src/Dev/HeapTest/Tests.antt =====
-- The program at a second after the start, and the conversions of the clock's time.
use iel.Base.{ℕ, ◌≡◌, refl, Option, none, some, List, [], ◌∷◌, arith}
use iel.MinHeap.{Node}
use iel.MinHeap.Four.{keyed}
use iel.Dev.HeapTest.{ts2us, heap_main}
use iel.Dev.HeapTest.Sorted.{heap_main-Sorted}

abbrev blank : Node
blank = keyed 9 9

abbrev grants_four : ℕ → Option (List Node)
grants_four n = some (blank ∷ blank ∷ blank ∷ blank ∷ [])

heap_main-Sorted_example :
    heap_main grants_four (λ arr n. none) 1 0
    ≡ some (keyed 0 42 ∷ keyed 980000 37 ∷ keyed 1000000 42 ∷ keyed 1030000 37 ∷ [])
unfolding ts2us
heap_main-Sorted_example =
    heap_main-Sorted grants_four (λ arr n. none) blank blank blank blank 1 0 refl (omega arith)
      (omega arith)
