-- ===== src/MinHeap/Tests.antt =====
-- Runs of the heap's operations, and its theorems at concrete heaps.
use iel.Base.{ℕ, zero, suc, ◌+◌, ◌≡◌, refl, Option, none, some, List, [], ◌∷◌, arith}
use iel.MinHeap.{Node, Mh, ins1, pop, popped}
use iel.MinHeap.Nodes.{IsHeap, live, none_such, node}
use iel.MinHeap.Insert.{Valid, IsRealloc, InsertedInto, ins1-InsertedInto}
use iel.MinHeap.Pop.{PoppedFrom, pop-PoppedFrom, five, pop_loses_order}

abbrev at : ℕ → Node
at k = record { v = 100 + k; k = k }

abbrev block : List Node
block = none_such ∷ none_such ∷ none_such ∷ none_such ∷ []

-- Grants every request with the same block.
abbrev malloc : ℕ → Option (List Node)
malloc n = some block

-- Refuses every request.
abbrev realloc : List Node → ℕ → Option (List Node)
realloc arr n = none

realloc-IsRealloc : IsRealloc realloc
realloc-IsRealloc arr p n e = absurd cc

abbrev three : Mh
three = record { arr = at 2 ∷ at 5 ∷ at 3 ∷ none_such ∷ []; entries = 3; maxentries = 4 }

three-IsHeap : IsHeap three.arr 3
unfolding node
three-IsHeap zero p q = absurd (omega arith)
three-IsHeap (suc zero) p q = omega arith
three-IsHeap (suc (suc zero)) p q = omega arith
three-IsHeap (suc (suc (suc c))) p q = absurd (omega arith)

three-Valid : Valid three
three-Valid = record {
  block = refl;
  fits = omega arith;
  nonempty = omega arith;
  narrow = omega arith;
  heap = three-IsHeap;
}

ins1-InsertedInto_example : InsertedInto realloc three (at 1) (ins1 realloc three 1 101)
ins1-InsertedInto_example =
    ins1-InsertedInto realloc three 1 101 realloc-IsRealloc three-Valid (omega arith)

pop-PoppedFrom_example : PoppedFrom three (pop three)
pop-PoppedFrom_example = pop-PoppedFrom three three-Valid

pop_loses_order_example :
    (after : Mh) × (pop (five (at 1) (at 2) (at 3) (at 5) (at 4)) ≡ some (popped (at 1) after))
    × (live after ≡ at 2 ∷ at 5 ∷ at 3 ∷ at 4 ∷ [])
    × (¬ IsHeap after.arr after.entries)
pop_loses_order_example =
    pop_loses_order (at 1) (at 2) (at 3) (at 5) (at 4) (omega arith) (omega arith) (omega arith)
