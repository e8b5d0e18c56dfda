-- ===== src/Dev/HeapTest/Sorted.antt =====
-- The order in which dev/minheap_test.c prints.
use iel.Base.{
  ℕ, ◌+◌, ◌-◌, ◌^◌, ◌≤◌, ◌<◌, ◌≡◌, refl, Option, none, some, List, [], ◌∷◌, ◌>>=◌, add64, sub64,
  arith,
}
use iel.MinHeap.{ok, Node, Mh, ins1}
use iel.MinHeap.Four.{
  four, keyed, ins1-first, ins1-second, ins1-third, ins1-fourth, pop-four, pop-three, pop-two,
  pop-one, init-four,
}
use iel.Dev.HeapTest.{ts2us, us2ts, insert, pop_prints, heap_run, heap_main}

-- A number of microseconds with a normalised time stays what it is.
pub ts2us-us2ts : (us : ℕ) → us < 2 ^ 64 → ts2us (us2ts us).0 (us2ts us).1 ≡ us
unfolding ts2us us2ts
ts2us-us2ts us small = omega (arith, small)

insert-ok :
    (realloc : List Node → ℕ → Option (List Node)) (k v : ℕ) (mh after : Mh)
    → ins1 realloc mh k v ≡ some (ok after)
    → insert realloc k v mh ≡ some after
unfolding insert
insert-ok realloc k v mh after e = ground (arith, e)

inserted :
    (realloc : List Node → ℕ → Option (List Node)) (a b c d : Node) (cur : ℕ)
    → 20000 < cur
    → cur + 30000 < 2 ^ 64
    → (insert realloc cur 42 (four a b c d 0)
        >>= insert realloc 0 42
        >>= insert realloc (add64 cur 30000) 37
        >>= insert realloc (sub64 cur 20000) 37)
      ≡ some (four (keyed 0 42) (keyed (cur - 20000) 37) (keyed (cur + 30000) 37) (keyed cur 42) 4)
inserted realloc a b c d cur low high =
    let later : add64 cur 30000 ≡ cur + 30000 = omega (arith, high) in
    let earlier : sub64 cur 20000 ≡ cur - 20000 = omega (arith, low, high) in
    let node_1 = keyed cur 42 in
    let node_2 = keyed 0 42 in
    let node_3 = keyed (cur + 30000) 37 in
    rw
      (
        later,
        earlier,
        insert-ok realloc cur 42 _ _ (ins1-first realloc a b c d cur 42),
        insert-ok realloc 0 42 _ _ (ins1-second realloc node_1 b c d 0 42 (omega (arith, low))),
        insert-ok realloc (cur + 30000) 37 _ _
            (ins1-third realloc node_2 node_1 c d (cur + 30000) 37 (omega arith)),
        insert-ok realloc (cur - 20000) 37 _ _ (
            ins1-fourth realloc node_2 node_1 node_3 d (cur - 20000) 37 (omega (arith, low))
              (omega arith)),
      )
      refl

printed :
    (a b c d : Node)
    → b.k ≤ c.k
    → b.k < d.k
    → d.k < c.k
    → pop_prints 4 none (four a b c d 4) ≡ some (a ∷ b ∷ d ∷ c ∷ [], four c d b a 0)
unfolding pop_prints
printed a b c d left least middle =
    rw
      (
        pop_prints,
        pop-four a b c d left least,
        pop-three b d c a middle,
        pop-two d c b a,
        pop-one c d b a,
      )
      refl

heap_run-Sorted :
    (malloc : ℕ → Option (List Node)) (realloc : List Node → ℕ → Option (List Node))
    (a b c d : Node) (cur : ℕ)
    → malloc 4 ≡ some (a ∷ b ∷ c ∷ d ∷ [])
    → 20000 < cur
    → cur + 30000 < 2 ^ 64
    → heap_run malloc realloc cur
      ≡ some (keyed 0 42 ∷ keyed (cur - 20000) 37 ∷ keyed cur 42 ∷ keyed (cur + 30000) 37 ∷ [])
unfolding heap_run
heap_run-Sorted malloc realloc a b c d cur granted low high =
    rw
      (
        heap_run,
        init-four malloc a b c d granted,
        inserted realloc a b c d cur low high,
        printed (keyed 0 42) (keyed (cur - 20000) 37) (keyed (cur + 30000) 37) (keyed cur 42)
            (omega arith) (omega (arith, low)) (omega arith),
      )
      refl

-- Where the first block is granted, four nodes with whatever they hold, and the time, in microseconds,
-- leaves room for the two sums, the program never needs a larger block and prints its four
-- nodes in the order of their keys, each with its own value.
pub heap_main-Sorted :
    (malloc : ℕ → Option (List Node)) (realloc : List Node → ℕ → Option (List Node))
    (a b c d : Node) (tv_sec tv_nsec : ℕ)
    → malloc 4 ≡ some (a ∷ b ∷ c ∷ d ∷ [])
    → 20000 < ts2us tv_sec tv_nsec
    → ts2us tv_sec tv_nsec + 30000 < 2 ^ 64
    → heap_main malloc realloc tv_sec tv_nsec
      ≡ some (
          keyed 0 42
          ∷ keyed (ts2us tv_sec tv_nsec - 20000) 37
          ∷ keyed (ts2us tv_sec tv_nsec) 42
          ∷ keyed (ts2us tv_sec tv_nsec + 30000) 37
          ∷ [])
unfolding heap_main
heap_main-Sorted malloc realloc a b c d tv_sec tv_nsec granted low high =
    heap_run-Sorted malloc realloc a b c d (ts2us tv_sec tv_nsec) granted low high
