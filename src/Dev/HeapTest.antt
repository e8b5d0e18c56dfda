-- ===== src/Dev/HeapTest.antt =====
-- The program of dev/minheap_test.c, which tests src/minheap.c. `malloc` and `realloc` are given numbers
-- of nodes; the clock is a parameter. What the program prints of a pop is the node that it prints.
pub mod Sorted
mod Tests
use iel.Base.{
  ℕ, zero, suc, ◌+◌, ◌*◌, ◌/◌, ◌%◌, Option, none, some, List, [], ◌∷◌, ◌>>=◌, u64, add64, sub64,
}
use iel.MinHeap.{Node, Mh, Inserted, ok, no_memory, Popped, empty, popped, init, ins1, pop}

-- `ts2us`
pub ts2us : ℕ → ℕ → ℕ
ts2us tv_sec tv_nsec = u64 (tv_sec * 1000000 + tv_nsec / 1000)

-- `us2ts`: `tv_sec` and `tv_nsec`
pub us2ts : ℕ → ℕ × ℕ
us2ts us = (us / 1000000, (us % 1000000) * 1000)

-- `iel_mh_ins1`, whose result the program ignores
insert : (List Node → ℕ → Option (List Node)) → ℕ → ℕ → Mh → Option Mh
insert realloc k v mh =
    ins1 realloc mh k v >>= λ r. elim r [ ok after ↦ some after | no_memory after ↦ some after ]

-- `n` pops, each with what is printed. Where the heap is empty, `kout` and `vout` keep what they had;
-- before the first pop that is indeterminate.
pop_prints : ℕ → Option Node → Mh → Option (List Node × Mh)
pop_prints zero out mh = some ([], mh)
pop_prints (suc n) out mh = pop mh >>= λ r. elim r [
  | popped node after ↦ pop_prints n (some node) after >>= λ (ns, left). some (node ∷ ns, left)
  | empty after ↦
      out >>= λ old. pop_prints n (some old) after >>= λ (ns, left). some (old ∷ ns, left)
]

-- The insertions and pops of `main`, at a time in microseconds: the nodes that it prints. The result of
-- `iel_mh_init` is not looked at, so where `malloc` fails the program works on an indeterminate
-- heap, a fault.
heap_run : (ℕ → Option (List Node)) → (List Node → ℕ → Option (List Node)) → ℕ → Option (List Node)
unfolding insert pop_prints
heap_run malloc realloc cur =
    init malloc 4
    >>= insert realloc cur 42
    >>= insert realloc 0 42
    >>= insert realloc (add64 cur 30000) 37
    >>= insert realloc (sub64 cur 20000) 37
    >>= pop_prints 4 none
    >>= λ (ns, left). some ns

-- `main`, where `clock_gettime` gives `tv_sec` and `tv_nsec`
pub heap_main :
    (ℕ → Option (List Node)) → (List Node → ℕ → Option (List Node)) → ℕ → ℕ → Option (List Node)
heap_main malloc realloc tv_sec tv_nsec = heap_run malloc realloc (ts2us tv_sec tv_nsec)
