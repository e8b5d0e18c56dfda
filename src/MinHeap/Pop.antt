-- ===== src/MinHeap/Pop.antt =====
-- iel_mh_pop: what it takes, what it leaves, and where the order of the heap is lost.
use mathlib.Core.List.{Perm}
use mathlib.Core.List.Perm
use iel.Base.{ℕ, suc, ◌+◌, ◌-◌, ◌≤◌, ◌<◌, ◌^◌, ◌≡◌, refl, ap, sym, ◌∙◌, Option, some}
use iel.Base.{
  List, [], ◌∷◌, ◌++◌, take, length, if◌then◌else◌, ◌==◌, arith, ◌>>=◌, leb, true, false, Bool,
  Bool-cases, inl, inr, eq-true, sub32,
}
use mathlib.Core.Path.{subst}
use iel.MinHeap.{
  Node, Mh, Popped, empty, popped, pop, sdn, sdn_loop, swap_with, le, ne, key?, swap, leftc, rightc,
}
use iel.MinHeap.Nodes.{
  node, key, swapped, parent, IsHeap, Gives, live, get-node, swap-ok, node-swapped, live-swapped,
  length-swapped, concat-perm, root_least, take_last,
}
use iel.MinHeap.Insert.{Valid}
use iel.MinHeap.Down.{Loose, NearHeap, Sunk, sdn-Sunk}

-- What a pop of a heap returns.
pub data PoppedFrom (mh : Mh) : Option Popped → Type 0 where
  was_empty : mh.entries ≡ 0 → PoppedFrom mh (some (empty mh))
  took :
      (root : Node) (after : Mh)
      → ((i : ℕ) → i < mh.entries → root.k ≤ key mh.arr i)
      → Perm (root ∷ live after) (live mh)
      → mh.entries ≡ after.entries + 1
      → NearHeap after.arr after.entries
      → length after.arr ≡ length mh.arr
      → PoppedFrom mh (some (popped root after))

swapped-Loose :
    (arr : List Node) (n : ℕ)
    → n < length arr
    → 0 < n
    → IsHeap arr (n + 1)
    → Loose (swapped arr 0 n) n 0
swapped-Loose arr n fits pos h =
    let at = node-swapped arr 0 n (omega arith) fits in
    record {
      edges = λ c p q r t. ground (arith, at c, at (parent c), h c);
      bridged = λ c p q r t. absurd (omega arith);
    }

if-true : (t : Bool) (x y : Node) → t ≡ true → (if t then x else y) ≡ x
if-true t x y e = ap (λ (b : Bool). if b then x else y) e

-- The root goes behind the nodes that are left.
root-Perm :
    (arr : List Node) (n : ℕ)
    → n < length arr
    → Perm (node arr 0 ∷ take n (swapped arr 0 n)) (take (n + 1) arr)
root-Perm arr n fits =
    let moved = swapped arr 0 n in
    let size = length-swapped arr 0 n in
    let last : node moved n ≡ node arr 0 =
      node-swapped arr 0 n (omega arith) fits n ∙ if-true (n == n) _ _ (eq-true n n refl) in
    let split : take (n + 1) moved ≡ take n moved ++ node arr 0 ∷ [] =
      ap (λ (k : ℕ). take k moved) {x = n + 1} {y = suc n} (omega arith)
      ∙ take_last n moved (omega (arith, size))
      ∙ ap (λ (x : Node). take n moved ++ x ∷ []) last in
    let all = live-swapped (n + 1) arr 0 n (omega arith) (omega arith) (omega arith) in
    Perm.trans (Perm.symm (concat-perm (take n moved) (node arr 0))) (rw split at all)

-- What is left once the root has gone behind it
sink :
    (moved : List Node) (n : ℕ)
    → n < 2 ^ 31
    → n < length moved
    → (0 < n → Loose moved n 0)
    → Gives (Sunk moved n) (if n == 0 then some moved else sdn moved n 0)
sink moved n narrow fits v = elim (Bool-cases (n == 0)) [
  | inl z ↦ rw z (
    moved,
    refl,
    record {
      near = record {
        leaf = 0;
        childless = inl refl;
        edges = λ c p q r. absurd (ground (arith, z));
      };
      same = Perm.rfl;
      size = refl;
    },
  )
  | inr z ↦
      let pos : 0 < n = ground (arith, z) in
      rw z (sdn-Sunk moved n pos narrow (omega arith) (v pos))
]

left_over :
    (mh : Mh) (n : ℕ) (arr : List Node) (o : Option (List Node))
    → Valid mh
    → mh.entries ≡ n + 1
    → o ≡ some arr
    → Sunk (swapped mh.arr 0 n) n arr
    → PoppedFrom mh (
        o >>= λ arr.
        some
          (popped (node mh.arr 0) (record { arr = arr; entries = n; maxentries = mh.maxentries })))
left_over mh n arr o v count e sunk =
    let inside : n < length mh.arr = omega (arith, v.block, v.fits) in
    let after : Mh = record { arr = arr; entries = n; maxentries = mh.maxentries } in
    let same : Perm (node mh.arr 0 ∷ take n arr) (take (n + 1) mh.arr) =
      Perm.trans (Perm.cons (node mh.arr 0) sunk.same) (root-Perm mh.arr n inside) in
    rw e (
      took (node mh.arr 0) after (λ i p. root_least mh.entries mh.arr i v.heap p)
        (subst (λ (k : ℕ). Perm (node mh.arr 0 ∷ take n arr) (take k mh.arr)) (sym count) same)
        count sunk.near (sunk.size ∙ length-swapped mh.arr 0 n))

-- A pop of a valid heap returns. It returns -1 and leaves the heap when there is no node. Else it
-- takes a node of least key and leaves the other nodes, with at most one edge of the tree out of
-- order, above a leaf.
pub pop-PoppedFrom : (mh : Mh) → Valid mh → PoppedFrom mh (pop mh)
unfolding pop
pop-PoppedFrom mh v = elim (Bool-cases (mh.entries == 0)) [
  | inl z ↦ rw z (was_empty (ground (arith, z)))
  | inr z ↦
      let n = mh.entries - 1 in
      let count : mh.entries ≡ n + 1 = ground (arith, z) in
      let last : sub32 mh.entries 1 ≡ n = omega (arith, v.narrow, v.fits) in
      let inside : n < length mh.arr = omega (arith, v.block, v.fits) in
      let heap : IsHeap mh.arr (n + 1) = λ c p q. v.heap c p (omega arith) in
      rw (z, last, get-node mh.arr 0 (omega arith), swap-ok mh.arr 0 n (omega arith) inside)
        (let moved = swapped mh.arr 0 n in
          let size = length-swapped mh.arr 0 n in
          let (arr, e, sunk) =
            sink moved n (omega (arith, v.fits, v.narrow)) (omega (arith, size))
              (λ pos. swapped-Loose mh.arr n inside pos heap) in
          left_over mh n arr _ v count e sunk)
]

abbrev pub five : Node → Node → Node → Node → Node → Mh
five a b c d e = record { arr = a ∷ b ∷ c ∷ d ∷ e ∷ []; entries = 5; maxentries = 5 }

-- A heap of five nodes whose last key lies strictly between the second's and the fourth's, where the
-- second's is not above the third's, is not a heap after a pop.
pub pop_loses_order :
    (a b c d e : Node)
    → b.k ≤ c.k
    → b.k < e.k
    → e.k < d.k
    → (after : Mh) × (pop (five a b c d e) ≡ some (popped a after))
      × (live after ≡ b ∷ d ∷ c ∷ e ∷ [])
      × (¬ IsHeap after.arr after.entries)
unfolding pop sdn sdn_loop swap_with le ne key? swap leftc rightc node
pop_loses_order a b c d e hbc hbe hed =
    let least : leb b.k c.k ≡ true = ground (arith, hbc) in
    let first : (b.k == e.k) ≡ false = ground (arith, hbe) in
    let second : (d.k == e.k) ≡ false = ground (arith, hed) in
    (
      record { arr = b ∷ d ∷ c ∷ e ∷ a ∷ []; entries = 4; maxentries = 5 },
      rw (least, first, second),
      refl,
      λ heap. absurd (omega (arith, heap 3 (omega arith) (omega arith))),
    )
