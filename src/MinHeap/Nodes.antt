-- ===== src/MinHeap/Nodes.antt =====
-- The array of nodes: reading it in bounds, exchanging two nodes, the heap order and the nodes that
-- are in use.
use mathlib.Core.List.{Perm, perm_middle, append-nil}
use mathlib.Core.List.Perm
use iel.Base.{ℕ, zero, suc, ◌-◌, ◌/◌, ◌≤◌, ◌<◌, ◌≡◌, refl, ap, ◌∙◌, Option, some}
use iel.Base.{
  List, [], ◌∷◌, ◌++◌, get_elem?, set, take, length, length-set, if◌then◌else◌, ◌==◌, arith, leb,
  true, false,
}
use iel.MinHeap.{Node, Mh, swap, key?, le, ne}

abbrev pub none_such : Node
none_such = record { v = 0; k = 0 }

-- The node at an index; past the end, one that is never used.
unfoldable pub node : List Node → ℕ → Node
node [] i = none_such
node (x ∷ arr) zero = x
node (x ∷ arr) (suc i) = node arr i

abbrev pub key : List Node → ℕ → ℕ
key arr i = (node arr i).k

pub swapped : List Node → ℕ → ℕ → List Node
swapped arr i j = set (set arr i (node arr j)) j (node arr i)

abbrev pub parent : ℕ → ℕ
parent c = (c - 1) / 2

-- Among the first `n` nodes no key is below its parent's.
abbrev pub IsHeap : List Node → ℕ → Type 0
IsHeap arr n = (c : ℕ) → 0 < c → c < n → key arr (parent c) ≤ key arr c

-- The nodes in use
abbrev pub live : Mh → List Node
live mh = take mh.entries mh.arr

-- `P` holds of what a run returns, and it does return.
abbrev pub Gives : {A : Type 0} → (A → Type 0) → Option A → Type 0
Gives {A} P o = (a : A) × (o ≡ some a) × P a

pub get-node : (arr : List Node) (i : ℕ) → i < length arr → get_elem? arr i ≡ some (node arr i)
unfolding node
get-node [] i h = absurd (omega arith)
get-node (x ∷ arr) zero h = refl
get-node (x ∷ arr) (suc i) h = get-node arr i (omega arith)

pub node-set :
    (arr : List Node) (i j : ℕ) (v : Node)
    → i < length arr
    → node (set arr i v) j ≡ (if i == j then v else node arr j)
unfolding node
node-set [] i j v h = absurd (omega arith)
node-set (x ∷ arr) zero zero v h = refl
node-set (x ∷ arr) (suc i) (suc j) v h = ground (arith, node-set arr i j v)
node-set (x ∷ arr) zero (suc j) v h = ground arith
node-set (x ∷ arr) (suc i) zero v h = ground arith

pub take-set :
    (n : ℕ) (arr : List Node) (i : ℕ) (v : Node) → take n (set arr i v) ≡ set (take n arr) i v
take-set zero arr i v = refl
take-set (suc n) [] i v = refl
take-set (suc n) (x ∷ arr) zero v = refl
take-set (suc n) (x ∷ arr) (suc i) v = ap (◌∷◌ x) (take-set n arr i v)

pub node-take : (n : ℕ) (arr : List Node) (i : ℕ) → i < n → node (take n arr) i ≡ node arr i
unfolding node
node-take zero arr i h = absurd (omega arith)
node-take (suc n) [] i h = refl
node-take (suc n) (x ∷ arr) zero h = refl
node-take (suc n) (x ∷ arr) (suc i) h = node-take n arr i (omega arith)

pub length-take : (n : ℕ) (arr : List Node) → n ≤ length arr → length (take n arr) ≡ n
length-take zero arr h = refl
length-take (suc n) [] h = absurd (omega arith)
length-take (suc n) (x ∷ arr) h = omega (arith, length-take n arr)

-- A write trades the old node for the new one.
pub set-perm :
    (arr : List Node) (i : ℕ) (v : Node)
    → i < length arr
    → Perm (node arr i ∷ set arr i v) (v ∷ arr)
unfolding node
set-perm [] i v h = absurd (omega arith)
set-perm (x ∷ arr) zero v h = Perm.swap v x arr
set-perm (x ∷ arr) (suc i) v h =
    let rest = Perm.cons x (set-perm arr i v (omega arith)) in
    Perm.trans (Perm.swap x _ _) (Perm.trans rest (Perm.swap v x arr))

pub length-swapped : (arr : List Node) (i j : ℕ) → length (swapped arr i j) ≡ length arr
unfolding swapped
length-swapped arr i j = length-set _ j (node arr i) ∙ length-set arr i (node arr j)

module _ (arr : List Node) (i j : ℕ) (hi : i < length arr) (hj : j < length arr) where
  pub swap-ok : swap arr i j ≡ some (swapped arr i j)
  unfolding swap swapped
  swap-ok = rw (get-node arr i hi, get-node arr j hj)

  pub le-ok : le arr i j ≡ some (leb (key arr i) (key arr j))
  unfolding le key?
  le-ok = rw (get-node arr i hi, get-node arr j hj)

  pub ne-ok : ne arr i j ≡ some (if key arr i == key arr j then false else true)
  unfolding ne key?
  ne-ok = rw (get-node arr i hi, get-node arr j hj)

  pub node-swapped :
      (c : ℕ)
      → node (swapped arr i j) c
        ≡ (if j == c then node arr i else if i == c then node arr j else node arr c)
  unfolding swapped
  node-swapped c = rw (
    node-set (set arr i (node arr j)) j c (node arr i) (rw (length-set arr i (node arr j)) hj),
    node-set arr i c (node arr j) hi,
  )

  swapped-perm : Perm (swapped arr i j) arr
  unfolding swapped
  swapped-perm =
      let other = set arr i (node arr j) in
      let kept : node other j ≡ node arr j = ground (arith, node-set arr i j (node arr j)) in
      let inside : j < length other = rw (length-set arr i (node arr j)) hj in
      let second = rw kept at (set-perm other j (node arr i) inside) in
      Perm.cons_inv (Perm.trans second (set-perm arr i (node arr j) hi))

-- Two nodes in use are exchanged among those in use.
take-swapped :
    (n : ℕ) (arr : List Node) (i j : ℕ)
    → i < n
    → j < n
    → take n (swapped arr i j) ≡ swapped (take n arr) i j
unfolding swapped
take-swapped n arr i j hi hj = rw (
  take-set n (set arr i (node arr j)) j (node arr i),
  take-set n arr i (node arr j),
  node-take n arr i hi,
  node-take n arr j hj,
)

pub live-swapped :
    (n : ℕ) (arr : List Node) (i j : ℕ)
    → n ≤ length arr
    → i < n
    → j < n
    → Perm (take n (swapped arr i j)) (take n arr)
live-swapped n arr i j h hi hj =
    let size = length-take n arr h in
    rw (take-swapped n arr i j hi hj) (swapped-perm (take n arr) i j (omega arith) (omega arith))

root_least_below :
    (k n : ℕ) (arr : List Node) (i : ℕ) → IsHeap arr n → i < k → i < n → key arr 0 ≤ key arr i
root_least_below zero n arr i h f p = absurd (omega arith)
root_least_below (suc k) n arr i h f p = ground (arith, h i, root_least_below k n arr (parent i) h)

-- The root of a heap has the least key.
pub root_least : (n : ℕ) (arr : List Node) (i : ℕ) → IsHeap arr n → i < n → key arr 0 ≤ key arr i
root_least n arr i h p = root_least_below (suc i) n arr i h (omega arith) p

pub take_last :
    (n : ℕ) (arr : List Node) → n < length arr → take (suc n) arr ≡ take n arr ++ node arr n ∷ []
unfolding node
take_last n [] h = absurd (omega arith)
take_last zero (x ∷ arr) h = refl
take_last (suc n) (x ∷ arr) h = ap (◌∷◌ x) (take_last n arr (omega arith))

pub concat-perm : (xs : List Node) (x : Node) → Perm (xs ++ x ∷ []) (x ∷ xs)
concat-perm xs x = rw (append-nil xs) at (perm_middle {a = x} xs [])
