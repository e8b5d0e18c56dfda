-- ===== src/MinHeap/Up.antt =====
-- iel_mh_sup: the new node moves up until its parent's key is not above its own.
use mathlib.Core.List.{Perm}
use mathlib.Core.List.Perm
use iel.Base.{ℕ, zero, suc, ◌+◌, ◌≤◌, ◌<◌, ◌^◌, ◌≡◌, refl, ◌∙◌, ◌≢◌}
use iel.Base.{List, take, length, ◌==◌, arith, leb, Bool-cases, inl, inr}
use iel.MinHeap.{Node, sup_loop, sup, par}
use iel.MinHeap.Nodes.{
  key, swapped, parent, IsHeap, Gives, le-ok, swap-ok, node-swapped, live-swapped, length-swapped,
}

par-parent : (i : ℕ) → 0 < i → i < 2 ^ 32 → par i ≡ parent i
unfolding par
par-parent i pos h = omega arith

-- Among the first `n` nodes, only the edge above `i` may be out of order.
pub record UpInv (arr : List Node) (n i : ℕ) : Type 0 where
  pub inside : i < n
  pub edges : (c : ℕ) → 0 < c → c < n → c ≢ i → key arr (parent c) ≤ key arr c
  pub bridged : (c : ℕ) → 0 < c → c < n → parent c ≡ i → 0 < i → key arr (parent i) ≤ key arr c

-- What a sift leaves: a heap of the same nodes, with the other nodes where they were.
pub record Sifted (arr : List Node) (n : ℕ) (after : List Node) : Type 0 where
  pub heap : IsHeap after n
  pub same : Perm (take n after) (take n arr)
  pub size : length after ≡ length arr

module _ (arr : List Node) (n i : ℕ) (fits : n ≤ length arr) (v : UpInv arr n i) (pos : 0 < i) where
  swapped-UpInv : key arr i < key arr (parent i) → UpInv (swapped arr i (parent i)) n (parent i)
  swapped-UpInv below =
      let at = node-swapped arr i (parent i) (omega (arith, v.inside)) (omega (arith, v.inside)) in
      record {
        inside = omega (arith, v.inside);
        edges = λ c p q r. ground (arith, at c, at (parent c), v.edges c, v.bridged c);
        bridged = λ c p q r t.
            ground (arith, at c, at (parent (parent i)), v.edges c, v.edges (parent i));
      }

  root-IsHeap : key arr i < key arr (parent i) → parent i ≡ 0 → IsHeap (swapped arr i (parent i)) n
  root-IsHeap below root c p q =
      let w = swapped-UpInv below in w.edges c p q (λ e. absurd (omega (arith)))

settled-IsHeap :
    (arr : List Node) (n i : ℕ)
    → UpInv arr n i
    → (0 < i → key arr (parent i) ≤ key arr i)
    → IsHeap arr n
settled-IsHeap arr n i v h c p q = ground (arith, v.edges c, h)

sup_loop-Sifted :
    (rounds : ℕ) (arr : List Node) (n i : ℕ)
    → i < rounds
    → 0 < i
    → n < 2 ^ 32
    → n ≤ length arr
    → UpInv arr n i
    → Gives (Sifted arr n) (sup_loop rounds arr i (parent i))
unfolding sup_loop
sup_loop-Sifted zero arr n i enough pos narrow fits v = absurd (omega arith)
sup_loop-Sifted (suc rounds) arr n i enough pos narrow fits v =
    let up = parent i in
    let hi : i < n = v.inside in
    let hp : up < n = omega arith in
    let ordered = le-ok arr up i (omega arith) (omega arith) in
    let moved = swap-ok arr i up (omega arith) (omega arith) in
    elim (Bool-cases (leb (key arr up) (key arr i))) [
      | inl e ↦
          rw (ordered, e)
            (
              arr,
              refl,
              record {
                heap = settled-IsHeap arr n i v (λ p. ground (arith, e));
                same = Perm.rfl;
                size = refl;
              },
            )
      | inr e ↦
          let below : key arr i < key arr up = ground (arith, e) in
          let next = swapped arr i up in
          let size = length-swapped arr i up in
          let same = live-swapped n arr i up fits hi hp in
          elim (Bool-cases (up == 0)) [
            | inl z ↦
                rw (ordered, e, moved, z)
                  (
                    next,
                    refl,
                    record {
                      heap = root-IsHeap arr n i fits v pos below (ground (arith, z));
                      same = same;
                      size = size;
                    },
                  )
            | inr z ↦
                let above : 0 < up = ground (arith, z) in
                rw (ordered, e, moved, z, par-parent up above (omega arith))
                  (let rest =
                      sup_loop-Sifted rounds next n up (omega arith) above narrow
                        (omega (arith, size)) (swapped-UpInv arr n i fits v pos below) in
                    (
                      rest.0,
                      rest.1,
                      record {
                        heap = rest.2.heap;
                        same = Perm.trans rest.2.same same;
                        size = rest.2.size ∙ size;
                      },
                    ))
          ]
    ]

-- `iel_mh_sup` from a node whose edge alone is out of order makes a heap of the same nodes.
pub sup-Sifted :
    (arr : List Node) (n i : ℕ)
    → 0 < i
    → n < 2 ^ 32
    → n ≤ length arr
    → UpInv arr n i
    → Gives (Sifted arr n) (sup arr i)
unfolding sup
sup-Sifted arr n i pos narrow fits v =
    rw (par-parent i pos (omega (arith, v.inside)))
      (sup_loop-Sifted (i + 1) arr n i (omega arith) pos narrow fits v)
