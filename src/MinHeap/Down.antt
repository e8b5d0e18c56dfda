-- ===== src/MinHeap/Down.antt =====
-- iel_mh_sdn: what its loop does to a tree with one node too high in it. It moves that node along the
-- lesser children while the keys differ.
use mathlib.Core.List.{Perm}
use mathlib.Core.List.Perm
use iel.Base.{ℕ, zero, suc, ◌+◌, ◌*◌, ◌≤◌, ◌<◌, ◌^◌, ◌≡◌, refl, ap, ◌∙◌, ◌≢◌, ◌⊎◌, Option, some}
use iel.Base.{
  List, take, length, if◌then◌else◌, ◌==◌, arith, ◌>>=◌, leb, ltb, false, Bool-cases, inl, inr,
  eq-true, eq-false,
}
use iel.MinHeap.{Node, sdn_loop, sdn, swap_with, leftc, rightc, swap, ne}
use iel.MinHeap.Nodes.{
  key, swapped, parent, Gives, le-ok, ne-ok, swap-ok, node-swapped, live-swapped, length-swapped,
}

-- Among the first `n` nodes, only the edges at `i` may be out of order.
pub record Loose (arr : List Node) (n i : ℕ) : Type 0 where
  pub edges : (c : ℕ) → 0 < c → c < n → c ≢ i → parent c ≢ i → key arr (parent c) ≤ key arr c
  pub bridged : (c : ℕ) → 0 < c → c < n → parent c ≡ i → 0 < i → key arr (parent i) ≤ key arr c

-- All edges but at most one, above a leaf, are in order.
pub record NearHeap (arr : List Node) (n : ℕ) : Type 0 where
  pub leaf : ℕ
  pub childless : (leaf ≡ 0) ⊎ (n ≤ 2 * leaf + 1)
  pub edges : (c : ℕ) → 0 < c → c < n → c ≢ leaf → key arr (parent c) ≤ key arr c

-- What `iel_mh_sdn` leaves.
pub record Sunk (arr : List Node) (n : ℕ) (after : List Node) : Type 0 where
  pub near : NearHeap after n
  pub same : Perm (take n after) (take n arr)
  pub size : length after ≡ length arr

-- The node that a round chooses
data Chosen (arr : List Node) (n i : ℕ) : ℕ → Type 0 where
  at_leaf : n ≤ 2 * i + 1 → Chosen arr n i i
  child :
      (s : ℕ)
      → i < s
      → s < n
      → parent s ≡ i
      → ((c : ℕ) → 0 < c → c < n → parent c ≡ i → key arr s ≤ key arr c)
      → Chosen arr n i s

two_children : (i c : ℕ) → 0 < c → parent c ≡ i → (c ≡ 2 * i + 1) ⊎ (c ≡ 2 * i + 2)
two_children i c p t = ground arith

least-left :
    (arr : List Node) (i c : ℕ)
    → key arr (2 * i + 1) ≤ key arr (2 * i + 2)
    → 0 < c
    → parent c ≡ i
    → key arr (2 * i + 1) ≤ key arr c
least-left arr i c e p t = elim (two_children i c p t) [
  | inl q ↦ omega (arith, ap (key arr) q)
  | inr q ↦ omega (arith, ap (key arr) q, e)
]

least-right :
    (arr : List Node) (i c : ℕ)
    → key arr (2 * i + 2) < key arr (2 * i + 1)
    → 0 < c
    → parent c ≡ i
    → key arr (2 * i + 2) ≤ key arr c
least-right arr i c e p t = elim (two_children i c p t) [
  | inl q ↦ omega (arith, ap (key arr) q, e)
  | inr q ↦ omega (arith, ap (key arr) q)
]

swap_with-Chosen :
    (arr : List Node) (n i : ℕ)
    → i < n
    → n < 2 ^ 31
    → n ≤ length arr
    → Gives (Chosen arr n i) (swap_with arr n i)
unfolding swap_with
swap_with-Chosen arr n i inside narrow fits =
    let l : leftc i ≡ 2 * i + 1 = unfold leftc in omega arith in
    let r : rightc i ≡ 2 * i + 2 = unfold rightc in omega arith in
    rw (l, r)
      (elim (Bool-cases (ltb (2 * i + 1) n)) [
        | inr hl ↦
            let no_r : ltb (2 * i + 2) n ≡ false = ground (arith, hl) in
            rw (hl, no_r) (i, refl, at_leaf (ground (arith, hl)))
        | inl hl ↦ elim (Bool-cases (ltb (2 * i + 2) n)) [
          | inr hr ↦
              rw (hl, hr)
                (
                  2 * i + 1,
                  refl,
                  child (2 * i + 1) (omega arith) (ground (arith, hl)) (omega arith)
                      (λ c p q e. ground (arith, hl, hr)),
                )
          | inl hr ↦
              let ordered =
                le-ok arr (2 * i + 1) (2 * i + 2) (ground (arith, hl)) (ground (arith, hr)) in
              elim (Bool-cases (leb (key arr (2 * i + 1)) (key arr (2 * i + 2)))) [
                | inl e ↦
                    rw (hl, hr, ordered, e)
                      (
                        2 * i + 1,
                        refl,
                        child _ (omega arith) (ground (arith, hl)) (omega arith)
                            (λ c p q t. least-left arr i c (ground (arith, e)) p t),
                      )
                | inr e ↦
                    rw (hl, hr, ordered, e)
                      (
                        2 * i + 2,
                        refl,
                        child _ (omega arith) (ground (arith, hr)) (omega arith)
                            (λ c p q t. least-right arr i c (ground (arith, e)) p t),
                      )
              ]
        ]
      ])

module _ (arr : List Node) (n i s : ℕ) (fits : n ≤ length arr) (v : Loose arr n i) (above : i < s)
    (inside : s < n) (below : parent s ≡ i)
    (least : (c : ℕ) → 0 < c → c < n → parent c ≡ i → key arr s ≤ key arr c) where
  swapped-Loose : Loose (swapped arr i s) n s
  swapped-Loose =
      let at = node-swapped arr i s (omega arith) (omega arith) in
      record {
        edges = λ c p q r t. ground (arith, at c, at (parent c), v.edges c, v.bridged s, least c);
        bridged = λ c p q r t. ground (arith, at c, at i, v.edges c);
      }

  equal-NearHeap : key arr s ≡ key arr i → NearHeap arr n
  equal-NearHeap e = record {
    leaf = 0;
    childless = inl refl;
    edges = λ c p q r. ground (arith, e, v.edges c, v.bridged s, least c);
  }

-- The rest of a round, once the node is chosen
sdn_step : ℕ → List Node → ℕ → ℕ → ℕ → Option (List Node)
sdn_step rounds arr n cur s =
    if s == cur
    then some arr
    else (ne arr s cur >>= λ differ.
        if differ then (swap arr cur s >>= λ moved. sdn_loop rounds moved n s) else some arr)

sdn_round :
    (rounds : ℕ) (arr : List Node) (n i s : ℕ)
    → n < suc rounds + i
    → i < n
    → n < 2 ^ 31
    → n ≤ length arr
    → Loose arr n i
    → Chosen arr n i s
    → ((arr : List Node)
        → i < s
        → s < n
        → n ≤ length arr
        → Loose arr n s
        → Gives (Sunk arr n) (sdn_loop rounds arr n s))
    → Gives (Sunk arr n) (sdn_step rounds arr n i s)
unfolding sdn_step
sdn_round rounds arr n i s enough inside narrow fits v (at_leaf h) again = rw (eq-true i i refl) (
  arr,
  refl,
  record {
    near = record { leaf = i; childless = inr h; edges = λ c p q r. ground (arith, v.edges c, h) };
    same = Perm.rfl;
    size = refl;
  },
)
sdn_round rounds arr n i s enough inside narrow fits v (child _ above below e least) again =
    let differ = ne-ok arr s i (omega arith) (omega arith) in
    elim (Bool-cases (key arr s == key arr i)) [
      | inl same ↦
          rw (eq-false s i (omega arith), differ, same)
            (
              arr,
              refl,
              record {
                near = equal-NearHeap arr n i s fits v above below e least (ground (arith, same));
                same = Perm.rfl;
                size = refl;
              },
            )
      | inr other ↦
          let next = swapped arr i s in
          let size = length-swapped arr i s in
          let moved = swap-ok arr i s (omega arith) (omega arith) in
          let (after, r, sunk) =
            again next above below (omega (arith, size))
              (swapped-Loose arr n i s fits v above below e least) in
          rw (eq-false s i (omega arith), differ, other, moved)
            (
              after,
              r,
              record {
                near = sunk.near;
                same = Perm.trans sunk.same (live-swapped n arr i s fits inside below);
                size = sunk.size ∙ size;
              },
            )
    ]

sdn_loop-Sunk :
    (rounds : ℕ) (arr : List Node) (n i : ℕ)
    → n < rounds + i
    → i < n
    → n < 2 ^ 31
    → n ≤ length arr
    → Loose arr n i
    → Gives (Sunk arr n) (sdn_loop rounds arr n i)
unfolding sdn_loop sdn_step
sdn_loop-Sunk zero arr n i enough inside narrow fits v = absurd (omega arith)
sdn_loop-Sunk (suc rounds) arr n i enough inside narrow fits v =
    let (s, e, chosen) = swap_with-Chosen arr n i inside narrow fits in
    rw e (
      sdn_round rounds arr n i s enough inside narrow fits v chosen (λ moved above below size w.
        sdn_loop-Sunk rounds moved n s (omega arith) below narrow size w))

-- `iel_mh_sdn` from the root ends with the same nodes, and at most one edge out of order.
pub sdn-Sunk :
    (arr : List Node) (n : ℕ)
    → 0 < n
    → n < 2 ^ 31
    → n ≤ length arr
    → Loose arr n 0
    → Gives (Sunk arr n) (sdn arr n 0)
unfolding sdn
sdn-Sunk arr n pos narrow fits v = sdn_loop-Sunk (n + 1) arr n 0 (omega arith) pos narrow fits v
