-- ===== src/MinHeap/Four.antt =====
-- The heap in a block of four nodes: the insertions and the pops of dev/minheap_test.c.
use iel.Base.{ℕ, ◌≤◌, ◌<◌, ◌≡◌, refl, Option, some, true, false, List, [], ◌∷◌, arith, ◌==◌, leb}
use iel.MinHeap.{
  Node, Mh, ok, popped, init, ins1, insert_into, grow, put, sup, sup_loop, par, le, ne, key?, swap,
  pop, sdn, sdn_loop, swap_with, leftc, rightc,
}

-- A heap of `n` nodes in a block of four
abbrev pub four : Node → Node → Node → Node → ℕ → Mh
four a b c d n = record { arr = a ∷ b ∷ c ∷ d ∷ []; entries = n; maxentries = 4 }

abbrev pub keyed : ℕ → ℕ → Node
keyed k v = record { v = v; k = k }

module _ (realloc : List Node → ℕ → Option (List Node)) (a b c d : Node) (k v : ℕ) where
  pub ins1-first : ins1 realloc (four a b c d 0) k v ≡ some (ok (four (keyed k v) b c d 1))
  unfolding ins1 insert_into grow put
  ins1-first = refl

  -- A second node of lesser key goes to the root.
  pub ins1-second :
      k < a.k → ins1 realloc (four a b c d 1) k v ≡ some (ok (four (keyed k v) a c d 2))
  unfolding ins1 insert_into grow put sup sup_loop par le key? swap
  ins1-second lt = let below : leb a.k k ≡ false = ground (arith, lt) in rw below refl

  pub ins1-third :
      a.k ≤ k → ins1 realloc (four a b c d 2) k v ≡ some (ok (four a b (keyed k v) d 3))
  unfolding ins1 insert_into grow put sup sup_loop par le key? swap
  ins1-third le_k = let above : leb a.k k ≡ true = ground (arith, le_k) in rw above refl

  -- A fourth node goes above the second, and stays below the root.
  pub ins1-fourth :
      k < b.k → a.k ≤ k → ins1 realloc (four a b c d 3) k v ≡ some (ok (four a (keyed k v) c b 4))
  unfolding ins1 insert_into grow put sup sup_loop par le key? swap
  ins1-fourth lt le_k =
      let below : leb b.k k ≡ false = ground (arith, lt) in
      let above : leb a.k k ≡ true = ground (arith, le_k) in rw (below, above) refl

module _ (a b c d : Node) where
  -- The last node takes the root's place, and the lesser child, the left one, goes up.
  pub pop-four : b.k ≤ c.k → b.k < d.k → pop (four a b c d 4) ≡ some (popped a (four b d c a 3))
  unfolding pop sdn sdn_loop swap_with le ne key? swap leftc rightc
  pop-four left differ =
      let least : leb b.k c.k ≡ true = ground (arith, left) in
      let other : (b.k == d.k) ≡ false = ground (arith, differ) in rw (least, other) refl

  pub pop-three : b.k < c.k → pop (four a b c d 3) ≡ some (popped a (four b c a d 2))
  unfolding pop sdn sdn_loop swap_with le ne key? swap leftc rightc
  pop-three differ = let other : (b.k == c.k) ≡ false = ground (arith, differ) in rw other refl

  pub pop-two : pop (four a b c d 2) ≡ some (popped a (four b a c d 1))
  unfolding pop sdn sdn_loop swap_with le ne key? swap leftc rightc
  pop-two = refl

  pub pop-one : pop (four a b c d 1) ≡ some (popped a (four a b c d 0))
  unfolding pop sdn sdn_loop swap_with le ne key? swap leftc rightc
  pop-one = refl

-- A new heap in a block of four
pub init-four :
    (malloc : ℕ → Option (List Node)) (a b c d : Node)
    → malloc 4 ≡ some (a ∷ b ∷ c ∷ d ∷ [])
    → init malloc 4 ≡ some (four a b c d 0)
unfolding init
init-four malloc a b c d granted = rw (init, granted) refl
