-- ===== src/MinHeap/Insert.antt =====
-- iel_mh_init and iel_mh_ins1: the heap's invariant, and what an insertion does to it.
use mathlib.Core.List.{Perm}
use mathlib.Core.List.Perm
use mathlib.Core.Option.{some-injective}
use iel.Base.{
  ℕ, zero, suc, ◌+◌, ◌*◌, ◌≤◌, ◌<◌, ◌^◌, ◌≡◌, refl, ap, sym, ◌∙◌, Option, none, some, Option-cases,
}
use iel.Base.{
  List, [], ◌∷◌, ◌++◌, take, length, set, get_elem?, length-set, ◌==◌, arith, ltb, Bool-cases,
  eq-false, inl, inr, u32, add32,
}
use iel.MinHeap.{Node, Mh, init, grow, put, ins1, insert_into, Inserted, ok, no_memory, sup}
use iel.MinHeap.Nodes.{
  concat-perm, node, key, parent, IsHeap, live, Gives, get-node, node-set, node-take,
}
use iel.MinHeap.Up.{UpInv, Sifted, sup-Sifted}

-- The block has `maxentries` nodes, those in use are a heap, and the child indices do not wrap.
pub record Valid (mh : Mh) : Type 0 where
  pub block : length mh.arr ≡ mh.maxentries
  pub fits : mh.entries ≤ mh.maxentries
  pub nonempty : 0 < mh.maxentries
  pub narrow : mh.maxentries ≤ 2 ^ 31
  pub heap : IsHeap mh.arr mh.entries

-- `realloc`, where it grants a block: one of that size with the old contents.
abbrev pub IsRealloc : (List Node → ℕ → Option (List Node)) → Type 0
IsRealloc realloc =
    (arr p : List Node) (n : ℕ)
    → realloc arr n ≡ some p
    → (length p ≡ n) × ((i : ℕ) → i < n → i < length arr → get_elem? p i ≡ get_elem? arr i)

-- What an insertion of a node returns.
pub data InsertedInto (realloc : List Node → ℕ → Option (List Node)) (mh : Mh) (new : Node)
    : Option Inserted → Type 0 where
  stored :
      (after : Mh)
      → Valid after
      → Perm (live after) (new ∷ live mh)
      → after.entries ≡ mh.entries + 1
      → InsertedInto realloc mh new (some (ok after))
  refused :
      mh.entries ≡ mh.maxentries
      → realloc mh.arr (mh.maxentries * 2) ≡ none
      → InsertedInto realloc mh new (some (no_memory mh))

-- A heap of a positive number of nodes, at most 2 ^ 31, that `malloc` grants starts empty and valid.
pub init-Valid :
    (malloc : ℕ → Option (List Node)) (initlen : ℕ) (arr : List Node)
    → malloc initlen ≡ some arr
    → length arr ≡ initlen
    → 0 < initlen
    → initlen ≤ 2 ^ 31
    → Gives (λ mh. Valid mh × (live mh ≡ [])) (init malloc initlen)
unfolding init
init-Valid malloc initlen arr e size pos narrow = rw e (
  _,
  refl,
  (
    record {
      block = size;
      fits = omega arith;
      nonempty = pos;
      narrow = narrow;
      heap = λ c p q. absurd (omega arith);
    },
    refl,
  ),
)

take-set_last :
    (n : ℕ) (arr : List Node) (v : Node)
    → n < length arr
    → take (suc n) (set arr n v) ≡ take n arr ++ v ∷ []
take-set_last n [] v h = absurd (omega arith)
take-set_last zero (x ∷ arr) v h = refl
take-set_last (suc n) (x ∷ arr) v h = ap (◌∷◌ x) (take-set_last n arr v (omega arith))

take_same :
    (n : ℕ) (xs ys : List Node)
    → n ≤ length xs
    → n ≤ length ys
    → ((i : ℕ) → i < n → get_elem? xs i ≡ get_elem? ys i)
    → take n xs ≡ take n ys
take_same zero xs ys hx hy same = refl
take_same (suc n) [] ys hx hy same = absurd (omega arith)
take_same (suc n) (x ∷ xs) [] hx hy same = absurd (omega arith)
take_same (suc n) (x ∷ xs) (y ∷ ys) hx hy same =
    let first : x ≡ y = some-injective _ _ (same 0 (omega arith)) in
    let rest = take_same n xs ys (omega arith) (omega arith) (λ i h. same (suc i) (omega arith)) in
    ap (λ (z : Node). z ∷ take n xs) first ∙ ap (◌∷◌ y) rest

-- The heap order reads the nodes in use only.
pub IsHeap-take : (n : ℕ) (xs ys : List Node) → take n xs ≡ take n ys → IsHeap xs n → IsHeap ys n
IsHeap-take n xs ys e h c p q =
    let same : (i : ℕ) → i < n → key xs i ≡ key ys i = λ i below.
      ap (λ (x : Node). x.k)
        (sym (node-take n xs i below)
          ∙ ap (λ (zs : List Node). node zs i) e
          ∙ node-take n ys i below) in
    omega (arith, same c q, same (parent c) (omega arith), h c p q)

module _ (realloc : List Node → ℕ → Option (List Node)) (documented : IsRealloc realloc) where
  -- Room for one more, the nodes in use kept; or `realloc` has refused.
  data Grown (mh : Mh) : Option Mh → Type 0 where
    roomy :
        (room : Mh)
        → Valid room
        → room.entries < room.maxentries
        → room.entries ≡ mh.entries
        → live room ≡ live mh
        → Grown mh (some room)
    full : mh.entries ≡ mh.maxentries → realloc mh.arr (mh.maxentries * 2) ≡ none → Grown mh none

  grow-Grown : (mh : Mh) → Valid mh → mh.maxentries ≤ 2 ^ 30 → Grown mh (grow realloc mh)
  unfolding grow
  grow-Grown mh v small =
      let want : u32 (mh.maxentries * 2) ≡ mh.maxentries * 2 = omega arith in
      let next : add32 mh.entries 1 ≡ mh.entries + 1 = omega (arith, v.fits) in
      elim (Bool-cases (ltb mh.maxentries (add32 mh.entries 1))) [
        | inl e ↦
            let full_now : mh.entries ≡ mh.maxentries = ground (arith, e, v.fits, next) in
            elim (Option-cases (realloc mh.arr (mh.maxentries * 2))) [
              | inl n ↦ rw (e, want, n) (full full_now n)
              | inr (p, g) ↦
                  let (size, old) = documented mh.arr p (mh.maxentries * 2) g in
                  let same : take mh.entries mh.arr ≡ take mh.entries p =
                    take_same mh.entries mh.arr p (omega (arith, v.block))
                      (omega (arith, v.nonempty))
                      (λ i h. sym (old i (omega (arith, v.fits)) (omega (arith, v.block)))) in
                  rw (e, want, g)
                    (roomy _
                      (record {
                        block = size;
                        fits = omega (arith, v.fits);
                        nonempty = omega (arith, v.nonempty);
                        narrow = omega arith;
                        heap = IsHeap-take mh.entries mh.arr p same v.heap;
                      })
                      (omega (arith, v.nonempty, full_now)) refl (sym same))
            ]
        | inr e ↦ rw e (roomy mh v (ground (arith, e, next)) refl refl)
      ]

  -- The result once the sift has one
  put-Sifted :
      (mh : Mh) (new : Node) (after : List Node)
      → Valid mh
      → mh.entries < mh.maxentries
      → 0 < mh.entries
      → Perm (take (mh.entries + 1) (set mh.arr mh.entries new)) (new ∷ live mh)
      → sup (set mh.arr mh.entries new) mh.entries ≡ some after
      → Sifted (set mh.arr mh.entries new) (mh.entries + 1) after
      → Gives
          (λ after.
            Valid after × Perm (live after) (new ∷ live mh) × (after.entries ≡ mh.entries + 1))
          (put mh new)
  unfolding put
  put-Sifted mh new after v room pos added e sifted =
      let inside : mh.entries < length mh.arr = omega (arith, v.block) in
      let z = eq-false mh.entries 0 (omega arith) in
      let next : add32 mh.entries 1 ≡ mh.entries + 1 = omega (arith, v.narrow) in
      rw (get-node mh.arr mh.entries inside, z, e, next)
        (
          _,
          refl,
          (
            record {
              block = sifted.size ∙ length-set mh.arr mh.entries new ∙ v.block;
              fits = omega arith;
              nonempty = v.nonempty;
              narrow = v.narrow;
              heap = sifted.heap;
            },
            Perm.trans sifted.same added,
            refl,
          ),
        )

  put-Inserted :
      (mh : Mh) (new : Node)
      → Valid mh
      → mh.entries < mh.maxentries
      → Gives
          (λ after.
            Valid after × Perm (live after) (new ∷ live mh) × (after.entries ≡ mh.entries + 1))
          (put mh new)
  unfolding put
  put-Inserted mh new v room =
      let n = mh.entries in
      let arr = set mh.arr n new in
      let inside : n < length mh.arr = omega (arith, v.block) in
      let size = length-set mh.arr n new in
      let live_now =
        ap (λ (k : ℕ). take k arr) {x = n + 1} {y = suc n} (omega arith)
        ∙ take-set_last n mh.arr new inside in
      let next : add32 n 1 ≡ n + 1 = omega (arith, v.narrow) in
      let keep = λ (c : ℕ). node-set mh.arr n c new inside in
      let added : Perm (take (n + 1) arr) (new ∷ live mh) =
        rw live_now (concat-perm (live mh) new) in
      elim (Bool-cases (n == 0)) [
        | inl z ↦
            rw (get-node mh.arr n inside, z, next)
              (
                _,
                refl,
                (
                  record {
                    block = size ∙ v.block;
                    fits = omega arith;
                    nonempty = v.nonempty;
                    narrow = v.narrow;
                    heap = λ c p q. absurd (ground (arith, z));
                  },
                  added,
                  refl,
                ),
              )
        | inr z ↦
            let inv : UpInv arr (n + 1) n = record {
              inside = omega arith;
              edges = λ c p q r. ground (arith, keep c, keep (parent c), v.heap c);
              bridged = λ c p q r s. absurd (omega arith);
            } in
            let (after, e, sifted) =
              sup-Sifted arr (n + 1) n (ground (arith, z)) (omega (arith, v.narrow))
                (omega (arith, size)) inv in
            put-Sifted mh new after v room (ground (arith, z)) added e sifted
      ]

insert_into-InsertedInto :
    (realloc : List Node → ℕ → Option (List Node)) (documented : IsRealloc realloc) (mh : Mh)
    (new : Node) {o : Option Mh}
    → Grown realloc documented mh o
    → InsertedInto realloc mh new (insert_into mh new o)
unfolding insert_into
insert_into-InsertedInto realloc documented mh new (roomy room v free same keeps) =
    let (after, e, (valid, perm, count)) = put-Inserted realloc documented room new v free in
    rw e (stored after valid (rw keeps at perm) (count ∙ ap (λ (n : ℕ). n + 1) same))
insert_into-InsertedInto realloc documented mh new (full e denied) = refused e denied

-- An insertion into a valid heap of at most 2 ^ 30 nodes of room returns. It stores the node in a valid
-- heap of the old nodes and the new one; or the heap was full, `realloc` refused the doubled
-- block, and the heap is unchanged.
pub ins1-InsertedInto :
    (realloc : List Node → ℕ → Option (List Node)) (mh : Mh) (k v : ℕ)
    → IsRealloc realloc
    → Valid mh
    → mh.maxentries ≤ 2 ^ 30
    → InsertedInto realloc mh (record { v = v; k = k }) (ins1 realloc mh k v)
unfolding ins1
ins1-InsertedInto realloc mh k v documented valid small =
    insert_into-InsertedInto realloc documented mh _ (grow-Grown realloc documented mh valid small)
