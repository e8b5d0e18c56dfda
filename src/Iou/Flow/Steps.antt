-- ===== src/Iou/Flow/Steps.antt =====
-- What each step does to the list of pending entries and to the overflow queue.
use mathlib.Core.Path.{subst}
use iel.Base.{
  ℕ, zero, suc, ◌+◌, ◌%◌, ◌<◌, ◌≡◌, inl, inr, refl, sym, ap, ◌∙◌, Option, some, List, [], ◌∷◌, ◌++◌,
  arith,
}
use iel.Base.{length, length-append, get_elem?, add32, sub32, Bool-cases, ◌==◌}
use iel.Que.{Que, Alloc}
use iel.Que.Rep.{Rep}
use iel.Iou.{Ctx, Sqe, Reply, null, accepted, sqofq_chunk_sz_bit}
use iel.Iou.Submit.Ring.{
  RingInv, pending, ring_at, ring_at-mod, Submitted, bad_flags, queued, spilled, no_memory,
}

-- `ring` is pending, in order.
pub record Pending (pud : Ctx) (ring : List Sqe) : Type 0 where
  pub inv : RingInv pud
  pub count : length ring ≡ pending pud
  pub holds : (j : ℕ) → j < length ring → ring_at pud (pud.sring_head + j) ≡ get_elem? ring j

-- What a reply leaves: the entry at the end of the ring or of the overflow queue, or nothing new
pub data Placed (pud : Ctx) (ring over : List Sqe) (sqe : Sqe) : Ctx → Type 0 where
  in_ring :
      (after : Ctx)
      → Pending after (ring ++ sqe ∷ [])
      → Rep sqofq_chunk_sz_bit after.sqofq over
      → Placed pud ring over sqe after
  in_queue :
      (after : Ctx)
      → Pending after ring
      → Rep sqofq_chunk_sz_bit after.sqofq (over ++ sqe ∷ [])
      → Placed pud ring over sqe after

pub get_elem?-append_left :
    {A : Type 0} (xs ys : List A) (j : ℕ) → j < length xs → get_elem? (xs ++ ys) j ≡ get_elem? xs j
get_elem?-append_left [] ys j h = elim h [ ]
get_elem?-append_left (x ∷ xs) ys zero h = refl
get_elem?-append_left (x ∷ xs) ys (suc j) h = get_elem?-append_left xs ys j (omega arith)

pub get_elem?-append_end :
    {A : Type 0} (xs : List A) (x : A) → get_elem? (xs ++ x ∷ []) (length xs) ≡ some x
get_elem?-append_end [] x = refl
get_elem?-append_end (y ∷ xs) x = get_elem?-append_end xs x

-- An overflow queue of another content
with_queue :
    (pud : Ctx) (ring : List Sqe) (q : Que Sqe)
    → Pending pud ring
    → Pending (record pud { sqofq = q }) ring
with_queue pud ring q p = record {
  inv = record {
    mask = p.inv.mask;
    array_size = p.inv.array_size;
    sqes_size = p.inv.sqes_size;
    head_in = p.inv.head_in;
    tail_in = p.inv.tail_in;
    bounded = p.inv.bounded;
    direct = p.inv.direct;
  };
  count = p.count;
  holds = p.holds;
}

-- One more entry at the end of the ring
grown :
    (pud after : Ctx) (ring : List Sqe) (sqe : Sqe)
    → Pending pud ring
    → RingInv after
    → pending after ≡ pending pud + 1
    → ring_at after pud.lcl_stail ≡ some sqe
    → ((j : ℕ)
        → j < pending pud
        → ring_at after (pud.sring_head + j) ≡ ring_at pud (pud.sring_head + j))
    → after.sring_head ≡ pud.sring_head
    → Pending after (ring ++ sqe ∷ [])
grown pud after ring sqe p inv more last kept head = record {
  inv = inv;
  count = length-append ring (sqe ∷ []) ∙ omega (arith, more, p.count);
  holds = λ j h. ap (λ (t : ℕ). ring_at after (t + j)) head ∙ elim (Bool-cases (j == length ring)) [
    | inl end ↦
        let e : j ≡ length ring = ground (arith, end) in
        let place : (pud.sring_head + j) % 64 ≡ pud.lcl_stail % 64 =
          omega (arith, e, p.count, p.inv.head_in, p.inv.tail_in) in
        ring_at-mod after (pud.sring_head + j) pud.lcl_stail place
        ∙ last
        ∙ sym (get_elem?-append_end ring sqe)
        ∙ ap (get_elem? (ring ++ sqe ∷ [])) (sym e)
    | inr before ↦
        let lt : j < length ring = ground (arith, before, h, length-append {0} ring (sqe ∷ [])) in
        kept j (omega (arith, lt, p.count))
        ∙ p.holds j lt
        ∙ sym (get_elem?-append_left ring (sqe ∷ []) j lt)
  ];
}

-- An accepted entry stands in one of the two.
pub accepted-Placed :
    (pud after : Ctx) (ring over : List Sqe) (flags result : ℕ) (sqe : Sqe) {mem : Alloc Sqe}
    {o : Option Reply}
    → Pending pud ring
    → Rep sqofq_chunk_sz_bit pud.sqofq over
    → Submitted mem pud over flags sqe o
    → o ≡ some (accepted result after)
    → Placed pud ring over sqe after
accepted-Placed pud after ring over flags result sqe p rep (bad_flags bad) e = absurd cc
accepted-Placed pud after ring over flags result sqe p rep
      (queued good mid inv more last kept same head only) e =
    let it : mid ≡ after = cc in
    subst (Placed pud ring over sqe) it (
      in_ring mid (grown pud mid ring sqe p inv more last kept head)
        (subst (λ q. Rep sqofq_chunk_sz_bit q over) (sym same) rep))
accepted-Placed pud after ring over flags result sqe p rep (spilled good q full rep') e =
    let it : record pud { sqofq = q } ≡ after = cc in
    subst (Placed pud ring over sqe) it
      (in_queue (record pud { sqofq = q }) (with_queue pud ring q p) rep')
accepted-Placed pud after ring over flags result sqe p rep (no_memory good q full rep' why) e =
    absurd cc

-- A refused entry leaves both as they were.
pub null-Placed :
    (pud after : Ctx) (ring over : List Sqe) (flags errno : ℕ) (sqe : Sqe) {mem : Alloc Sqe}
    {o : Option Reply}
    → Pending pud ring
    → Rep sqofq_chunk_sz_bit pud.sqofq over
    → Submitted mem pud over flags sqe o
    → o ≡ some (null errno after)
    → Pending after ring × Rep sqofq_chunk_sz_bit after.sqofq over
null-Placed pud after ring over flags errno sqe p rep (bad_flags bad) e =
    let it : pud ≡ after = cc in
    subst (λ c. Pending c ring × Rep sqofq_chunk_sz_bit c.sqofq over) it (p, rep)
null-Placed pud after ring over flags errno sqe p rep
      (queued good mid inv more last kept same head only) e =
    absurd cc
null-Placed pud after ring over flags errno sqe p rep (spilled good q full rep') e = absurd cc
null-Placed pud after ring over flags errno sqe p rep (no_memory good q full rep' why) e =
    let it : record pud { sqofq = q } ≡ after = cc in
    subst (λ c. Pending c ring × Rep sqofq_chunk_sz_bit c.sqofq over) it
      (with_queue pud ring q p, rep')

-- The kernel consumes the first pending entry.
pub consume-Pending :
    (pud : Ctx) (x : Sqe) (ring : List Sqe)
    → Pending pud (x ∷ ring)
    → (ring_at pud pud.sring_head ≡ some x)
      × Pending (record pud { sring_head = add32 pud.sring_head 1 }) ring
consume-Pending pud x ring p = (
  ring_at-mod pud pud.sring_head (pud.sring_head + 0) (omega arith) ∙ p.holds 0 (omega arith),
  record {
    inv = record {
      mask = p.inv.mask;
      array_size = p.inv.array_size;
      sqes_size = p.inv.sqes_size;
      head_in = omega arith;
      tail_in = p.inv.tail_in;
      bounded = omega (arith, count, p.count, p.inv.bounded);
      direct = λ j h.
          let slot : (add32 pud.sring_head 1 + j) % 64 ≡ (pud.sring_head + suc j) % 64 =
            omega arith in
          rw slot (p.inv.direct (suc j) (omega (arith, h, count, p.count)));
    };
    count = sym count;
    holds = λ j h.
        ring_at-mod pud (add32 pud.sring_head 1 + j) (pud.sring_head + suc j) (omega arith)
        ∙ p.holds (suc j) (omega arith);
  },
)
  where
    count : sub32 pud.lcl_stail (add32 pud.sring_head 1) ≡ length ring
    count = omega (arith, p.count, p.inv.head_in, p.inv.tail_in)
