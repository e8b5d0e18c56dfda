-- ===== src/Iou/Drain/Kept.antt =====
-- What the drain leaves alone: the completion ring and the queues of callbacks.
use mathlib.Core.Option.{some-injective}
use iel.Base.{
  arith, ℕ, ◌^◌, ◌≡◌, refl, ap, ◌∙◌, some, List, [], >>=-inverse, Bool-cases, inl, inr, ◌==◌,
  if◌then◌else◌, sub32, ltb, add32,
}
use iel.Que.{size, pop_to}
use iel.Que.Rep.{Rep}
use iel.Que.Pop.{size-length}
use iel.Iou.{Ctx, Cqe, sqofq_chunk_sz_bit}
use iel.Iou.Drain.{
  move_block, move_at, move_blocks, refill, drain, write_all, fill_array, safe_popsz, print_que,
}

-- The completion ring, as the loop over the completions reads it
pub record Ring : Type 0 where
  pub chead : ℕ
  pub mask : ℕ
  pub cqes : List Cqe
  pub tail : ℕ

abbrev pub ring_of : Ctx → Ring
ring_of pud = record {
  chead = pud.lcl_chead;
  mask = pud.cring_mask;
  cqes = pud.cqes;
  tail = pud.cring_tail;
}

pub record KeepsRing (pud after : Ctx) : Type 0 where
  pub ring : ring_of pud ≡ ring_of after
  pub soon : pud.soonque ≡ after.soonque
  pub prep : pud.prepque ≡ after.prepque

same_context : (pud pud' after : Ctx) → KeepsRing pud pud' → pud' ≡ after → KeepsRing pud after
same_context pud pud' after k e = record {
  ring = k.ring ∙ ap ring_of e;
  soon = k.soon ∙ ap (λ (p : Ctx). p.soonque) e;
  prep = k.prep ∙ ap (λ (p : Ctx). p.prepque) e;
}

and_then : (pud pud' after : Ctx) → KeepsRing pud pud' → KeepsRing pud' after → KeepsRing pud after
and_then pud pud' after k l = record {
  ring = k.ring ∙ l.ring;
  soon = k.soon ∙ l.soon;
  prep = k.prep ∙ l.prep;
}

move_block-kept :
    (pud after : Ctx) (i n k : ℕ) → move_block pud i n ≡ some (k, after) → KeepsRing pud after
unfolding move_block
move_block-kept pud after i n k e =
    let (popped, e0, e1) = >>=-inverse (pop_to sqofq_chunk_sz_bit pud.sqofq n) _ e in
    let (sqes, written, e2) = >>=-inverse (write_all pud.sqes i popped.0) _ e1 in
    same_context pud (record pud { sqofq = popped.1; sqes = sqes }) after
      (record { ring = refl; soon = refl; prep = refl })
      (ap (λ (p : ℕ × Ctx). p.1) (some-injective _ _ e2))

move_at-kept :
    (pud after : Ctx) (i room n k : ℕ)
    → move_at pud i room n ≡ some (k, after)
    → KeepsRing pud after
unfolding move_at
move_at-kept pud after i room n k e =
    let (m, e1, e2) = >>=-inverse (move_block pud i (if ltb n room then n else room)) _ e in
    let left = sub32 n m.0 in
    let (l, e3, e4) = >>=-inverse (move_block m.1 0 (if ltb i left then i else left)) _ e2 in
    and_then pud m.1 after (move_block-kept pud m.1 _ _ m.0 e1) (
      same_context m.1 l.1 after (move_block-kept m.1 l.1 _ _ l.0 e3)
        (ap (λ (p : ℕ × Ctx). p.1) (some-injective _ _ e4)))

refill-kept :
    (io_link sz : ℕ) (pud after : Ctx) (before printed : List (ℕ × ℕ))
    → refill io_link pud sz ≡ some (before, printed, after)
    → KeepsRing pud after
unfolding refill move_blocks
refill-kept io_link sz pud after before printed e =
    let (popsz, e1, f1) = >>=-inverse (safe_popsz io_link pud sz) _ e in
    let (shown, e2, f2) = >>=-inverse (print_que pud.sqofq) _ f1 in
    let (array, e3, f3) =
      >>=-inverse
        (fill_array (if popsz == 0 then 2 ^ 32 else popsz) pud.lcl_stail pud.sring_mask
          pud.sring_array)
        _ f2 in
    let (m, e4, f4) = >>=-inverse (move_blocks (record pud { sring_array = array }) popsz) _ f3 in
    let (rest, e5, f5) = >>=-inverse (print_que m.1.sqofq) _ f4 in
    let moved =
      move_at-kept (record pud { sring_array = array; lcl_stail = add32 pud.lcl_stail popsz }) m.1 _
        _ popsz m.0 e4 in
    same_context pud m.1 after (record { ring = moved.ring; soon = moved.soon; prep = moved.prep })
      (ap (λ (p : List (ℕ × ℕ) × List (ℕ × ℕ) × Ctx). p.2) (some-injective _ _ f5))

-- The drain leaves the completion ring and the queues of callbacks alone.
pub drain-kept :
    (io_link : ℕ) (pud after : Ctx) (before printed : List (ℕ × ℕ))
    → drain io_link pud ≡ some (before, printed, after)
    → KeepsRing pud after
unfolding drain
drain-kept io_link pud after before printed e =
    elim (Bool-cases (size sqofq_chunk_sz_bit pud.sqofq == 0)) [
      | inl none_there ↦
          let same : some ([], [], pud) ≡ some (before, printed, after) = rw none_there at e in
          same_context pud pud after (record { ring = refl; soon = refl; prep = refl })
            (ap (λ (p : List (ℕ × ℕ) × List (ℕ × ℕ) × Ctx). p.2) (some-injective _ _ same))
      | inr some_there ↦
          refill-kept io_link (size sqofq_chunk_sz_bit pud.sqofq) pud after before printed
            (rw some_there at e)
    ]

-- An empty queue has nothing to move.
pub drain-nil :
    (io_link : ℕ) (pud : Ctx)
    → Rep sqofq_chunk_sz_bit pud.sqofq []
    → drain io_link pud ≡ some ([], [], pud)
unfolding drain
drain-nil io_link pud rep =
    rw (size-length sqofq_chunk_sz_bit pud.sqofq [] (omega arith) rep (omega arith)) refl
