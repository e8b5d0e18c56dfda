-- ===== src/Iou/Flow/Refilled.antt =====
-- What a drain that loses nothing does to the pending entries and to the overflow queue.
use mathlib.Core.List.{append-nil}
use mathlib.Core.Option.{some-injective}
use mathlib.Core.Path.{subst}
use iel.Base.{
  ℕ, zero, suc, ◌+◌, ◌-◌, ◌%◌, ◌≤◌, ◌<◌, ◌≡◌, inl, inr, sym, ap, ◌∙◌, some, List, [], ◌∷◌, ◌++◌,
  ◌⊎◌, arith,
}
use iel.Base.{length, length-append, get_elem?, take, drop, drop-all, Bool-cases, ltb}
use iel.Que.{Que}
use iel.Que.Rep.{Rep}
use iel.Que.PopTo.{waste}
use iel.Iou.{Ctx, Sqe, sqofq_chunk_sz_bit}
use iel.Iou.Submit.Ring.{RingInv, pending, ring_at, ring_at-mod}
use iel.Iou.Drain.{drain}
use iel.Iou.Drain.Kept.{drain-nil}
use iel.Iou.Drain.Links.{batch}
use iel.Iou.Drain.Arrays.{Written, Filled}
use iel.Iou.Drain.Refill.{refilled, length-take, drain-Refilled}
use iel.Iou.Drain.Behind.{get_elem?-take, entry_behind, pending_kept}
use iel.Iou.Flow.{Lossless}
use iel.Iou.Flow.Steps.{Pending, get_elem?-append_left}

get_elem?-append_right :
    {A : Type 0} (xs ys : List A) (j : ℕ)
    → length xs ≤ j
    → get_elem? (xs ++ ys) j ≡ get_elem? ys (j - length xs)
get_elem?-append_right [] ys j h = ap (get_elem? ys) {x = j} {y = j - 0} (omega arith)
get_elem?-append_right (x ∷ xs) ys zero h = absurd (omega arith)
get_elem?-append_right (x ∷ xs) ys (suc j) h =
    get_elem?-append_right xs ys j (omega arith)
    ∙ ap (get_elem? ys) {x = j - length xs} {y = suc j - suc (length xs)} (omega arith)

module _ (pud : Ctx) (ring xs : List Sqe) (n : ℕ) (p : Pending pud ring) (array : List ℕ)
    (filled : Filled pud.sring_array pud.lcl_stail n array) (sqes : List Sqe)
    (written : Written pud.sqes (pud.lcl_stail % 64) (take n xs) sqes) (r : Que Sqe)
    (all : n ≤ length xs) (fits : pud.lcl_stail % 64 + n ≤ 64) (room : pending pud + n ≤ 64) where
  count_after : pending (refilled pud n array sqes r) ≡ pending pud + n
  unfolding refilled
  count_after = omega (arith, p.inv.head_in, p.inv.tail_in, room)

  same_slot :
      (j : ℕ)
      → pending pud ≤ j
      → (pud.sring_head + j) % 64 ≡ (pud.lcl_stail + (j - pending pud)) % 64
  same_slot j ge = omega (arith, p.inv.head_in, p.inv.tail_in, ge)

  direct_after :
      (j : ℕ)
      → j < pending pud + n
      → get_elem? array ((pud.sring_head + j) % 64) ≡ some ((pud.sring_head + j) % 64)
  direct_after j h = elim (Bool-cases (ltb j (pending pud))) [
    | inl lt ↦ filled.kept ((pud.sring_head + j) % 64) (p.inv.direct j (ground (arith, lt)))
    | inr ge ↦
        let past : pending pud ≤ j = ground (arith, ge) in
        rw (same_slot j past) (filled.here (j - pending pud) (omega (arith, h, past)))
  ]

  inv_after : RingInv (refilled pud n array sqes r)
  unfolding refilled
  inv_after = record {
    mask = p.inv.mask;
    array_size = filled.size;
    sqes_size = written.size ∙ p.inv.sqes_size;
    head_in = p.inv.head_in;
    tail_in = omega arith;
    bounded = omega (arith, count_after, room);
    direct = λ j h. direct_after j (omega (arith, count_after, h));
  }

  holds_after :
      (j : ℕ)
      → j < length ring + n
      → ring_at (refilled pud n array sqes r) (pud.sring_head + j) ≡ get_elem? (ring ++ take n xs) j
  holds_after j h = elim (Bool-cases (ltb j (length ring))) [
    | inl lt ↦
        let before : j < length ring = ground (arith, lt) in
        pending_kept pud xs n p.inv array filled sqes written r all fits room j
          (omega (arith, before, p.count))
        ∙ p.holds j before
        ∙ sym (get_elem?-append_left ring (take n xs) j before)
    | inr ge ↦
        let past : length ring ≤ j = ground (arith, ge) in
        let k : j - length ring < n = omega (arith, past, h) in
        ring_at-mod (refilled pud n array sqes r) (pud.sring_head + j)
          (pud.lcl_stail + (j - length ring))
          (omega (arith, same_slot j (omega (arith, past, p.count)), p.count))
        ∙ entry_behind pud xs n p.inv array filled sqes written r all fits (j - length ring) k
        ∙ sym (get_elem?-take n (j - length ring) xs k)
        ∙ sym (get_elem?-append_right ring (take n xs) j past)
  ]

  refilled-Pending : Pending (refilled pud n array sqes r) (ring ++ take n xs)
  unfolding refilled
  refilled-Pending =
      let len = length-append {0} ring (take n xs) in
      let taken = length-take n xs all in
      record {
        inv = inv_after;
        count = omega (arith, len, taken, p.count, count_after);
        holds = λ j h. holds_after j (omega (arith, len, taken, h));
      }

-- A drain that loses nothing moves its batch behind the pending entries, and the overflow queue holds
-- the rest.
pub drain-Pending :
    (io_link : ℕ) (pud after : Ctx) (ring xs : List Sqe) (before printed : List (ℕ × ℕ))
    → Pending pud ring
    → Lossless io_link pud xs
    → drain io_link pud ≡ some (before, printed, after)
    → Pending after (ring ++ take (batch io_link (take 64 xs)) xs)
      × Rep sqofq_chunk_sz_bit after.sqofq (drop (batch io_link (take 64 xs)) xs)
drain-Pending io_link pud after ring [] before printed p l e =
    let it : pud ≡ after =
      ap (λ (t : List (ℕ × ℕ) × List (ℕ × ℕ) × Ctx). t.2)
        (some-injective _ _ (sym (drain-nil io_link pud l.rep) ∙ e)) in
    subst (λ c. Pending c (ring ++ []) × Rep sqofq_chunk_sz_bit c.sqofq []) it
      (subst (Pending pud) (sym (append-nil ring)) p, l.rep)
drain-Pending io_link pud after ring (x ∷ xs) before printed p l e =
    let n = batch io_link (take 64 (x ∷ xs)) in
    let d =
      drain-Refilled io_link pud (x ∷ xs) p.inv l.rep l.small (l.some_end (omega arith)) l.fits in
    let mid = refilled pud n d.array d.sqes d.que in
    let it : mid ≡ after =
      ap (λ (t : List (ℕ × ℕ) × List (ℕ × ℕ) × Ctx). t.2) (some-injective _ _ (sym d.result ∙ e)) in
    let rest : drop (n + waste sqofq_chunk_sz_bit pud.sqofq n) (x ∷ xs) ≡ drop n (x ∷ xs) =
      nothing_lost n (waste sqofq_chunk_sz_bit pud.sqofq n) (x ∷ xs) l.tight in
    subst
      (λ c. Pending c (ring ++ take n (x ∷ xs)) × Rep sqofq_chunk_sz_bit c.sqofq (drop n (x ∷ xs)))
      it
      (
        refilled-Pending pud ring (x ∷ xs) n p d.array d.filled d.sqes d.written d.que d.all l.fits
            l.room,
        unfold refilled in subst (Rep sqofq_chunk_sz_bit d.que) rest d.rep,
      )
  where
    nothing_lost :
        (n w : ℕ) (xs : List Sqe) → (n ≡ length xs) ⊎ (w ≡ 0) → drop (n + w) xs ≡ drop n xs
    nothing_lost n w xs (inl e) =
        drop-all (n + w) xs (omega (arith, e)) ∙ sym (drop-all n xs (omega (arith, e)))
    nothing_lost n w xs (inr e) =
        ap (λ (t : ℕ). drop (n + t) xs) e
        ∙ ap (λ (t : ℕ). drop t xs) {x = n + 0} {y = n} (omega arith)
