-- ===== src/Iou/Drain/Moves.antt =====
-- What the drain does to the ring, as the kernel reads it, and to the overflow queue.
use mathlib.Core.List.{map}
use iel.Base.{ℕ, ◌+◌, ◌-◌, ◌%◌, ◌^◌, ◌≤◌, ◌<◌, ◌≡◌, ◌≢◌, refl, ap, ◌∙◌, Option, some}
use iel.Base.{List, arith, length, take, drop, get_elem?, length-drop, add32, sub32, ◌>>=◌}
use iel.Que.{Que}
use iel.Que.Rep.{Rep, start}
use iel.Que.PopTo.{waste}
use iel.Iou.{Ctx, Sqe, sqofq_chunk_sz_bit}
use iel.Iou.Submit.Ring.{RingInv, pending, ring_at, ring_at-mod}
use iel.Iou.Drain.{drain}
use iel.Iou.Drain.Links.{batch}
use iel.Iou.Drain.Print.{shown}
use iel.Iou.Drain.Refill.{refilled, length-take, drain-Refilled}
use iel.Iou.Drain.Arrays.{Written, Filled}
use iel.Iou.Drain.Behind.{get_elem?-take, entry_behind}

-- What the drain leaves when it has moved the first `n` entries of `xs`.
pub record Moved (pud : Ctx) (xs : List Sqe) (n : ℕ) (after : Ctx) : Type 0 where
  pub inv : RingInv after
  pub count : pending after ≡ n
  pub moved : (j : ℕ) → j < n → ring_at after (after.sring_head + j) ≡ get_elem? xs j
  pub rest : Rep sqofq_chunk_sz_bit after.sqofq (drop (n + waste sqofq_chunk_sz_bit pud.sqofq n) xs)

module _ (pud : Ctx) (xs : List Sqe) (n : ℕ) (inv : RingInv pud) (consumed : pending pud ≡ 0)
    (array : List ℕ) (filled : Filled pud.sring_array pud.lcl_stail n array) (sqes : List Sqe)
    (written : Written pud.sqes (pud.lcl_stail % 64) (take n xs) sqes) (r : Que Sqe)
    (all : n ≤ length xs) (fits : pud.lcl_stail % 64 + n ≤ 64)
    (rep : Rep sqofq_chunk_sz_bit r (drop (n + waste sqofq_chunk_sz_bit pud.sqofq n) xs)) where
  refilled-pending : pending (refilled pud n array sqes r) ≡ n
  unfolding refilled
  refilled-pending = omega (arith, consumed, inv.head_in, inv.tail_in, fits)

  same_place : (j : ℕ) → (pud.sring_head + j) % 64 ≡ (pud.lcl_stail + j) % 64
  same_place j = omega (arith, consumed, inv.head_in, inv.tail_in)

  direct :
      (j : ℕ)
      → j < n
      → get_elem? array ((pud.sring_head + j) % 64) ≡ some ((pud.sring_head + j) % 64)
  direct j h = rw (same_place j) (filled.here j h)

  refilled-RingInv : RingInv (refilled pud n array sqes r)
  unfolding refilled
  refilled-RingInv = record {
    mask = inv.mask;
    array_size = filled.size;
    sqes_size = written.size ∙ inv.sqes_size;
    head_in = inv.head_in;
    tail_in = omega arith;
    bounded = omega (arith, refilled-pending, fits);
    direct = λ j h. direct j (omega (arith, refilled-pending, h));
  }

  entry_moved :
      (j : ℕ) → j < n → ring_at (refilled pud n array sqes r) (pud.sring_head + j) ≡ get_elem? xs j
  unfolding refilled
  entry_moved j h =
      let place : (pud.sring_head + j) % 64 ≡ pud.lcl_stail % 64 + j =
        omega (arith, same_place j, fits, h) in
      ap (λ (o : Option ℕ). o >>= λ i. get_elem? sqes i) (direct j h)
      ∙ ap (get_elem? sqes) place
      ∙ written.here j (omega (arith, length-take n xs all))
      ∙ get_elem?-take n j xs h

  refilled-Moved : Moved pud xs n (refilled pud n array sqes r)
  unfolding refilled
  refilled-Moved = record {
    inv = refilled-RingInv;
    count = refilled-pending;
    moved = entry_moved;
    rest = rep;
  }

module _ (io_link : ℕ) (pud : Ctx) (xs : List Sqe) (inv : RingInv pud)
    (rep : Rep sqofq_chunk_sz_bit pud.sqofq xs) (small : length xs < 2 ^ 64)
    (consumed : pending pud ≡ 0) (some_end : 0 < batch io_link (take 64 xs))
    (fits : pud.lcl_stail % 64 + batch io_link (take 64 xs) ≤ 64) where
  -- Where the kernel has consumed a ring of 64 entries, one of the first 64
  -- entries of the overflow queue is not linked, and the batch of entries up to the last such one fits
  -- before the end of the ring: the drain returns, the ring holds the batch in order and nothing else, and the
  -- overflow queue holds what stands past the batch and past the rest of the chunk in which it ends.
  -- It prints all entries of the queue before, and those that are left after.
  pub drain-Moved :
      (after : Ctx) × (drain io_link pud
        ≡ some (
          map shown xs,
          map shown (
              drop
                (batch io_link (take 64 xs)
                  + waste sqofq_chunk_sz_bit pud.sqofq (batch io_link (take 64 xs)))
                xs),
          after,
        ))
      × Moved pud xs (batch io_link (take 64 xs)) after
  drain-Moved =
      let d = drain-Refilled io_link pud xs inv rep small some_end fits in
      (
        refilled pud (batch io_link (take 64 xs)) d.array d.sqes d.que,
        d.result,
        refilled-Moved pud xs (batch io_link (take 64 xs)) inv consumed d.array d.filled d.sqes
            d.written d.que d.all fits d.rep,
      )

  -- Under the conditions of drain-Moved, a batch that is not all of the queue and does not end
  -- where its chunk ends loses entries: the drain returns, the kernel is told of the batch, and the
  -- overflow queue holds fewer entries than stood past the batch.
  pub drain_loses :
      batch io_link (take 64 xs) < length xs
      → (start sqofq_chunk_sz_bit pud.sqofq + batch io_link (take 64 xs)) % 1024 ≢ 0
      → (after : Ctx) × (before : List (ℕ × ℕ)) × (printed : List (ℕ × ℕ)) × (ys : List Sqe)
        × (drain io_link pud ≡ some (before, printed, after))
        × (pending after ≡ batch io_link (take 64 xs))
        × Rep sqofq_chunk_sz_bit after.sqofq ys
        × (length ys + batch io_link (take 64 xs) < length xs)
  drain_loses less off =
      let n = batch io_link (take 64 xs) in
      let (after, e, moved) = drain-Moved in
      let w = waste sqofq_chunk_sz_bit pud.sqofq n in
      let some_waste : 0 < w = omega (arith, off) in
      (
        after,
        map shown xs,
        map shown (drop (n + w) xs),
        drop (n + w) xs,
        e,
        moved.count,
        moved.rest,
        omega (arith, some_waste, length-drop (n + w) xs, less),
      )

-- A drain does not look at how many entries the kernel has consumed. Where the pending entries and the
-- batch are more than the ring holds, and the batch fits before the end of the ring, it returns
-- and tells the kernel of more than 64 entries, and the first pending ones, as many as
-- there is no room for, are overwritten with entries of the batch.
pub drain_overruns :
    (io_link : ℕ) (pud : Ctx) (xs : List Sqe)
    → RingInv pud
    → Rep sqofq_chunk_sz_bit pud.sqofq xs
    → length xs < 2 ^ 64
    → 0 < batch io_link (take 64 xs)
    → pud.lcl_stail % 64 + batch io_link (take 64 xs) ≤ 64
    → 64 < pending pud + batch io_link (take 64 xs)
    → (after : Ctx) × (before : List (ℕ × ℕ)) × (printed : List (ℕ × ℕ)) × (drain io_link pud
        ≡ some (before, printed, after))
      × (pending after ≡ pending pud + batch io_link (take 64 xs))
      × (64 < pending after)
      × (after.sring_head ≡ pud.sring_head)
      × ((j : ℕ)
          → 64 + j < pending after
          → ring_at after (pud.sring_head + j) ≡ get_elem? xs (64 - pending pud + j))
unfolding refilled
drain_overruns io_link pud xs inv rep small some_end fits over =
    let n = batch io_link (take 64 xs) in
    let d = drain-Refilled io_link pud xs inv rep small some_end fits in
    let count : sub32 (add32 pud.lcl_stail n) pud.sring_head ≡ pending pud + n =
      omega (arith, inv.head_in, inv.tail_in, inv.bounded, fits) in
    (
      refilled pud n d.array d.sqes d.que,
      _,
      _,
      d.result,
      count,
      omega (arith, count, over),
      refl,
      λ j h.
          ring_at-mod (refilled pud n d.array d.sqes d.que) (pud.sring_head + j)
            (pud.lcl_stail + (64 - pending pud + j))
            (omega (arith, inv.head_in, inv.tail_in, inv.bounded))
          ∙ entry_behind pud xs n inv d.array d.filled d.sqes d.written d.que d.all fits
              (64 - pending pud + j) (omega (arith, h, count, inv.bounded)),
    )
