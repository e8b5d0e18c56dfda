-- ===== src/Iou/Drain/Refill.antt =====
-- The steps of a drain whose batch fits before the end of the ring, put together.
use mathlib.Core.List.{map}
use iel.Base.{ℕ, zero, suc, ◌+◌, ◌%◌, ◌^◌, ◌≤◌, ◌<◌, ◌≡◌, ◌≢◌, refl, ap, ◌∙◌, some, false}
use iel.Base.{
  List, [], ◌∷◌, arith, length, take, drop, length-drop, bit_and, if◌then◌else◌, ltb, ◌==◌,
  eq-false, add32, sub32,
}
use iel.Base.Bits.{bit_and_mask}
use iel.Que.{Que, size, pop_to}
use iel.Que.Rep.{Rep}
use iel.Que.Pop.{size-length}
use iel.Que.PopTo.{pop_to-Taken, pop_to-zero, waste}
use iel.Iou.{Ctx, Sqe, sqofq_chunk_sz_bit}
use iel.Iou.Submit.Ring.{RingInv}
use iel.Iou.Drain.{
  move_block, move_at, move_blocks, refill, drain, safe_popsz, fill_array, print_que,
}
use iel.Iou.Drain.Links.{batch, batch_small, safe_popsz-batch}
use iel.Iou.Drain.Print.{shown, print_que-shown}
use iel.Iou.Drain.Arrays.{Written, Written-nil, write_all-Written, Filled, fill_array-Filled}

pub length-take : {A : Type 0} (n : ℕ) (xs : List A) → n ≤ length xs → length (take n xs) ≡ n
length-take zero xs h = refl
length-take (suc n) [] h = absurd (omega arith)
length-take (suc n) (x ∷ xs) h = ap suc (length-take n xs (omega arith))

-- One call of `pop_to` whose block fits
move_block_lem :
    (pud : Ctx) (i n : ℕ) (xs : List Sqe) (r : Que Sqe) (sqes : List Sqe)
    → pop_to sqofq_chunk_sz_bit pud.sqofq n ≡ some (xs, r)
    → Written pud.sqes i xs sqes
    → move_block pud i n ≡ some (length xs, record pud { sqofq = r; sqes = sqes })
unfolding move_block
move_block_lem pud i n xs r sqes e w = rw (e, w.result) refl

-- A block that fits before the end of the ring is moved by the first call.
move_at-first :
    (pud : Ctx) (i room n : ℕ) (xs : List Sqe) (r : Que Sqe) (sqes : List Sqe)
    → pop_to sqofq_chunk_sz_bit pud.sqofq n ≡ some (xs, r)
    → Written pud.sqes i xs sqes
    → length xs ≡ n
    → n ≤ room
    → n < 2 ^ 32
    → move_at pud i room n ≡ some (0, record pud { sqofq = r; sqes = sqes })
unfolding move_at
move_at-first pud i room n xs r sqes e w len fits small =
    let first = move_block_lem pud i n xs r sqes e w in
    let size : (if ltb n room then n else room) ≡ n = ground (arith, fits) in
    let left : sub32 n (length xs) ≡ 0 = omega (arith, len) in
    let none_left : (if ltb i 0 then i else 0) ≡ 0 = ground arith in
    let second =
      move_block_lem (record pud { sqofq = r; sqes = sqes }) 0 0 [] r sqes
        (pop_to-zero sqofq_chunk_sz_bit r) (Written-nil sqes 0) in
    rw (size, first, left, none_left, second) refl

-- The context that the drain leaves
unfoldable pub refilled : Ctx → ℕ → List ℕ → List Sqe → Que Sqe → Ctx
refilled pud n array sqes r = record pud {
  sring_array = array;
  lcl_stail = add32 pud.lcl_stail n;
  sqofq = r;
  sqes = sqes;
}

module _ (pud : Ctx) (xs : List Sqe) (n : ℕ) (inv : RingInv pud) (array : List ℕ) (sqes : List Sqe)
    (written : Written pud.sqes (pud.lcl_stail % 64) (take n xs) sqes) (r : Que Sqe)
    (all : n ≤ length xs) (fits : pud.lcl_stail % 64 + n ≤ 64) where
  moves_lem :
      pop_to sqofq_chunk_sz_bit pud.sqofq n ≡ some (take n xs, r)
      → move_blocks (record pud { sring_array = array }) n ≡ some (0, refilled pud n array sqes r)
  unfolding move_blocks refilled
  moves_lem popped =
      let idx : bit_and pud.lcl_stail pud.sring_mask ≡ pud.lcl_stail % 64 =
        ap (bit_and pud.lcl_stail) inv.mask ∙ bit_and_mask 6 pud.lcl_stail in
      let start_at = record pud { sring_array = array; lcl_stail = add32 pud.lcl_stail n } in
      rw idx (
        move_at-first start_at (pud.lcl_stail % 64)
          (sub32 (add32 pud.sring_mask 1) (pud.lcl_stail % 64)) n (take n xs) r sqes popped written
          (length-take n xs all) (omega (arith, inv.mask, fits)) (omega (arith, fits)))

-- The parts of a drain of a queue that is not empty
refill_lem :
    (io_link : ℕ) (pud after : Ctx) (sz n : ℕ) (array : List ℕ) (before printed : List (ℕ × ℕ))
    → safe_popsz io_link pud sz ≡ some n
    → n ≢ 0
    → print_que pud.sqofq ≡ some before
    → fill_array n pud.lcl_stail pud.sring_mask pud.sring_array ≡ some array
    → move_blocks (record pud { sring_array = array }) n ≡ some (0, after)
    → print_que after.sqofq ≡ some printed
    → refill io_link pud sz ≡ some (before, printed, after)
unfolding refill
refill_lem io_link pud after sz n array before printed safe some_n b f m a =
    rw (safe, b, eq-false n 0 some_n, f, m, a) refl

-- What a drain has done: the batch of `n` entries is written, and the queue holds what `pop_to` leaves.
pub record Refilled (io_link : ℕ) (pud : Ctx) (xs : List Sqe) (n : ℕ) : Type 0 where
  pub array : List ℕ
  pub sqes : List Sqe
  pub que : Que Sqe
  pub filled : Filled pud.sring_array pud.lcl_stail n array
  pub written : Written pud.sqes (pud.lcl_stail % 64) (take n xs) sqes
  pub all : n ≤ length xs
  pub rep : Rep sqofq_chunk_sz_bit que (drop (n + waste sqofq_chunk_sz_bit pud.sqofq n) xs)
  pub result :
      drain io_link pud
      ≡ some (
        map shown xs,
        map shown (drop (n + waste sqofq_chunk_sz_bit pud.sqofq n) xs),
        refilled pud n array sqes que,
      )

pub drain-Refilled :
    (io_link : ℕ) (pud : Ctx) (xs : List Sqe)
    → RingInv pud
    → Rep sqofq_chunk_sz_bit pud.sqofq xs
    → length xs < 2 ^ 64
    → 0 < batch io_link (take 64 xs)
    → pud.lcl_stail % 64 + batch io_link (take 64 xs) ≤ 64
    → Refilled io_link pud xs (batch io_link (take 64 xs))
unfolding drain
drain-Refilled io_link pud xs inv rep small some_end fits =
    let n = batch io_link (take 64 xs) in
    let (few, all) = batch_small io_link xs in
    let t = pop_to-Taken sqofq_chunk_sz_bit pud.sqofq xs n (omega arith) rep some_end in
    let (array, filled) = fill_array-Filled n pud.lcl_stail pud.sring_array inv.array_size in
    let (sqes, written) =
      write_all-Written pud.sqes (pud.lcl_stail % 64) (take n xs)
        (omega (arith, length-take n xs all, inv.sqes_size, fits)) in
    let after = refilled pud n array sqes t.left in
    let rest = drop (n + waste sqofq_chunk_sz_bit pud.sqofq n) xs in
    let sz = size-length sqofq_chunk_sz_bit pud.sqofq xs (omega arith) rep small in
    let busy : (size sqofq_chunk_sz_bit pud.sqofq == 0) ≡ false =
      eq-false _ 0 (λ z. omega (arith, z, sz, all, some_end)) in
    let whole =
      refill_lem io_link pud after (length xs) n array (map shown xs) (map shown rest)
        (safe_popsz-batch io_link pud xs rep inv.mask some_end) (λ z. omega (arith, z, some_end))
        (print_que-shown pud.sqofq xs rep small)
        (ap (λ m. fill_array n pud.lcl_stail m pud.sring_array) inv.mask ∙ filled.result)
        (moves_lem pud xs n inv array sqes written t.left all fits t.result)
        (unfold refilled in
          print_que-shown t.left rest t.rep
            (omega (arith, length-drop (n + waste sqofq_chunk_sz_bit pud.sqofq n) xs))) in
    record {
      array = array;
      sqes = sqes;
      que = t.left;
      filled = filled;
      written = written;
      all = all;
      rep = t.rep;
      result = rw busy (ap (refill io_link pud) sz ∙ whole);
    }
