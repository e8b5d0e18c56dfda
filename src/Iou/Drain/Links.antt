-- ===== src/Iou/Drain/Links.antt =====
-- How many entries of the overflow queue are safe to move: up to the last one that is not linked to
-- the entry behind it.
use iel.Base.{ℕ, zero, suc, ◌+◌, ◌-◌, ◌*◌, ◌/◌, ◌%◌, ◌^◌, ◌≤◌, ◌<◌, ◌≡◌, refl, sym, ap, ◌∙◌, some}
use iel.Base.{
  Bool, List, [], ◌∷◌, bit_and, arith, ltb, ◌==◌, if◌then◌else◌, length, take, length-take-le,
  take-all, get_elem?, get_elem?-inside, Bool-cases, inl, inr, u32, add64, sub64,
}
use iel.Que.{Que}
use iel.Que.Rep.{Rep, start}
use iel.Que.Read.{load-get}
use iel.Iou.{Ctx, Sqe, sqofq_chunk_sz_bit}
use iel.Iou.Drain.{link_back, safe_popsz}

module _ (io_link : ℕ) where
  abbrev pub unlinked : Sqe → Bool
  unlinked x = bit_and x.flags io_link == 0

  -- The length of the longest prefix whose last entry is not linked
  abbrev pub batch : List Sqe → ℕ
  batch [] = 0
  batch (x ∷ xs) =
      let rest = batch xs in if rest == 0 then if unlinked x then 1 else 0 else suc rest

  pub batch-le : (xs : List Sqe) → batch xs ≤ length xs
  batch-le [] = omega arith
  batch-le (x ∷ xs) = ground (arith, batch-le xs)

  -- One entry more is the end of the batch, or changes nothing.
  batch-take-suc :
      (xs : List Sqe) (k : ℕ) {x : Sqe}
      → get_elem? xs k ≡ some x
      → batch (take (suc k) xs) ≡ (if unlinked x then suc k else batch (take k xs))
  batch-take-suc [] k e = absurd cc
  batch-take-suc (y ∷ xs) zero e = ground (arith, e)
  batch-take-suc (y ∷ xs) (suc k) {x} e = ground (arith, batch-take-suc xs k e)

  -- The position of entry `k`
  module _ (q : Que Sqe) (xs : List Sqe) (rep : Rep sqofq_chunk_sz_bit q xs) where
    abbrev chunk_of : ℕ → ℕ
    chunk_of k = (start sqofq_chunk_sz_bit q + k) / 1024

    abbrev os_of : ℕ → ℕ
    os_of k = (start sqofq_chunk_sz_bit q + k) % 1024

    -- One step back, at the start of a chunk and inside it
    step_back :
        (j : ℕ)
        → chunk_of (suc j) < 2 ^ 60
        → ((if os_of (suc j) == 0 then sub64 (chunk_of (suc j)) 1 else chunk_of (suc j))
            ≡ chunk_of j)
          × (sub64 (os_of (suc j)) 1 % 1024 ≡ os_of j)
    step_back j small = elim (Bool-cases (os_of (suc j) == 0)) [
      | inl z ↦
          let zero_os : os_of (suc j) ≡ 0 = ground (arith, z) in
          rw z (omega (arith, zero_os), omega (arith, zero_os))
      | inr nz ↦
          let some_os : 0 < os_of (suc j) = ground (arith, nz) in
          rw nz (omega (arith, some_os), omega (arith, some_os))
    ]

    -- The walk back from entry `k` ends at the end of the batch.
    link_back-batch :
        (rounds k : ℕ) (b : ℕ)
        → k < length xs
        → k < rounds
        → batch (take (suc k) xs) ≡ suc b
        → link_back io_link rounds q (chunk_of k) (os_of k) ≡ some (chunk_of b, os_of b)
    unfolding link_back
    link_back-batch zero k b lt enough e = absurd (omega arith)
    link_back-batch (suc rounds) zero b lt enough e =
        let (x, at) = get_elem?-inside xs 0 lt in
        let (read, small) = load-get sqofq_chunk_sz_bit q xs 0 rep at in
        let grown = batch-take-suc xs 0 at in
        elim (Bool-cases (unlinked x)) [
          | inl u ↦ let same : b ≡ 0 = ground (arith, e, grown, u) in rw (read, u, same) refl
          | inr l ↦ absurd (ground (arith, e, grown, l))
        ]
    link_back-batch (suc rounds) (suc j) b lt enough e =
        let (x, at) = get_elem?-inside xs (suc j) lt in
        let (read, small) = load-get sqofq_chunk_sz_bit q xs (suc j) rep at in
        let grown = batch-take-suc xs (suc j) at in
        elim (Bool-cases (unlinked x)) [
          | inl u ↦ let same : b ≡ suc j = ground (arith, e, grown, u) in rw (read, u, same) refl
          | inr l ↦
              let (c, o) = step_back j (omega (arith, small, rep.fits)) in
              let rest =
                link_back-batch rounds j b (omega arith) (omega arith)
                  (ground (arith, e, grown, l)) in
              rw (read, l, c, o) rest
        ]

-- The last entry that the walk looks at first
last_first : ℕ → ℕ
last_first len = if ltb 63 (len - 1) then 63 else len - 1

last_first-take :
    (xs : List Sqe)
    → 0 < length xs
    → (last_first (length xs) < length xs)
      × (take (suc (last_first (length xs))) xs ≡ take 64 xs)
      × (last_first (length xs) < 64)
unfolding last_first
last_first-take xs pos = elim (Bool-cases (ltb 63 (length xs - 1))) [
  | inl long ↦ rw long (ground (arith, long), refl, omega arith)
  | inr short ↦
      let le : length xs ≤ 64 = ground (arith, short) in
      rw short (
        omega arith,
        take-all (suc (length xs - 1)) xs (omega arith) ∙ sym (take-all 64 xs le),
        omega arith,
      )
]

pub batch_small :
    (io_link : ℕ) (xs : List Sqe)
    → (batch io_link (take 64 xs) ≤ 64) × (batch io_link (take 64 xs) ≤ length xs)
batch_small io_link xs =
    let le = batch-le io_link (take 64 xs) in
    let (few, all) = length-take-le 64 xs in (omega (arith, le, few), omega (arith, le, all))

-- The number of entries from the start of the queue to the one that the walk ends at
distance :
    (cs os b n : ℕ)
    → b < 64
    → os < 1024
    → cs < 2 ^ 60
    → n ≡ suc b
    → u32 (
        sub64
          (add64 (sub64 ((cs * 1024 + os + b) / 1024) cs * 1024) ((cs * 1024 + os + b) % 1024))
          os
        + 1)
      ≡ n
distance cs os b n few os_in small e = omega arith

-- In a queue that holds `xs`, with a ring of 64 entries and an entry without
-- IOSQE_IO_LINK among the first 64, safe_popsz ends and is the length of the longest prefix of at most
-- 64 entries whose last one is not linked to the one behind it.
pub safe_popsz-batch :
    (io_link : ℕ) (pud : Ctx) (xs : List Sqe)
    → Rep sqofq_chunk_sz_bit pud.sqofq xs
    → pud.sring_mask ≡ 63
    → 0 < batch io_link (take 64 xs)
    → safe_popsz io_link pud (length xs) ≡ some (batch io_link (take 64 xs))
unfolding safe_popsz last_first
safe_popsz-batch io_link pud [] rep mask some_end = absurd (omega arith)
safe_popsz-batch io_link pud (x ∷ xs) rep mask some_end =
    let q = pud.sqofq in
    let ys = x ∷ xs in
    let k = last_first (length ys) in
    let (lt, same, few) = last_first-take ys (omega arith) in
    let b = batch io_link (take 64 ys) - 1 in
    let short = batch_small io_link ys in
    let e : batch io_link (take (suc k) ys) ≡ suc b = ap (batch io_link) same ∙ omega arith in
    let walk = link_back-batch io_link q ys rep (length ys + 1) k b lt (omega arith) e in
    let idx : (if ltb pud.sring_mask (length ys - 1) then pud.sring_mask else length ys - 1) ≡ k =
      rw mask refl in
    let (read, small) = load-get sqofq_chunk_sz_bit q ys k rep (get_elem?-inside ys k lt).1 in
    let chunk : add64 q.chunk_s (add64 q.os_s k / 1024) ≡ chunk_of io_link q ys rep k =
      omega (arith, small, rep.fits, rep.os_s_in, few) in
    let os : add64 q.os_s k % 1024 ≡ os_of io_link q ys rep k = omega (arith, rep.os_s_in, few) in
    let count : u32 (
          sub64
            (add64 (sub64 (chunk_of io_link q ys rep b) q.chunk_s * 1024)
              (os_of io_link q ys rep b))
            q.os_s
          + 1)
        ≡ batch io_link (take 64 ys) =
      distance q.chunk_s q.os_s b _ (omega (arith, short.0)) rep.os_s_in
        (omega (arith, small, rep.fits)) (omega arith) in
    rw (idx, chunk, os, walk, count) refl
