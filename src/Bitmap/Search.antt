-- ===== src/Bitmap/Search.antt =====
-- iel_bm_scan_clear takes the first free slot from a word on out of the set of free slots.
use iel.Base.{ℕ, zero, suc, ◌+◌, ◌-◌, ◌*◌, ◌/◌, ◌%◌, ◌≤◌, ◌<◌, ◌≡◌, refl, ap, ◌∙◌}
use iel.Base.{Option, some, List, Bool-cases, bit_and, arith}
use iel.Base.{inl, inr, if◌then◌else◌, ◌==◌, ltb, get_elem?, set, length, length-set, ◌>>=◌}
use iel.Bitmap.{Scan, scan_loop, scan_clear, bsc, npos, ctz}
use iel.Bitmap.Word.{test_bit, test_bit-blsr, test_bit-ctz, ctz-lt, bit_and-le}
use iel.Bitmap.Free.{word, free_at, Wide, get-word, Wide-set, word-past, test_bit-zero, free_at-set}

-- What a scan from word `it` does.
pub data Scanned (bm : List ℕ) (it : ℕ) : Option Scan → Type 0 where
  found :
      (r : Scan)
      → free_at bm r.ret ≡ 1
      → ((i : ℕ) → free_at r.bm i ≡ (if i == r.ret then 0 else free_at bm i))
      → ((i : ℕ) → it * 64 ≤ i → i < r.ret / 64 * 64 → free_at bm i ≡ 0)
      → r.it ≡ r.ret / 64 + 1
      → r.ret < length bm * 64
      → it ≤ r.ret / 64
      → length r.bm ≡ length bm
      → Wide r.bm
      → Scanned bm it (some r)
  none_left :
      (r : Scan)
      → r.ret ≡ npos
      → r.bm ≡ bm
      → ((i : ℕ) → it * 64 ≤ i → free_at bm i ≡ 0)
      → Scanned bm it (some r)

scan_step : ℕ → List ℕ → ℕ → ℕ → ℕ → Option Scan
scan_step rounds bm len c n =
    if n == 0
    then (if ltb (c + 1) len
        then scan_loop rounds bm len (c + 1)
        else some (record { ret = npos; bm = bm; it = c + 1 }))
    else some (record { ret = c * 64 + ctz 64 n; bm = set bm c (bit_and n (n - 1)); it = c + 1 })

scan_loop-step :
    (rounds : ℕ) (bm : List ℕ) (len c n : ℕ)
    → get_elem? bm c ≡ some n
    → scan_loop (suc rounds) bm len c ≡ scan_step rounds bm len c n
unfolding scan_loop bsc scan_step
scan_loop-step rounds bm len c n e = ap (λ (o : Option ℕ). o >>= scan_step rounds bm len c) e

free_at-past : (bm : List ℕ) (i : ℕ) → length bm ≤ i / 64 → free_at bm i ≡ 0
free_at-past bm i h =
    ap (λ (w : ℕ). test_bit w (i % 64)) (word-past bm (i / 64) h) ∙ test_bit-zero (i % 64)

-- The words from `it` up to `c` have no free slot.
NoneBefore : List ℕ → ℕ → ℕ → Type 0
NoneBefore bm it c = (i : ℕ) → it * 64 ≤ i → i / 64 < c → free_at bm i ≡ 0

NoneBefore-suc :
    (bm : List ℕ) (it c : ℕ) → NoneBefore bm it c → word bm c ≡ 0 → NoneBefore bm it (c + 1)
unfolding NoneBefore
NoneBefore-suc bm it c before e i from below = elim (Bool-cases (i / 64 == c)) [
  | inl here ↦
      ap (λ (k : ℕ). test_bit (word bm k) (i % 64)) (ground (arith, here))
      ∙ ap (λ (w : ℕ). test_bit w (i % 64)) e
      ∙ test_bit-zero (i % 64)
  | inr there ↦ before i from (ground (arith, there))
]

none_left-from :
    (bm : List ℕ) (it c : ℕ)
    → length bm ≤ c
    → NoneBefore bm it c
    → (i : ℕ) → it * 64 ≤ i
    → free_at bm i ≡ 0
unfolding NoneBefore
none_left-from bm it c h before i from = elim (Bool-cases (ltb (i / 64) c)) [
  | inl below ↦ before i from (ground (arith, below))
  | inr above ↦ free_at-past bm i (ground (arith, above))
]

found-Scanned :
    (bm : List ℕ) (it c : ℕ)
    → c < length bm
    → 0 < word bm c
    → Wide bm
    → it ≤ c
    → NoneBefore bm it c
    → Scanned bm it (
        some (record {
          ret = c * 64 + ctz 64 (word bm c);
          bm = set bm c (bit_and (word bm c) (word bm c - 1));
          it = c + 1;
        }))
unfolding NoneBefore
found-Scanned bm it c h pos all_wide from before =
    let n = word bm c in
    let wide = all_wide c in
    let b = ctz 64 n in
    let small = ctz-lt 64 n pos wide in
    let at : (c * 64 + b) / 64 ≡ c = omega (arith, small) in
    let at' : (c * 64 + b) % 64 ≡ b = omega (arith, small) in
    found _
      (ap (λ (k : ℕ). test_bit (word bm k) ((c * 64 + b) % 64)) at
        ∙ ap (test_bit n) at'
        ∙ test_bit-ctz 64 n pos wide)
      (free_at-set bm c b (bit_and n (n - 1)) 0 h small (λ d. test_bit-blsr 64 n d pos wide))
      (λ i from below. before i from (omega (arith, at))) (omega (arith, at)) (omega (arith, small))
      (omega (arith, at)) (length-set bm c (bit_and n (n - 1)))
      (Wide-set bm c (bit_and n (n - 1)) all_wide h (omega (arith, wide, bit_and-le n (n - 1))))

loop-Scanned :
    (rounds : ℕ) (bm : List ℕ) (len it c : ℕ)
    → length bm ≡ len
    → c < len
    → len < rounds + c
    → it ≤ c
    → Wide bm
    → NoneBefore bm it c
    → Scanned bm it (scan_loop rounds bm len c)
unfolding scan_step
loop-Scanned zero bm len it c e h enough from wide before = absurd (omega arith)
loop-Scanned (suc rounds) bm len it c e h enough from wide before =
    let got = get-word bm c (omega arith) in
    let step = scan_loop-step rounds bm len c (word bm c) got in
    elim (Bool-cases (word bm c == 0)) [
      | inl z ↦
          let zero : word bm c ≡ 0 = ground (arith, z) in
          elim (Bool-cases (ltb (c + 1) len)) [
            | inl more ↦
                rw (step, z, more)
                  (loop-Scanned rounds bm len it (c + 1) e (ground (arith, more)) (omega arith)
                    (omega arith) wide (NoneBefore-suc bm it c before zero))
            | inr last ↦
                rw (step, z, last)
                  (none_left _ refl refl (
                    none_left-from bm it (c + 1) (ground (arith, last, e))
                      (NoneBefore-suc bm it c before zero)))
          ]
      | inr full ↦
          rw (step, full)
            (found-Scanned bm it c (omega arith) (ground (arith, full)) wide from before)
    ]

-- A scan from a word of the bitmap ends. If it returns a slot, the slot was free and at that word or
-- later, no slot between the two words was, and that slot alone is no longer free; the bitmap keeps its length. If it returns
-- IEL_BM_NPOS, no slot from that word on was free, and nothing has changed.
pub scan_clear-Scanned :
    (bm : List ℕ) (len it : ℕ)
    → length bm ≡ len
    → it < len
    → Wide bm
    → Scanned bm it (scan_clear bm len it)
unfolding scan_clear NoneBefore
scan_clear-Scanned bm len it e h wide =
    loop-Scanned (len + 1) bm len it it e h (omega arith) (omega arith) wide
      (λ i from below. absurd (omega arith))
