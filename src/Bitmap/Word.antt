-- ===== src/Bitmap/Word.antt =====
-- One word: finding and clearing the lowest set bit, and setting a bit, bit by bit.
use iel.Base.{
  ℕ, zero, suc, ◌-◌, ◌*◌, ◌/◌, ◌%◌, ◌^◌, ◌≤◌, ◌<◌, ◌≡◌, refl, ap, ◌∙◌, sym, ◌⊎◌, inl, inr,
}
use iel.Base.{bit_and, bit_or, if◌then◌else◌, ◌==◌, eq-false, Bool, arith}
use iel.Base.Bits.{bit_and_step, bit_or_step, bit_or-zero}
use native.Mathlib.Nat.{pow-suc, one-le-pow}
use iel.Bitmap.{ctz}

-- Bit `b` of a word
abbrev pub test_bit : ℕ → ℕ → ℕ
test_bit n zero = n % 2
test_bit n (suc b) = test_bit (n / 2) b

bit_and_self_below : (n a : ℕ) → a ≤ n → bit_and a a ≡ a
bit_and_self_below n zero h = refl
bit_and_self_below zero (suc a) h = absurd (omega arith)
bit_and_self_below (suc n) (suc a) h =
    omega (arith, bit_and_step (suc a) (suc a), bit_and_self_below n (suc a / 2) (omega arith))

bit_and_zero_left : (n b : ℕ) → b ≤ n → bit_and 0 b ≡ 0
bit_and_zero_left n zero h = refl
bit_and_zero_left zero (suc b) h = absurd (omega arith)
bit_and_zero_left (suc n) (suc b) h =
    omega (arith, bit_and_step 0 (suc b), bit_and_zero_left n (suc b / 2) (omega arith))

bit_and-le_below : (n a b : ℕ) → a ≤ n → bit_and a b ≤ a
bit_and-le_below n zero b h = omega (arith, bit_and_zero_left b b (omega arith))
bit_and-le_below zero (suc a) b h = absurd (omega arith)
bit_and-le_below (suc n) (suc a) b h =
    omega (arith, bit_and_step (suc a) b, bit_and-le_below n (suc a / 2) (b / 2) (omega arith))

pub bit_and-le : (a b : ℕ) → bit_and a b ≤ a
bit_and-le a b = bit_and-le_below a a b (omega arith)

-- `n & (n - 1)` by the lowest bit of `n`
blsr-odd : (n : ℕ) → n % 2 ≡ 1 → bit_and n (n - 1) ≡ n / 2 * 2
blsr-odd n h = omega (
  arith,
  bit_and_step n (n - 1),
  bit_and_self_below (n / 2) (n / 2) (omega arith),
  ap (bit_and (n / 2)) {x = (n - 1) / 2} {y = n / 2} (omega arith),
)

blsr-even : (n : ℕ) → 0 < n → n % 2 ≡ 0 → bit_and n (n - 1) ≡ bit_and (n / 2) (n / 2 - 1) * 2
blsr-even n pos h = omega (
  arith,
  bit_and_step n (n - 1),
  ap (bit_and (n / 2)) {x = (n - 1) / 2} {y = n / 2 - 1} (omega arith),
)

test_bit-double : (n m b : ℕ) → m ≡ n * 2 → test_bit m (suc b) ≡ test_bit n b
test_bit-double n m b e = ap (λ (t : ℕ). test_bit t b) (omega arith)

Nat-parity : (n : ℕ) → (n % 2 ≡ 1) ⊎ (n % 2 ≡ 0)
Nat-parity n = ground arith

ctz-odd : (fuel n : ℕ) → n % 2 ≡ 1 → ctz (suc fuel) n ≡ 0
unfolding ctz
ctz-odd fuel n h = ground (arith, h)

ctz-even : (fuel n : ℕ) → n % 2 ≡ 0 → ctz (suc fuel) n ≡ suc (ctz fuel (n / 2))
unfolding ctz
ctz-even fuel n h = ground (arith, h)

eq-suc : (a b : ℕ) → (suc a == suc b) ≡ (a == b)
eq-suc a b = ground arith

-- Clearing with `n & (n - 1)` clears the bit that `ctz` finds, and no other.
pub test_bit-blsr :
    (fuel n b : ℕ)
    → 0 < n
    → n < 2 ^ fuel
    → test_bit (bit_and n (n - 1)) b ≡ (if b == ctz fuel n then 0 else test_bit n b)
test_bit-blsr zero n b pos h = absurd (omega arith)
test_bit-blsr (suc fuel) n zero pos h = elim (Nat-parity n) [
  | inl odd ↦ ground (arith, blsr-odd n odd, ctz-odd fuel n odd)
  | inr even ↦ ground (arith, blsr-even n pos even, ctz-even fuel n even)
]
test_bit-blsr (suc fuel) n (suc b) pos h = elim (Nat-parity n) [
  | inl odd ↦
      let e = eq-false (suc b) (ctz (suc fuel) n) (omega (arith, ctz-odd fuel n odd)) in
      test_bit-double (n / 2) (bit_and n (n - 1)) b (blsr-odd n odd)
      ∙ ap (λ (t : Bool). if t then 0 else test_bit (n / 2) b) (sym e)
  | inr even ↦
      let e = ap (◌==◌ (suc b)) (ctz-even fuel n even) ∙ eq-suc b (ctz fuel (n / 2)) in
      test_bit-double (bit_and (n / 2) (n / 2 - 1)) (bit_and n (n - 1)) b (blsr-even n pos even)
      ∙ test_bit-blsr fuel (n / 2) b (omega arith) (omega (arith, pow-suc 2 fuel))
      ∙ ap (λ (t : Bool). if t then 0 else test_bit (n / 2) b) (sym e)
]

-- The bit that `ctz` finds is set, and is one of the word's.
pub test_bit-ctz : (fuel n : ℕ) → 0 < n → n < 2 ^ fuel → test_bit n (ctz fuel n) ≡ 1
unfolding ctz
test_bit-ctz zero n pos h = absurd (omega arith)
test_bit-ctz (suc fuel) n pos h = elim (Nat-parity n) [
  | inl odd ↦ ap (test_bit n) (ctz-odd fuel n odd) ∙ odd
  | inr even ↦
      ap (test_bit n) (ctz-even fuel n even)
      ∙ test_bit-ctz fuel (n / 2) (omega arith) (omega (arith, pow-suc 2 fuel))
]

pub ctz-lt : (fuel n : ℕ) → 0 < n → n < 2 ^ fuel → ctz fuel n < fuel
unfolding ctz
ctz-lt zero n pos h = absurd (omega arith)
ctz-lt (suc fuel) n pos h = ground (arith, pow-suc 2 fuel, ctz-lt fuel (n / 2))

or-one : (w : ℕ) → bit_or w (2 ^ 0) / 2 ≡ w / 2
or-one w = omega (arith, bit_or_step w 1, bit_or-zero (w / 2))

or-low : (w b : ℕ) → bit_or w (2 ^ suc b) % 2 ≡ w % 2
or-low w b = ground (arith, bit_or_step w (2 ^ suc b), pow-suc 2 b)

or-half : (w b : ℕ) → bit_or w (2 ^ suc b) / 2 ≡ bit_or (w / 2) (2 ^ b)
or-half w b = omega (
  arith,
  bit_or_step w (2 ^ suc b),
  pow-suc 2 b,
  ap (bit_or (w / 2)) {x = 2 ^ suc b / 2} {y = 2 ^ b} (omega (arith, pow-suc 2 b)),
)

-- `w | 1 << b` sets bit `b` and no other.
pub test_bit-bit_or :
    (w b c : ℕ) → test_bit (bit_or w (2 ^ b)) c ≡ (if c == b then 1 else test_bit w c)
test_bit-bit_or w zero zero = ground (arith, bit_or_step w 1)
test_bit-bit_or w zero (suc c) =
    ap (λ (t : ℕ). test_bit t c) (or-one w)
    ∙ ap (λ (t : Bool). if t then 1 else test_bit (w / 2) c)
        (sym (eq-false (suc c) 0 (omega arith)))
test_bit-bit_or w (suc b) zero =
    or-low w b ∙ ap (λ (t : Bool). if t then 1 else w % 2) (sym (eq-false 0 (suc b) (omega arith)))
test_bit-bit_or w (suc b) (suc c) =
    ap (λ (t : ℕ). test_bit t c) (or-half w b)
    ∙ test_bit-bit_or (w / 2) b c
    ∙ ap (λ (t : Bool). if t then 1 else test_bit (w / 2) c) (sym (eq-suc c b))

pub bit_or_lt : (k a b : ℕ) → a < 2 ^ k → b < 2 ^ k → bit_or a b < 2 ^ k
bit_or_lt zero zero zero h h' = omega arith
bit_or_lt zero (suc a) b h h' = absurd (omega arith)
bit_or_lt zero zero (suc b) h h' = absurd (omega arith)
bit_or_lt (suc k) a b h h' = omega (
  arith,
  pow-suc 2 k,
  bit_or_step a b,
  bit_or_lt k (a / 2) (b / 2) (omega (arith, pow-suc 2 k, h)) (omega (arith, pow-suc 2 k, h')),
)

pub bit_lt : (k b : ℕ) → b < k → 2 ^ b < 2 ^ k
bit_lt zero b h = absurd (omega arith)
bit_lt (suc k) zero h = omega (arith, pow-suc 2 k, one-le-pow k 2)
bit_lt (suc k) (suc b) h = omega (arith, pow-suc 2 k, pow-suc 2 b, bit_lt k b (omega arith))
