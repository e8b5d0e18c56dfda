-- ===== src/Base/Bits/Step.antt =====
-- The lowest binary digit of a bit operation: the recursion on digits that the native operations
-- stand for, with its fuel dropped.
use Prim.Native.Nat.{digits, bitwise, bit_and-bitwise, bit_or-bitwise, min, max, bit_and, bit_or}
use Prim.Native.Nat.{ℕ, zero, suc, ◌+◌, ◌-◌, ◌*◌, ◌/◌, ◌%◌, ◌≤◌}
use mathlib.Core.Path.{◌≡◌, refl, ap, ◌∙◌}
use native.Mathlib.Omega.{arith}

module _ (z : ℕ → ℕ) (f : ℕ → ℕ → ℕ) where
  -- A round that is not needed changes nothing.
  spare_round : (n x y : ℕ) → x ≤ n → digits z f (suc n) x y ≡ digits z f n x y
  spare_round n zero y h = spare_zero n
    where
      spare_zero : (n : ℕ) → digits z f (suc n) 0 y ≡ digits z f n 0 y
      spare_zero zero = refl
      spare_zero (suc n) = refl
  spare_round zero (suc x) y h = absurd (omega arith)
  spare_round (suc n) (suc x) y h = omega (arith, spare_round n (suc x / 2) (y / 2) (omega arith))

  spare_rounds : (k n x y : ℕ) → x ≤ n → digits z f (k + n) x y ≡ digits z f n x y
  spare_rounds zero n x y h = ap (λ (t : ℕ). digits z f t x y) {x = 0 + n} {y = n} (omega arith)
  spare_rounds (suc k) n x y h =
      ap (λ (t : ℕ). digits z f t x y) {x = suc k + n} {y = suc (k + n)} (omega arith)
      ∙ spare_round (k + n) x y (omega arith)
      ∙ spare_rounds k n x y h

  lowest_digit :
      (x y : ℕ)
      → bitwise z f (suc x) y ≡ f (suc x % 2) (y % 2) + 2 * bitwise z f (suc x / 2) (y / 2)
  lowest_digit x y =
      let half = suc x / 2 in
      let enough =
        ap (λ (t : ℕ). digits z f t half (y / 2)) {x = x} {y = x - half + half} (omega arith)
        ∙ spare_rounds (x - half) half half (y / 2) (omega arith) in
      omega (arith, enough)

pub bit_or_step : (a b : ℕ) → bit_or a b ≡ bit_or (a / 2) (b / 2) * 2 + max (a % 2) (b % 2)
bit_or_step zero b = omega (arith, bit_or-bitwise 0 b, bit_or-bitwise 0 (b / 2))
bit_or_step (suc a) b =
    let digit = lowest_digit (λ y. y) max a b in
    omega (arith, digit, bit_or-bitwise (suc a) b, bit_or-bitwise (suc a / 2) (b / 2))

pub bit_and_step : (a b : ℕ) → bit_and a b ≡ bit_and (a / 2) (b / 2) * 2 + min (a % 2) (b % 2)
bit_and_step zero b = omega (arith, bit_and-bitwise 0 b, bit_and-bitwise 0 (b / 2))
bit_and_step (suc a) b =
    let digit = lowest_digit (λ y. 0) min a b in
    omega (arith, digit, bit_and-bitwise (suc a) b, bit_and-bitwise (suc a / 2) (b / 2))
