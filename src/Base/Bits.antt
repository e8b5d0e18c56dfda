-- ===== src/Base/Bits.antt =====
-- Masks and fields of machine words as arithmetic, at every width. The native `bit_and` and
-- `bit_or` compute only at numerals: here is what they are at variables.
mod Step
mod Split
pub use Split.{bit_or_split, bit_and_split, bit_or_comm}
pub use Step.{bit_or_step, bit_and_step}
use Prim.Native.Nat.{ℕ, zero, suc, ◌+◌, ◌-◌, ◌*◌, ◌/◌, ◌%◌, ◌^◌, ◌≤◌, ◌<◌, bit_and, bit_or}
use mathlib.Core.Path.{◌≡◌, refl, ap, ap₂, ◌∙◌}
use native.Mathlib.Nat.{mul-add-div_right, div-eq_of_lt, mul-add-mod_self_right}
use native.Mathlib.Nat.{
  pow-suc, one-le-pow, div-lt_iff_lt-mul, div-add-mod', mod-lt, mod-eq_of_lt, add-zero,
}
use native.Mathlib.Omega.{arith}

-- Halving needs strong induction; `n` bounds the number.
bit_or-zero_below : (n a : ℕ) → a ≤ n → bit_or a 0 ≡ a
bit_or-zero_below n zero h = refl
bit_or-zero_below zero (suc a) h = absurd (omega arith)
bit_or-zero_below (suc n) (suc a) h =
    omega (arith, bit_or_step (suc a) 0, bit_or-zero_below n (suc a / 2) (omega arith))

pub bit_or-zero : (a : ℕ) → bit_or a 0 ≡ a
bit_or-zero a = bit_or-zero_below a a (omega arith)

bit_and-zero_below : (n a : ℕ) → a ≤ n → bit_and a 0 ≡ 0
bit_and-zero_below n zero h = refl
bit_and-zero_below zero (suc a) h = absurd (omega arith)
bit_and-zero_below (suc n) (suc a) h =
    omega (arith, bit_and_step (suc a) 0, bit_and-zero_below n (suc a / 2) (omega arith))

pub bit_and-zero : (a : ℕ) → bit_and a 0 ≡ 0
bit_and-zero a = bit_and-zero_below a a (omega arith)

double_pow : (q k : ℕ) → q * 2 ^ suc k ≡ 2 * (q * 2 ^ k)
double_pow q k = omega (arith, ap (λ (t : ℕ). q * t) (pow-suc 2 k))

-- A field above bit `k` and one below it share no bit: `|` is their sum.
pub bit_or_fields : (k q r : ℕ) → r < 2 ^ k → bit_or (q * 2 ^ k) r ≡ q * 2 ^ k + r
bit_or_fields zero q r small = ground (arith, bit_or-zero q)
bit_or_fields (suc k) q r small = ground (
  arith,
  bit_or_step (q * 2 ^ suc k) r,
  double_pow q k,
  pow-suc 2 k,
  bit_or_fields k q (r / 2) (omega arith),
)

bit_and_fields : (k q r : ℕ) → r < 2 ^ k → bit_and (q * 2 ^ k + r) (2 ^ k - 1) ≡ r
bit_and_fields zero q r small = ground (arith, bit_and-zero (q * 1 + r))
bit_and_fields (suc k) q r small = ground (
  arith,
  bit_and_step (q * 2 ^ suc k + r) (2 ^ suc k - 1),
  double_pow q k,
  pow-suc 2 k,
  one-le-pow k 2,
  bit_and_fields k q (r / 2) (omega arith),
)

-- `x & (2 ^ k - 1)` is the remainder.
pub bit_and_mask : (k a : ℕ) → bit_and a (2 ^ k - 1) ≡ a % 2 ^ k
bit_and_mask k a = ground (arith, one-le-pow k 2, bit_and_fields k (a / 2 ^ k) (a % 2 ^ k))

pub pow_add : (m n : ℕ) → 2 ^ (m + n) ≡ 2 ^ m * 2 ^ n
pow_add zero n = ground arith
pow_add (suc m) n = omega (
  arith,
  pow-suc 2 m,
  pow-suc 2 (m + n),
  ap (λ (t : ℕ). t * 2 ^ n) (pow-suc 2 m),
  ap (λ (t : ℕ). 2 ^ t) {x = suc m + n} {y = suc (m + n)} (omega arith),
  pow_add m n,
)

pub pow_pos : (k : ℕ) → 0 < 2 ^ k
pow_pos k = one-le-pow k 2 (omega arith)

-- `2 ^ k` of a word of `w` bits: the number of words with the low `k` bits clear.
pub pow_sub : (k w : ℕ) → k ≤ w → 2 ^ (w - k) * 2 ^ k ≡ 2 ^ w
pow_sub k w h =
    omega (arith, pow_add (w - k) k, ap (λ (t : ℕ). 2 ^ t) {x = w - k + k} {y = w} (omega arith))

div-lt-pow : (w k x : ℕ) → k ≤ w → x < 2 ^ w → x / 2 ^ k < 2 ^ (w - k)
div-lt-pow w k x h small = (div-lt_iff_lt-mul (pow_pos k)).1 (omega (arith, pow_sub k w h))

-- `x & ~(2 ^ k - 1)` on `w` bits clears the low `k` bits.
pub bit_and_clear : (w k x : ℕ) → k ≤ w → x < 2 ^ w → bit_and x (2 ^ w - 2 ^ k) ≡ x / 2 ^ k * 2 ^ k
bit_and_clear w k x h small =
    let high = x / 2 ^ k in
    let low = x % 2 ^ k in
    let word : x ≡ high * 2 ^ k + low = omega (arith, div-add-mod' x (2 ^ k)) in
    let above : 2 ^ (w - k) ≡ 2 ^ (w - k) - 1 + 1 = omega (arith, pow_pos (w - k)) in
    let mask : 2 ^ w - 2 ^ k ≡ (2 ^ (w - k) - 1) * 2 ^ k + 0 =
      omega (arith, pow_sub k w h, ap (λ (t : ℕ). t * 2 ^ k) above) in
    let parts = bit_and_split k high low (2 ^ (w - k) - 1) 0 (mod-lt x (pow_pos k)) (pow_pos k) in
    let kept = bit_and_mask (w - k) high in
    let small = mod-eq_of_lt (div-lt-pow w k x h small) in
    ap₂ bit_and word mask
    ∙ parts
    ∙ ap₂ (λ (a b : ℕ). a * 2 ^ k + b) (kept ∙ small) (bit_and-zero low)
    ∙ add-zero (high * 2 ^ k)

-- Reading the two fields of `q * 2 ^ k + r`.
pub div-field : (k q r : ℕ) → r < 2 ^ k → (q * 2 ^ k + r) / 2 ^ k ≡ q
div-field k q r h = omega (arith, mul-add-div_right (pow_pos k) q r, div-eq_of_lt h)

pub mod-field : (k q r : ℕ) → r < 2 ^ k → (q * 2 ^ k + r) % 2 ^ k ≡ r
mod-field k q r h = mul-add-mod_self_right q (2 ^ k) r ∙ mod-eq_of_lt h
