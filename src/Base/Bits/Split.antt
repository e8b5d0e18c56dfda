-- ===== src/Base/Bits/Split.antt =====
-- A bit operation works on the two parts of a word, above and below bit `k`, one by one.
use Prim.Native.Nat.{ℕ, zero, suc, ◌+◌, ◌*◌, ◌/◌, ◌%◌, ◌^◌, ◌≤◌, ◌<◌, bit_and, bit_or}
use mathlib.Core.Path.{◌≡◌, refl, ap}
use native.Mathlib.Nat.{pow-suc}
use native.Mathlib.Omega.{arith}
use iel.Base.Bits.Step.{bit_or_step, bit_and_step}

double_pow : (q k : ℕ) → q * 2 ^ suc k ≡ 2 * (q * 2 ^ k)
double_pow q k = omega (arith, ap (λ (t : ℕ). q * t) (pow-suc 2 k))

-- `2 ^ suc k` blocks, halved.
half_block :
    (q k r : ℕ) → ((q * 2 ^ suc k + r) / 2 ≡ q * 2 ^ k + r / 2) × ((q * 2 ^ suc k + r) % 2 ≡ r % 2)
half_block q k r = (omega (arith, double_pow q k), omega (arith, double_pow q k))

half_lt : (k r : ℕ) → r < 2 ^ suc k → r / 2 < 2 ^ k
half_lt k r h = omega (arith, pow-suc 2 k)

pub bit_or_split :
    (k q r q' r' : ℕ)
    → r < 2 ^ k
    → r' < 2 ^ k
    → bit_or (q * 2 ^ k + r) (q' * 2 ^ k + r') ≡ bit_or q q' * 2 ^ k + bit_or r r'
bit_or_split zero q zero q' zero h h' = ground arith
bit_or_split zero q (suc r) q' r' h h' = absurd (omega arith)
bit_or_split zero q r q' (suc r') h h' = absurd (omega arith)
bit_or_split (suc k) q r q' r' h h' = omega (
  arith,
  bit_or_step (q * 2 ^ suc k + r) (q' * 2 ^ suc k + r'),
  ap (λ (t : ℕ). bit_or t ((q' * 2 ^ suc k + r') / 2)) (half_block q k r).0,
  ap (λ (t : ℕ). bit_or (q * 2 ^ k + r / 2) t) (half_block q' k r').0,
  half_block q k r,
  half_block q' k r',
  bit_or_split k q (r / 2) q' (r' / 2) (half_lt k r h) (half_lt k r' h'),
  bit_or_step r r',
  double_pow (bit_or q q') k,
)

pub bit_and_split :
    (k q r q' r' : ℕ)
    → r < 2 ^ k
    → r' < 2 ^ k
    → bit_and (q * 2 ^ k + r) (q' * 2 ^ k + r') ≡ bit_and q q' * 2 ^ k + bit_and r r'
bit_and_split zero q zero q' zero h h' = ground arith
bit_and_split zero q (suc r) q' r' h h' = absurd (omega arith)
bit_and_split zero q r q' (suc r') h h' = absurd (omega arith)
bit_and_split (suc k) q r q' r' h h' = omega (
  arith,
  bit_and_step (q * 2 ^ suc k + r) (q' * 2 ^ suc k + r'),
  ap (λ (t : ℕ). bit_and t ((q' * 2 ^ suc k + r') / 2)) (half_block q k r).0,
  ap (λ (t : ℕ). bit_and (q * 2 ^ k + r / 2) t) (half_block q' k r').0,
  half_block q k r,
  half_block q' k r',
  bit_and_split k q (r / 2) q' (r' / 2) (half_lt k r h) (half_lt k r' h'),
  bit_and_step r r',
  double_pow (bit_and q q') k,
)

bit_or_comm_below : (n a b : ℕ) → a ≤ n → b ≤ n → bit_or a b ≡ bit_or b a
bit_or_comm_below zero zero zero h h' = refl
bit_or_comm_below zero (suc a) b h h' = absurd (omega arith)
bit_or_comm_below zero a (suc b) h h' = absurd (omega arith)
bit_or_comm_below (suc n) a b h h' = omega (
  arith,
  bit_or_step a b,
  bit_or_step b a,
  bit_or_comm_below n (a / 2) (b / 2) (omega arith) (omega arith),
)

pub bit_or_comm : (a b : ℕ) → bit_or a b ≡ bit_or b a
bit_or_comm a b = bit_or_comm_below (a + b) a b (omega arith) (omega arith)
