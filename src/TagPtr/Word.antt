-- ===== src/TagPtr/Word.antt =====
-- What a tagged word is as a number: high tag, address, low tag, in disjoint bit fields.
use iel.Base.{ℕ, ◌+◌, ◌-◌, ◌*◌, ◌%◌, ◌^◌, ◌<◌, ◌≡◌, ap, ◌∙◌, bit_and, bit_or}
use iel.Base.{u64, sub64, not64, arith}
use iel.Base.Bits.{bit_or_fields, bit_or_split, bit_or_comm, bit_or-zero, bit_and_mask}
use iel.Base.Bits.{pow_pos, pow_sub}
use iel.Base.Bits.{div-field, mod-field}
use native.Mathlib.Nat.{mod-lt, mod-eq_of_lt, pow-le-pow_right}
use native.Mathlib.Nat.{mul-le-mul_right}
use native.Mathlib.Nat.{lt_of_mul-lt-mul_right, mul-lt-mul_of_pos_right}
use mathlib.Core.Path.{ap₂}
use iel.TagPtr.{tp_tagh}

-- `al - 1` and `~(al - 1)` for an alignment `2 ^ a`
pub align_masks :
    (a : ℕ) → a < 64 → (sub64 (2 ^ a) 1 ≡ 2 ^ a - 1) × (not64 (sub64 (2 ^ a) 1) ≡ 2 ^ 64 - 2 ^ a)
align_masks a h =
    omega (arith, pow_pos a, pow-le-pow_right {n = 2} (omega arith) {i = a} {j = 63} (omega arith))

-- Three disjoint fields under `|`.
fields_or :
    (la a m h l : ℕ)
    → m * 2 ^ a + l < 2 ^ la
    → l < 2 ^ a
    → bit_or (m * 2 ^ a) (bit_or l (h * 2 ^ la)) ≡ h * 2 ^ la + (m * 2 ^ a + l)
fields_or la a m h l fits hl =
    let inner = bit_or_comm l (h * 2 ^ la) ∙ bit_or_fields la h l (omega arith) in
    let split = bit_or_split la 0 (m * 2 ^ a) h l (omega arith) (omega arith) in
    let high = bit_or_comm 0 h ∙ bit_or-zero h in
    let low = bit_or_fields a m l hl in
    ap (bit_or (m * 2 ^ a)) inner
    ∙ ap (λ (x : ℕ). bit_or x (h * 2 ^ la + l)) {x = m * 2 ^ a} {y = 0 * 2 ^ la + m * 2 ^ a}
        (omega arith)
    ∙ split
    ∙ ap₂ (λ (x y : ℕ). x * 2 ^ la + y) high low

module _ (t a : ℕ) (fits : t + a < 64) where
  -- The aligned address and the low tag together stay below the high tag.
  pub low_fields : (m l : ℕ) → m * 2 ^ a < 2 ^ (64 - t) → l < 2 ^ a → m * 2 ^ a + l < 2 ^ (64 - t)
  low_fields m l hm hl =
      let block = pow_sub a (64 - t) (omega arith) in
      let count : m < 2 ^ (64 - t - a) =
        lt_of_mul-lt-mul_right (2 ^ a) (omega (arith, block, hm)) in
      omega (arith, block, mul-le-mul_right (2 ^ a) count)

  -- What `IDENT(tp)` stores.
  pub tp_tagh_word :
      (ptr m h l : ℕ)
      → ptr % 2 ^ (64 - t) ≡ m * 2 ^ a
      → h < 2 ^ t
      → l < 2 ^ a
      → tp_tagh t ptr (l * 2 ^ t + h) ≡ h * 2 ^ (64 - t) + (m * 2 ^ a + l)
  unfolding tp_tagh
  tp_tagh_word ptr m h l aligned hh hl =
      let la = 64 - t in
      let word = pow_sub t 64 (omega arith) in
      let room = low_fields m l (rw aligned at (mod-lt ptr (pow_pos la))) hl in
      let tagh : u64 (bit_and (l * 2 ^ t + h) (2 ^ t - 1) * 2 ^ la) ≡ h * 2 ^ la =
        ap (λ (x : ℕ). u64 (x * 2 ^ la)) (bit_and_mask t _ ∙ mod-field t l h hh)
        ∙ mod-eq_of_lt (omega (arith, word, mul-lt-mul_of_pos_right hh (pow_pos la))) in
      ap₂ bit_or (bit_and_mask la ptr ∙ aligned) (ap₂ bit_or (div-field t l h hh) tagh)
      ∙ fields_or la a m h l room hl
