-- ===== src/TagPtr/RoundTrip.antt =====
-- Untagging a tagged pointer gives back the pointer and the tag, for the template's instances and
-- for the low-bit functions.
use iel.Base.{ℕ, ◌+◌, ◌-◌, ◌*◌, ◌/◌, ◌%◌, ◌^◌, ◌<◌, ◌≡◌, sym, ap, ◌∙◌, bit_and, bit_or}
use iel.Base.{false, u64, sub64, not64, arith}
use iel.Base.Bits.{bit_or_fields, bit_or_comm, bit_and_mask, bit_and_clear, pow_pos, pow_sub}
use iel.Base.Bits.{div-field, mod-field}
use native.Mathlib.Nat.{mod-lt, mod-eq_of_lt, pow-le-pow_right, div-add-mod'}
use native.Mathlib.Nat.{mul-le-mul_right, mul-lt-mul_of_pos_right, div-lt_iff_lt-mul}
use mathlib.Core.Path.{ap₂}
use iel.TagPtr.{utp_tagh, tp_tagh, utp_l, tp_l}
use iel.TagPtr.Word.{align_masks, low_fields, tp_tagh_word}

-- Reading the fields of a word `h * 2 ^ la + (m * 2 ^ a + l)`.
module _ (t a : ℕ) (fits : t + a < 64) (m h l : ℕ) (hm : m * 2 ^ a < 2 ^ (64 - t)) (hh : h < 2 ^ t)
    (hl : l < 2 ^ a) where
  abbrev word : ℕ
  word = h * 2 ^ (64 - t) + (m * 2 ^ a + l)

  word-regroup : word ≡ (h * 2 ^ (64 - t - a) + m) * 2 ^ a + l
  word-regroup = omega (arith, ap (λ (x : ℕ). h * x) (pow_sub a (64 - t) (omega arith)))

  word-lt : word < 2 ^ 64
  word-lt = omega (
    arith,
    low_fields t a fits m l hm hl,
    pow_sub t 64 (omega arith),
    mul-le-mul_right (2 ^ (64 - t)) hh,
  )

  word_tag :
      bit_or (word / 2 ^ (64 - t)) (u64 (bit_and word (sub64 (2 ^ a) 1) * 2 ^ t)) ≡ l * 2 ^ t + h
  word_tag =
      let la = 64 - t in
      let low : bit_and word (sub64 (2 ^ a) 1) ≡ l =
        ap (bit_and word) (align_masks a (omega arith)).0
        ∙ bit_and_mask a word
        ∙ ap (λ (x : ℕ). x % 2 ^ a) word-regroup
        ∙ mod-field a _ l hl in
      let small : l * 2 ^ t < 2 ^ 64 = omega (
        arith,
        mul-lt-mul_of_pos_right {m = l} {n = 2 ^ (64 - t)}
            (omega
              (arith, pow-le-pow_right {n = 2} (omega arith) {i = a} {j = 64 - t} (omega arith)))
            (pow_pos t),
        pow_sub t 64 (omega arith),
      ) in
      ap₂ bit_or (div-field la h _ (low_fields t a fits m l hm hl))
        (ap (λ (x : ℕ). u64 (x * 2 ^ t)) low ∙ mod-eq_of_lt small)
      ∙ bit_or_comm h (l * 2 ^ t)
      ∙ bit_or_fields t l h hh

  word_clear : bit_and word (not64 (sub64 (2 ^ a) 1)) ≡ h * 2 ^ (64 - t) + m * 2 ^ a
  word_clear =
      ap (bit_and word) (align_masks a (omega arith)).1
      ∙ bit_and_clear 64 a word (omega arith) word-lt
      ∙ ap (λ (x : ℕ). x / 2 ^ a * 2 ^ a) word-regroup
      ∙ ap (λ (x : ℕ). x * 2 ^ a) (div-field a (h * 2 ^ (64 - t - a) + m) l hl)
      ∙ omega (arith, ap (λ (x : ℕ). h * x) (pow_sub a (64 - t) (omega arith)))

  word_untag : utp_tagh t false word (2 ^ a) ≡ record { ptr = m * 2 ^ a; tag = l * 2 ^ t + h }
  unfolding utp_tagh
  word_untag = λ i. record {
    ptr =
        (ap (λ (x : ℕ). bit_and x (2 ^ (64 - t) - 1)) word_clear
            ∙ bit_and_mask (64 - t) _
            ∙ mod-field (64 - t) h (m * 2 ^ a) hm)
          i;
    tag = word_tag i;
  }

-- Untagging with the alignment that the tag was made with gives back an aligned pointer of
-- `64 - t` bits and any tag below `2 ^ a * 2 ^ t`, for `t` high tag bits and alignment `2 ^ a`.
pub utp_tagh-tp_tagh :
    (t a ptr tag : ℕ)
    → t + a < 64
    → ptr < 2 ^ (64 - t)
    → ptr % 2 ^ a ≡ 0
    → tag < 2 ^ a * 2 ^ t
    → utp_tagh t false (tp_tagh t ptr tag) (2 ^ a) ≡ record { ptr = ptr; tag = tag }
utp_tagh-tp_tagh t a ptr tag fits hp aligned ht =
    let m = ptr / 2 ^ a in
    let h = tag % 2 ^ t in
    let l = tag / 2 ^ t in
    let same_ptr : m * 2 ^ a ≡ ptr = omega (arith, div-add-mod' ptr (2 ^ a)) in
    let same_tag : l * 2 ^ t + h ≡ tag = div-add-mod' tag (2 ^ t) in
    let hl : l < 2 ^ a = (div-lt_iff_lt-mul (pow_pos t)).1 ht in
    let hh : h < 2 ^ t = mod-lt tag (pow_pos t) in
    let stored = tp_tagh_word t a fits ptr m h l (mod-eq_of_lt hp ∙ sym same_ptr) hh hl in
    ap (λ (x : ℕ). utp_tagh t false (tp_tagh t ptr x) (2 ^ a)) (sym same_tag)
    ∙ ap (λ (x : ℕ). utp_tagh t false x (2 ^ a)) stored
    ∙ word_untag t a fits m h l (rw same_ptr hp) hh hl
    ∙ λ i. record { ptr = same_ptr i; tag = same_tag i }

-- The low-bit functions: any aligned pointer, and tags below the alignment.
pub utp_l-tp_l :
    (a ptr tag : ℕ)
    → a < 64
    → ptr < 2 ^ 64
    → ptr % 2 ^ a ≡ 0
    → tag < 2 ^ a
    → utp_l (tp_l ptr tag) (2 ^ a) ≡ record { ptr = ptr; tag = tag }
unfolding utp_l tp_l
utp_l-tp_l a ptr tag ha hp aligned ht =
    let m = ptr / 2 ^ a in
    let same_ptr : m * 2 ^ a ≡ ptr = omega (arith, div-add-mod' ptr (2 ^ a)) in
    let room = low_fields 0 a (omega arith) m tag (omega arith) ht in
    let stored : bit_or ptr tag ≡ m * 2 ^ a + tag =
      ap (λ (x : ℕ). bit_or x tag) (sym same_ptr) ∙ bit_or_fields a m tag ht in
    let masks = align_masks a ha in
    let high =
      ap₂ bit_and stored masks.1
      ∙ bit_and_clear 64 a (m * 2 ^ a + tag) (omega arith) room
      ∙ ap (λ (x : ℕ). x * 2 ^ a) (div-field a m tag ht)
      ∙ same_ptr in
    let low =
      ap₂ bit_and stored masks.0 ∙ bit_and_mask a (m * 2 ^ a + tag) ∙ mod-field a m tag ht in
    λ i. record { ptr = high i; tag = low i }
