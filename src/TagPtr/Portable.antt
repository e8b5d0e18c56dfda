-- ===== src/TagPtr/Portable.antt =====
-- The builds of src/tagptr.c for targets where CPUID is not read, and the arithmetic shift of
-- include/iel/config.h for compilers that do not promise one.
use native.Mathlib.Nat.{div-add-mod', mod-lt, div-lt_iff_lt-mul, pow-le-pow_right}
use iel.Base.{ℕ, ◌+◌, ◌-◌, ◌*◌, ◌/◌, ◌%◌, ◌^◌, ◌<◌, ◌≡◌, refl, ap, ◌∙◌, arith}
use iel.Base.{not64, leb, if◌then◌else◌, Bool-cases, inl, inr}
use iel.Base.Bits.{pow_pos, pow_sub, div-field}
use iel.TagPtr.{Untagged, utp_l, tp_l, maxtag_l, ashr_u}
use iel.TagPtr.RoundTrip.{utp_l-tp_l}

-- What `IEL_PF_TAGL` says of the target: whether pointers are integers that can carry a tag
pub data Target : Type 0 where
  low_bits no_tags : Target

-- `iel_tp_max`
abbrev pub portable_max : Target → ℕ → ℕ
portable_max low_bits al = maxtag_l al
portable_max no_tags al = 1

-- `iel_tp_untag`
pub portable_untag : Target → ℕ → ℕ → Untagged
portable_untag low_bits ptr al = utp_l ptr al
portable_untag no_tags ptr al = record { tag = 0; ptr = ptr }

-- `iel_tp_tag`
pub portable_tag : Target → ℕ → ℕ → ℕ → ℕ
portable_tag low_bits ptr al tag = tp_l ptr tag
portable_tag no_tags ptr al tag = ptr

-- In both builds, a pointer to an object aligned to `2 ^ a` with a < 64, tagged with
-- a tag below `iel_tp_max` of that alignment and untagged with it, gives back the pointer and the tag.
pub portable_untag-portable_tag :
    (target : Target) (a ptr tag : ℕ)
    → a < 64
    → ptr < 2 ^ 64
    → ptr % 2 ^ a ≡ 0
    → tag < portable_max target (2 ^ a)
    → portable_untag target (portable_tag target ptr (2 ^ a) tag) (2 ^ a)
      ≡ record { ptr = ptr; tag = tag }
unfolding portable_untag portable_tag
portable_untag-portable_tag low_bits a ptr tag ha hp al ht = utp_l-tp_l a ptr tag ha hp al ht
portable_untag-portable_tag no_tags a ptr tag ha hp al ht =
    ap (λ (t : ℕ). record { ptr = ptr; tag = t }) (omega (arith, ht))

-- `IEL_BITNOT_IF_NEG_(x, maybe_neg, uintptr_t)`: the exclusive or with -1 is the complement, that with 0
-- nothing
pub bitnot_if_neg : ℕ → ℕ → ℕ
bitnot_if_neg x maybe_neg = if leb (2 ^ 63) maybe_neg then not64 x else x

-- `IEL_ASHR_U` without an arithmetic shift
pub ashr_portable : ℕ → ℕ → ℕ
unfolding bitnot_if_neg
ashr_portable si n = bitnot_if_neg (bitnot_if_neg si si / 2 ^ n) si

-- The complement's quotient
div-complement :
    (n x : ℕ) → n < 64 → x < 2 ^ 64 → (2 ^ 64 - 1 - x) / 2 ^ n ≡ 2 ^ (64 - n) - 1 - x / 2 ^ n
div-complement n x hn hx =
    let d = 2 ^ n in
    let q = 2 ^ (64 - n) in
    let whole : q * d ≡ 2 ^ 64 = pow_sub n 64 (omega arith) in
    let split = div-add-mod' x d in
    let r = mod-lt x (pow_pos n) in
    let below : x / d < q = (div-lt_iff_lt-mul (pow_pos n)).1 (omega (arith, whole, hx)) in
    let k = q - 1 - x / d in
    let e : k + x / d + 1 ≡ q = omega (arith, below) in
    let words : 2 ^ 64 - 1 - x ≡ k * d + (d - 1 - x % d) =
      omega (arith, ap (λ (t : ℕ). t * d) e, whole, split, r) in
    ap (λ (t : ℕ). t / d) words ∙ div-field n k (d - 1 - x % d) (omega (arith, r))

-- On every 64-bit word and shift below 64, the shift by complements is the arithmetic
-- shift.
ashr_portable-ashr_u : (x n : ℕ) → x < 2 ^ 64 → n < 64 → ashr_portable x n ≡ ashr_u x n
unfolding ashr_portable ashr_u
ashr_portable-ashr_u x n hx hn = elim (Bool-cases (leb (2 ^ 63) x)) [
  | inl neg ↦
      let c = div-complement n x hn hx in
      let below : x / 2 ^ n < 2 ^ (64 - n) =
        (div-lt_iff_lt-mul (pow_pos n)).1 (omega (arith, pow_sub n 64 (omega arith), hx)) in
      let bound = pow-le-pow_right {n = 2} (omega arith) {i = 64 - n} {j = 64} (omega arith) in
      rw (neg, c) (omega (arith, below, bound))
  | inr pos ↦ rw pos refl
]
