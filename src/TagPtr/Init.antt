-- ===== src/TagPtr/Init.antt =====
-- `iel_tp_init` chooses an instance, and the API of include/iel/tagptr.h then keeps its promises.
use iel.Base.{ℕ, ◌+◌, ◌*◌, ◌%◌, ◌^◌, ◌≤◌, ◌<◌, ◌≡◌, ◌⊎◌, inl, inr, refl, sym}
use iel.Base.{arith}
use iel.Base.Bits.{pow_pos, pow_add}
use native.Mathlib.Nat.{mod-eq_of_lt, pow-le-pow_right}
use iel.TagPtr.{Globals, tp_init, tp_tag, tp_untag, tp_max, utp_la48, utp_la57, utp_low}
use iel.TagPtr.{tp_la48, tp_la57, tp_low, la48_tagh, la57_tagh}
use mathlib.Core.Path.{subst}
use iel.TagPtr.RoundTrip.{utp_tagh-tp_tagh, utp_l-tp_l}

abbrev la48 : Globals
la48 = record { utp_v = utp_la48; tp_v = tp_la48; maxtag_shl = la48_tagh }

abbrev la57 : Globals
la57 = record { utp_v = utp_la57; tp_v = tp_la57; maxtag_shl = la57_tagh }

abbrev low : Globals
low = record { utp_v = utp_low; tp_v = tp_low; maxtag_shl = 0 }

-- The three outcomes, from the statics' initial shift of 0.
tp_init-cases :
    (cpuid : ℕ → ℕ) (g : Globals)
    → g.maxtag_shl ≡ 0
    → (tp_init cpuid g ≡ la48) ⊎ (tp_init cpuid g ≡ la57) ⊎ (tp_init cpuid g ≡ low)
unfolding tp_init
tp_init-cases cpuid g z = ground arith

-- What holds in the three modes holds after `iel_tp_init`.
in_each_mode :
    (P : Globals → Type 0) (cpuid : ℕ → ℕ) (g : Globals)
    → g.maxtag_shl ≡ 0
    → P la48
    → P la57
    → P low
    → P (tp_init cpuid g)
in_each_mode P cpuid g z p q r = elim (tp_init-cases cpuid g z) [
  | inl e ↦ subst P (sym e) p
  | inr (inl e) ↦ subst P (sym e) q
  | inr (inr e) ↦ subst P (sym e) r
]

-- Calling `iel_tp_init` again on the same processor changes nothing, whatever the first call found.
pub tp_init_twice :
    (cpuid : ℕ → ℕ) (g : Globals) → tp_init cpuid (tp_init cpuid g) ≡ tp_init cpuid g
unfolding tp_init
tp_init_twice cpuid g = ground arith

tp_max-shift :
    (a k : ℕ) (g : Globals) → g.maxtag_shl ≡ k → a + k < 64 → tp_max g (2 ^ a) ≡ 2 ^ a * 2 ^ k
unfolding tp_max
tp_max-shift a k g e h = rw e (
    mod-eq_of_lt (
      omega (
        arith,
        pow_add a k,
        pow-le-pow_right {n = 2} (omega arith) {i = a + k} {j = 63} (omega arith),
      )))

-- What the header promises of each mode.
abbrev Keeps : Globals → ℕ → ℕ → ℕ → Type 0
Keeps g a ptr tag =
    tag < tp_max g (2 ^ a)
    → tp_untag g (tp_tag g ptr (2 ^ a) tag) (2 ^ a) ≡ record { ptr = ptr; tag = tag }

Keeps-la48 : (a ptr tag : ℕ) → a < 47 → ptr < 2 ^ 47 → ptr % 2 ^ a ≡ 0 → Keeps la48 a ptr tag
unfolding tp_tag tp_untag
Keeps-la48 a ptr tag ha hp al ht =
    utp_tagh-tp_tagh 17 a ptr tag (omega arith) hp al
      (rw (tp_max-shift a 17 la48 refl (omega arith)) at ht)

Keeps-la57 : (a ptr tag : ℕ) → a < 47 → ptr < 2 ^ 47 → ptr % 2 ^ a ≡ 0 → Keeps la57 a ptr tag
unfolding tp_tag tp_untag
Keeps-la57 a ptr tag ha hp al ht =
    utp_tagh-tp_tagh 8 a ptr tag (omega arith) (omega arith) al
      (rw (tp_max-shift a 8 la57 refl (omega arith)) at ht)

Keeps-low : (a ptr tag : ℕ) → a < 47 → ptr < 2 ^ 47 → ptr % 2 ^ a ≡ 0 → Keeps low a ptr tag
unfolding tp_tag tp_untag
Keeps-low a ptr tag ha hp al ht =
    utp_l-tp_l a ptr tag (omega arith) (omega arith) al
      (omega (arith, tp_max-shift a 0 low refl (omega arith)))

-- After `iel_tp_init` on any processor, a user-space pointer (below 2 ^ 47) to an object aligned to
-- `2 ^ a` with a < 47, tagged with a tag below `iel_tp_max` of that alignment and untagged with the
-- same alignment, gives back the pointer and the tag.
pub tp_untag-tp_tag :
    (cpuid : ℕ → ℕ) (g : Globals) (a ptr tag : ℕ)
    → g.maxtag_shl ≡ 0
    → a < 47
    → ptr < 2 ^ 47
    → ptr % 2 ^ a ≡ 0
    → tag < tp_max (tp_init cpuid g) (2 ^ a)
    → let g' = tp_init cpuid g in
      tp_untag g' (tp_tag g' ptr (2 ^ a) tag) (2 ^ a) ≡ record { ptr = ptr; tag = tag }
tp_untag-tp_tag cpuid g a ptr tag z ha hp al =
    in_each_mode (λ g'. Keeps g' a ptr tag) cpuid g z (Keeps-la48 a ptr tag ha hp al)
      (Keeps-la57 a ptr tag ha hp al) (Keeps-low a ptr tag ha hp al)

-- `iel_tp_max` of an alignment `2 ^ a` with a < 47 is never 0, on any processor.
tp_max_pos :
    (cpuid : ℕ → ℕ) (g : Globals) (a : ℕ)
    → g.maxtag_shl ≡ 0
    → a < 47
    → 0 < tp_max (tp_init cpuid g) (2 ^ a)
tp_max_pos cpuid g a z ha =
    in_each_mode (λ g'. 0 < tp_max g' (2 ^ a)) cpuid g z
      (rw (tp_max-shift a 17 la48 refl (omega arith)) (omega (arith, pow_pos a)))
      (rw (tp_max-shift a 8 la57 refl (omega arith)) (omega (arith, pow_pos a)))
      (rw (tp_max-shift a 0 low refl (omega arith)) (omega (arith, pow_pos a)))

-- A wider alignment leaves room for more tags.
tp_max-le :
    (cpuid : ℕ → ℕ) (g : Globals) (a b : ℕ)
    → g.maxtag_shl ≡ 0
    → a ≤ b
    → b < 47
    → tp_max (tp_init cpuid g) (2 ^ a) ≤ tp_max (tp_init cpuid g) (2 ^ b)
tp_max-le cpuid g a b z le hb =
    let more = pow-le-pow_right {n = 2} (omega arith) {i = a} {j = b} le in
    in_each_mode (λ g'. tp_max g' (2 ^ a) ≤ tp_max g' (2 ^ b)) cpuid g z
      (rw (tp_max-shift a 17 la48 refl (omega arith), tp_max-shift b 17 la48 refl (omega arith))
        (omega (arith, more)))
      (rw (tp_max-shift a 8 la57 refl (omega arith), tp_max-shift b 8 la57 refl (omega arith))
        (omega (arith, more)))
      (rw (tp_max-shift a 0 low refl (omega arith), tp_max-shift b 0 low refl (omega arith))
        (omega (arith, more)))

-- A pointer that is aligned to `2 ^ b` and tagged for the alignment `2 ^ a`, with a at most b, comes
-- back by the alignment `2 ^ b` too.
pub tp_untag_wider-tp_tag :
    (cpuid : ℕ → ℕ) (g : Globals) (a b ptr tag : ℕ)
    → g.maxtag_shl ≡ 0
    → a ≤ b
    → b < 47
    → ptr < 2 ^ 47
    → ptr % 2 ^ b ≡ 0
    → tag < tp_max (tp_init cpuid g) (2 ^ a)
    → let g' = tp_init cpuid g in
      tp_untag g' (tp_tag g' ptr (2 ^ a) tag) (2 ^ b) ≡ record { ptr = ptr; tag = tag }
unfolding tp_tag
tp_untag_wider-tp_tag cpuid g a b ptr tag z le hb hp al ht =
    tp_untag-tp_tag cpuid g b ptr tag z hb hp al (omega (arith, ht, tp_max-le cpuid g a b z le hb))

pub tp_max-small : (g : Globals) (al : ℕ) → tp_max g al < 2 ^ 64
unfolding tp_max
tp_max-small g al = omega arith
