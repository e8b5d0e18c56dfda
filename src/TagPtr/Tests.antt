-- ===== src/TagPtr/Tests.antt =====
-- Tagging and untagging on concrete words, and instances of the theorems.
use iel.Base.{ℕ, ◌+◌, ◌*◌, ◌^◌, ◌≡◌, refl, arith, true, if◌then◌else◌, ◌==◌}
use iel.TagPtr.{Globals, utp_tagh, tp_tagh, tp_init, tp_tag, tp_untag, tp_max}
use iel.TagPtr.{utp_low, tp_low}
use iel.TagPtr.Portable.{low_bits, portable_untag, portable_tag, portable_untag-portable_tag}
use iel.TagPtr.Init.{tp_untag-tp_tag}

-- A processor with 48 bits of linear address.
abbrev four_level : ℕ → ℕ
four_level leaf = if leaf == 0x8000_0000 then 0x8000_001f else 0x3030

-- One that has no leaf 0x8000_0008.
abbrev old : ℕ → ℕ
old leaf = 0x8000_0001

abbrev statics : Globals
statics = record { utp_v = utp_low; tp_v = tp_low; maxtag_shl = 0 }

tagged : tp_tagh 17 0x7fff_1234_5678 0x4_0123 ≡ 0x0123 * 2 ^ 47 + 0x7fff_1234_5678 + 2
unfolding tp_tagh
tagged = refl

-- With the sign-extending instance the upper half of the address space comes back.
sign_extended :
    utp_tagh 16 true (tp_tagh 16 0xffff_8000_0000_1000 0x2_0005) 8
    ≡ record { ptr = 0xffff_8000_0000_1000; tag = 0x2_0005 }
unfolding utp_tagh tp_tagh
sign_extended = refl

max_tags :
    (tp_max (tp_init four_level statics) 8 ≡ 8 * 2 ^ 17) × (tp_max (tp_init old statics) 8 ≡ 8)
unfolding tp_max tp_init
max_tags = (refl, refl)

tp_untag-tp_tag_example :
    let g = tp_init four_level statics in
    tp_untag g (tp_tag g 0x7fff_1234_5678 8 0x4_0123) 8
    ≡ record { ptr = 0x7fff_1234_5678; tag = 0x4_0123 }
unfolding tp_max tp_init
tp_untag-tp_tag_example =
    tp_untag-tp_tag four_level statics 3 0x7fff_1234_5678 0x4_0123 refl (omega arith) (omega arith)
      refl (omega arith)

portable_untag-portable_tag_example :
    portable_untag low_bits (portable_tag low_bits 0x7fff_1234_5678 8 5) 8
    ≡ record { ptr = 0x7fff_1234_5678; tag = 5 }
portable_untag-portable_tag_example =
    portable_untag-portable_tag low_bits 3 0x7fff_1234_5678 5 (omega arith) (omega arith) refl
      (omega arith)
