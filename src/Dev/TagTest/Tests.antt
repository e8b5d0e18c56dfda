-- ===== src/Dev/TagTest/Tests.antt =====
-- The program on a processor with 57 bits of linear address, with alignments of 8 and of 16.
use iel.Base.{ℕ, ◌≡◌, refl, some, arith, if◌then◌else◌, ◌==◌}
use iel.TagPtr.{Globals, utp_low, tp_low, tp_init, tp_max}
use iel.Dev.TagTest.{all_kept, tag_main}
use iel.Dev.TagTest.Kept.{tag_main-Kept}

abbrev five_level : ℕ → ℕ
five_level leaf = if leaf == 0x8000_0000 then 0x8000_001f else 0x3930

abbrev statics : Globals
statics = record { utp_v = utp_low; tp_v = tp_low; maxtag_shl = 0 }

tag_main-Kept_example :
    tag_main five_level statics (some 0x5555_0000_1230) 8 16
    ≡ some (all_kept (tp_max (tp_init five_level statics) 8))
tag_main-Kept_example =
    tag_main-Kept five_level statics 3 4 0x5555_0000_1230 refl (omega arith) (omega arith)
      (omega arith) refl
