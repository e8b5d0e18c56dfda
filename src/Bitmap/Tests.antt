-- ===== src/Bitmap/Tests.antt =====
-- Runs of the bitmap's operations, and its theorems at concrete bitmaps.
use iel.Base.{ℕ, zero, suc, ◌≡◌, refl, some, List, [], ◌∷◌, arith}
use iel.Bitmap.{scan_loop, scan_clear, bm_set, bsc, ctz}
use iel.Bitmap.Free.{Wide}
use iel.Bitmap.Search.{Scanned, scan_clear-Scanned}

abbrev two_words : List ℕ
two_words = 0 ∷ 12 ∷ []

two_words-Wide : Wide two_words
two_words-Wide zero = omega arith
two_words-Wide (suc zero) = omega arith
two_words-Wide (suc (suc c)) = omega arith

scan_run : scan_clear two_words 2 0 ≡ some (record { ret = 66; bm = 0 ∷ 8 ∷ []; it = 2 })
unfolding scan_clear scan_loop bsc ctz
scan_run = refl

set_run : bm_set two_words 2 65 ≡ some (0 ∷ 14 ∷ [])
unfolding bm_set
set_run = refl

scan_clear-Scanned_example : Scanned two_words 0 (scan_clear two_words 2 0)
scan_clear-Scanned_example = scan_clear-Scanned two_words 2 0 refl (omega arith) two_words-Wide
