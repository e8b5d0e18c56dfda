-- ===== src/Bitmap/Free.antt =====
-- The set of free slots that a bitmap stands for; iel_bm_set puts a slot into it.
use iel.Base.{ℕ, zero, suc, ◌+◌, ◌*◌, ◌/◌, ◌%◌, ◌^◌, ◌≤◌, ◌<◌, ◌≡◌, refl, ap, sym, ◌∙◌, ◌≢◌}
use iel.Base.{some, List, [], ◌∷◌, Bool, true, Bool-cases, bit_or, arith}
use iel.Base.{inl, inr, if◌then◌else◌, ◌==◌, eq-false, ltb, get_elem?, set, length, length-set}
use iel.Bitmap.{bm_set}
use mathlib.Core.Path.{subst}
use iel.Bitmap.Word.{test_bit, test_bit-bit_or, bit_or_lt, bit_lt}

-- A word of the bitmap; there is nothing past its end.
abbrev pub word : List ℕ → ℕ → ℕ
word [] c = 0
word (w ∷ ws) zero = w
word (w ∷ ws) (suc c) = word ws c

-- 1 if slot `i` is free
abbrev pub free_at : List ℕ → ℕ → ℕ
free_at bm i = test_bit (word bm (i / 64)) (i % 64)

-- Every word has 64 bits.
abbrev pub Wide : List ℕ → Type 0
Wide bm = (c : ℕ) → word bm c < 2 ^ 64

pub get-word : (bm : List ℕ) (c : ℕ) → c < length bm → get_elem? bm c ≡ some (word bm c)
get-word [] c h = absurd (omega arith)
get-word (w ∷ ws) zero h = refl
get-word (w ∷ ws) (suc c) h = get-word ws c (omega arith)

word-set_same : (bm : List ℕ) (c v : ℕ) → c < length bm → word (set bm c v) c ≡ v
word-set_same [] c v h = absurd (omega arith)
word-set_same (w ∷ ws) zero v h = refl
word-set_same (w ∷ ws) (suc c) v h = word-set_same ws c v (omega arith)

word-set_other : (bm : List ℕ) (c v d : ℕ) → d ≢ c → word (set bm c v) d ≡ word bm d
word-set_other [] c v d h = refl
word-set_other (w ∷ ws) zero v zero h = absurd (h refl)
word-set_other (w ∷ ws) zero v (suc d) h = refl
word-set_other (w ∷ ws) (suc c) v zero h = refl
word-set_other (w ∷ ws) (suc c) v (suc d) h = word-set_other ws c v d (λ e. h (ap suc e))

pub Wide-set : (bm : List ℕ) (c v : ℕ) → Wide bm → c < length bm → v < 2 ^ 64 → Wide (set bm c v)
Wide-set bm c v wide inside small d = elim (Bool-cases (d == c)) [
  | inl here ↦
      let e : d ≡ c = ground (arith, here) in
      subst (λ (w : ℕ). w < 2 ^ 64) (sym (ap (word (set bm c v)) e ∙ word-set_same bm c v inside))
        small
  | inr there ↦
      subst (λ (w : ℕ). w < 2 ^ 64) (sym (word-set_other bm c v d (λ e. ground (arith, there))))
        (wide d)
]

pub word-past : (bm : List ℕ) (c : ℕ) → length bm ≤ c → word bm c ≡ 0
word-past [] c h = refl
word-past (w ∷ ws) zero h = absurd (omega arith)
word-past (w ∷ ws) (suc c) h = word-past ws c (omega arith)

pub test_bit-zero : (b : ℕ) → test_bit 0 b ≡ 0
test_bit-zero zero = refl
test_bit-zero (suc b) = test_bit-zero b

slot_eq : (i c b : ℕ) → b < 64 → i / 64 ≡ c → (i % 64 == b) ≡ (i == c * 64 + b)
slot_eq i c b h e = ground arith

-- A change of word `c` at bit `b` alone is a change of slot `c * 64 + b` alone.
pub free_at-set :
    (bm : List ℕ) (c b v x : ℕ)
    → c < length bm
    → b < 64
    → ((d : ℕ) → test_bit v d ≡ (if d == b then x else test_bit (word bm c) d))
    → (i : ℕ) → free_at (set bm c v) i ≡ (if i == c * 64 + b then x else free_at bm i)
free_at-set bm c b v x h small same i = elim (Bool-cases (i / 64 == c)) [
  | inl here ↦
      let e : i / 64 ≡ c = ground arith in
      ap (λ (k : ℕ). test_bit (word (set bm c v) k) (i % 64)) e
      ∙ ap (λ (w : ℕ). test_bit w (i % 64)) (word-set_same bm c v h)
      ∙ same (i % 64)
      ∙ ap (λ (t : Bool). if t then x else test_bit (word bm c) (i % 64)) (slot_eq i c b small e)
      ∙ ap (λ (k : ℕ). if i == c * 64 + b then x else test_bit (word bm k) (i % 64)) (sym e)
  | inr there ↦
      let e : i / 64 ≢ c = λ e. ground arith in
      ap (λ (w : ℕ). test_bit w (i % 64)) (word-set_other bm c v (i / 64) e)
      ∙ ap (λ (t : Bool). if t then x else free_at bm i)
          (sym (eq-false i (c * 64 + b) (λ q. e (omega arith))))
]

-- Setting the bit of a slot of the bitmap frees that slot and no other, and
-- keeps the length and the width of the words.
pub bm_set-frees :
    (bm : List ℕ) (len idx : ℕ)
    → length bm ≡ len
    → idx < len * 64
    → Wide bm
    → (after : List ℕ) × (bm_set bm len idx ≡ some after)
      × (length after ≡ length bm)
      × Wide after
      × ((i : ℕ) → free_at after i ≡ (if i == idx then 1 else free_at bm i))
unfolding bm_set
bm_set-frees bm len idx e h wide =
    let c = idx / 64 in
    let b = idx % 64 in
    let v = bit_or (word bm c) (2 ^ b) in
    let inside : c < length bm = omega arith in
    let test : ltb c len ≡ true = ground arith in
    let result : bm_set bm len idx ≡ some (set bm c v) = rw (test, get-word bm c inside) in
    let slot : idx / 64 * 64 + idx % 64 ≡ idx = omega arith in
    (
      set bm c v,
      result,
      length-set bm c v,
      Wide-set bm c v wide inside
          (bit_or_lt 64 (word bm c) (2 ^ b) (wide c) (bit_lt 64 b (omega arith))),
      λ i.
          free_at-set bm c b v 1 inside (omega arith) (test_bit-bit_or (word bm c) b) i
          ∙ ap (λ (k : ℕ). if i == k then 1 else free_at bm i) slot,
    )
