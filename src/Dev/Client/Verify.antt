-- ===== src/Dev/Client/Verify.antt =====
-- The loops over the client's buffer.
use iel.Base.{
  put_elem?-inside, get_elem?-inside, get_elem?-set_same, get_elem?-set_other, length-set, ℕ, zero,
  suc, ◌+◌, ◌%◌, ◌≤◌, ◌<◌, ◌≡◌, ◌≢◌, refl, ap, ◌∙◌, Option, none, some, List, bit_and, Bool-cases,
  inl, inr, arith,
}
use iel.Base.{◌==◌, get_elem?, set, length}
use iel.Base.Bits.{bit_and_mask}
use mathlib.Core.Path.{subst}
use iel.Dev.Client.{verify, fill}

-- What the loop of `onconnect_vfy` finds in `left` bytes from byte `i` on
pub data Verified (bytes : List ℕ) (i left : ℕ) : Option (Option (ℕ × ℕ × ℕ)) → Type 0 where
  all_equal :
      ((k : ℕ) → i ≤ k → k < i + left → get_elem? bytes k ≡ some (k % 256))
      → Verified bytes i left (some none)
  differs :
      (k b : ℕ)
      → i ≤ k
      → k < i + left
      → get_elem? bytes k ≡ some b
      → b ≢ k % 256
      → ((j : ℕ) → i ≤ j → j < k → get_elem? bytes j ≡ some (j % 256))
      → Verified bytes i left (some (some (k, k % 256, b)))

low_byte : (i : ℕ) → bit_and i 255 ≡ i % 256
low_byte i = bit_and_mask 8 i

Verified-later :
    (bytes : List ℕ) (i left : ℕ)
    → get_elem? bytes i ≡ some (i % 256)
    → {r : Option (Option (ℕ × ℕ × ℕ))} → Verified bytes (i + 1) left r
    → Verified bytes i (suc left) r
Verified-later bytes i left e (all_equal rest) = all_equal (λ k from upto.
    elim (Bool-cases (k == i)) [
      | inl here ↦
          subst (λ (n : ℕ). get_elem? bytes n ≡ some (n % 256)) {x = i} {y = k}
            (ground (arith, here)) e
      | inr there ↦ rest k (ground (arith, there, from)) (omega arith)
    ])
Verified-later bytes i left e (differs k b from upto at ne rest) =
    differs k b (omega arith) (omega arith) at ne (λ j start less. elim (Bool-cases (j == i)) [
      | inl here ↦
          subst (λ (n : ℕ). get_elem? bytes n ≡ some (n % 256)) {x = i} {y = j}
            (ground (arith, here)) e
      | inr there ↦ rest j (ground (arith, there, start)) less
    ])

-- The loop stays inside the buffer and finds the first byte that is not the pattern's.
pub verify-Verified :
    (left i : ℕ) (bytes : List ℕ)
    → i + left ≤ length bytes
    → Verified bytes i left (verify left i bytes)
unfolding verify
verify-Verified zero i bytes room = all_equal (λ k from upto. absurd (omega arith))
verify-Verified (suc left) i bytes room =
    let (b, e) = get_elem?-inside bytes i (omega arith) in
    elim (Bool-cases (b == i % 256)) [
      | inl equal ↦
          let at : b ≡ i % 256 = ground (arith, equal) in
          rw (e, low_byte i, equal)
            (Verified-later bytes i left (e ∙ ap (λ (n : ℕ). some n) at)
              (verify-Verified left (i + 1) bytes (omega arith)))
      | inr other ↦
          rw (e, low_byte i, other)
            (differs i b (omega arith) (omega arith) e (λ q. ground (arith, other, q))
              (λ j from less. absurd (omega arith)))
    ]

-- The bytes below `i` are the pattern's.
abbrev pub PatternTo : ℕ → List ℕ → Type 0
PatternTo i bytes = (k : ℕ) → k < i → get_elem? bytes k ≡ some (k % 256)

-- The loop of `amain_c` writes the pattern.
pub fill-PatternTo :
    (left i : ℕ) (bytes : List ℕ)
    → i + left ≤ length bytes
    → PatternTo i bytes
    → (after : List ℕ) × (fill left i bytes ≡ some after)
      × PatternTo (i + left) after
      × (length after ≡ length bytes)
unfolding fill
fill-PatternTo zero i bytes room so_far = (bytes, refl, λ k h. so_far k (omega arith), refl)
fill-PatternTo (suc left) i bytes room so_far =
    let next = set bytes i (i % 256) in
    let (after, e, pattern, size) =
      fill-PatternTo left (i + 1) next (omega (arith, length-set bytes i (i % 256))) (λ k h.
        elim (Bool-cases (k == i)) [
          | inl here ↦
              subst (λ (n : ℕ). get_elem? next n ≡ some (n % 256)) {x = i} {y = k}
                (ground (arith, here)) (get_elem?-set_same bytes i (i % 256) (omega arith))
          | inr there ↦
              get_elem?-set_other bytes i k (i % 256) (λ q. ground (arith, there, q))
              ∙ so_far k (ground (arith, there, h))
        ]) in
    (
      after,
      rw (low_byte i, put_elem?-inside bytes i (i % 256) (omega arith)) e,
      λ k h. pattern k (omega arith),
      size ∙ length-set bytes i (i % 256),
    )
