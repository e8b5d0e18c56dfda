-- ===== src/Iou/Files/Tests.antt =====
-- The theorems on registered files at tables of two slots and of 65, with some of them in use.
use iel.Base.{
  ℕ, zero, suc, ◌+◌, ◌*◌, ◌/◌, ◌%◌, ◌≤◌, ◌<◌, ◌≡◌, refl, ap, ◌∙◌, some, Bool, true, Bool-cases, inl,
  inr, List, [], ◌∷◌, arith, ◌==◌, ltb, length, get_elem?,
}
use iel.Bitmap.Free.{test_bit-zero, Wide, free_at, word}
use iel.Bitmap.Word.{test_bit}
use iel.Iou.{Ctx}
use iel.Iou.Samples.{idle}
use iel.Iou.Files.{RegFd, inval, noimpl, regfiles}
use iel.Iou.Files.Many.{FreeTo}
use iel.Iou.Files.All.{RegisteredAll, regfiles-RegisteredAll, GivenBack, regfiles-GivenBack}
use iel.Iou.Files.Restore.{Vacant}
use iel.Iou.Files.Round.{Slots}
use iel.Iou.Files.Slots.{regfiles_skips}

abbrev accepts : List ℕ → Bool
accepts table = true

abbrev closes : ℕ → Bool
closes fd = true

abbrev two_slots : ℕ → List ℕ → Ctx
two_slots bits table = record idle {
  filetable_len = 2;
  filetable_bitmap = bits ∷ [];
  filetable = table;
}

abbrev both_free : Ctx
both_free = two_slots 3 (inval ∷ inval ∷ [])

abbrev one_used : Ctx
one_used = two_slots 2 (7 ∷ inval ∷ [])

test_bit-past : (bits b : ℕ) → bits / 2 / 2 ≡ 0 → 2 ≤ b → test_bit bits b ≡ 0
test_bit-past bits zero e h = absurd (omega arith)
test_bit-past bits (suc zero) e h = absurd (omega arith)
test_bit-past bits (suc (suc b)) e h = ap (λ (n : ℕ). test_bit n b) e ∙ test_bit-zero b

past_word : (bits b c : ℕ) → 0 < c → test_bit (word (bits ∷ []) c) b ≡ 0
past_word bits b zero h = absurd (omega arith)
past_word bits b (suc c) h = test_bit-zero b

inside_two : (bits i : ℕ) → bits / 2 / 2 ≡ 0 → free_at (bits ∷ []) i ≡ 1 → i < 2
inside_two bits i e free = elim (Bool-cases (i / 64 == 0)) [
  | inr past ↦ absurd (omega (arith, free, past_word bits (i % 64) (i / 64) (ground (arith, past))))
  | inl first ↦ elim (Bool-cases (ltb i 2)) [
    | inl small ↦ ground (arith, small)
    | inr large ↦
        let z : i / 64 ≡ 0 = ground (arith, first) in
        let here = ap (λ (c : ℕ). test_bit (word (bits ∷ []) c) (i % 64)) z in
        let none_set = test_bit-past bits (i % 64) e (ground (arith, large, z)) in
        absurd (omega (arith, free, here, none_set))
  ]
]

two_slots-Wide : (bits : ℕ) → bits < 4 → Wide (bits ∷ [])
two_slots-Wide bits h zero = omega arith
two_slots-Wide bits h (suc c) = omega arith

both_free-Slots : Slots both_free
both_free-Slots = record {
  words = refl;
  wide = two_slots-Wide 3 (omega arith);
  entries = refl;
  nonempty = omega arith;
  bounded = omega arith;
  inside = λ i free. inside_two 3 i refl free;
}

one_used-Slots : Slots one_used
one_used-Slots = record {
  words = refl;
  wide = two_slots-Wide 2 (omega arith);
  entries = refl;
  nonempty = omega arith;
  bounded = omega arith;
  inside = λ i free. inside_two 2 i refl free;
}

abbrev at : ℕ → RegFd
at raw = record { raw = raw; reg = inval }

regfiles_skips_example :
    (idx : ℕ) × (after : Ctx) × (regfiles accepts both_free (at 5 ∷ at 6 ∷ []) (at 0 ∷ at 1 ∷ []) 2
      ≡ some (record {
        ret = 2;
        errno = noimpl;
        pud = after;
        out = record { raw = 5; reg = idx } ∷ at 1 ∷ [];
      }))
regfiles_skips_example =
    regfiles_skips accepts both_free (at 5) (at 0) (at 6 ∷ []) (at 1 ∷ []) 2 1 both_free-Slots
      (omega arith) (omega arith) refl (λ table. refl)

abbrev invalid_slots : ℕ → List ℕ
invalid_slots zero = []
invalid_slots (suc n) = inval ∷ invalid_slots n

length-invalid_slots : (n : ℕ) → length (invalid_slots n) ≡ n
length-invalid_slots zero = refl
length-invalid_slots (suc n) = ap suc (length-invalid_slots n) ∙ omega arith

get-invalid_slots : (n k : ℕ) → k < n → get_elem? (invalid_slots n) k ≡ some inval
get-invalid_slots zero k h = absurd (omega arith)
get-invalid_slots (suc n) zero h = refl
get-invalid_slots (suc n) (suc k) h = get-invalid_slots n k (omega arith)

-- A table of 65 slots, with the first slot free, and also the last where `bits` is 1
abbrev table_65 : ℕ → Ctx
table_65 bits = record idle {
  filetable_len = 65;
  filetable_bitmap = 1 ∷ bits ∷ [];
  filetable = invalid_slots 65;
}

inside_65 :
    (bits c b : ℕ) → bits ≤ 1 → test_bit (word (1 ∷ bits ∷ []) c) b ≡ 1 → b < 64 → c * 64 + b < 65
inside_65 bits zero b small free h = omega arith
inside_65 bits (suc zero) zero small free h = omega arith
inside_65 bits (suc zero) (suc b) small free h =
    let half : bits / 2 ≡ 0 = omega arith in
    absurd (omega (arith, free, ap (λ (n : ℕ). test_bit n b) half, test_bit-zero b))
inside_65 bits (suc (suc c)) b small free h = absurd (omega (arith, free, test_bit-zero b))

table_65-Wide : (bits : ℕ) → bits ≤ 1 → Wide (1 ∷ bits ∷ [])
table_65-Wide bits small zero = omega arith
table_65-Wide bits small (suc zero) = omega arith
table_65-Wide bits small (suc (suc c)) = omega arith

table_65-inside : (bits : ℕ) → bits ≤ 1 → (i : ℕ) → free_at (1 ∷ bits ∷ []) i ≡ 1 → i < 65
table_65-inside bits small i free =
    omega (arith, inside_65 bits (i / 64) (i % 64) small free (omega arith))

table_65-Slots : (bits : ℕ) → bits ≤ 1 → Slots (table_65 bits)
table_65-Slots bits small = record {
  words = refl;
  wide = table_65-Wide bits small;
  entries = length-invalid_slots 65;
  nonempty = omega arith;
  bounded = omega arith;
  inside = table_65-inside bits small;
}

abbrev first_free : Ctx
first_free = table_65 0

abbrev two_free : Ctx
two_free = table_65 1

first_free-Vacant : Vacant first_free
first_free-Vacant k free = get-invalid_slots 65 k (table_65-inside 0 (omega arith) k free)

first_free-FreeTo : FreeTo first_free 1
first_free-FreeTo zero h = (0, refl, refl)
first_free-FreeTo (suc c) h = absurd (omega arith)

second_taken : (c b : ℕ) → 1 ≤ c → test_bit (word (1 ∷ 0 ∷ []) c) b ≡ 0
second_taken zero b h = absurd (omega arith)
second_taken (suc zero) b h = test_bit-zero b
second_taken (suc (suc c)) b h = test_bit-zero b

two_free-FreeTo : FreeTo two_free 2
two_free-FreeTo zero h = (0, refl, refl)
two_free-FreeTo (suc zero) h = (64, refl, refl)
two_free-FreeTo (suc (suc c)) h = absurd (omega arith)

regfiles-RegisteredAll_example :
    RegisteredAll accepts two_free
      (at 5 ∷ at 6 ∷ [])
      2
      (regfiles accepts two_free (at 5 ∷ at 6 ∷ []) (at 0 ∷ at 1 ∷ []) 2)
regfiles-RegisteredAll_example =
    regfiles-RegisteredAll accepts two_free (at 5 ∷ at 6 ∷ []) (at 0 ∷ at 1 ∷ []) 2
      (table_65-Slots 1 (omega arith)) (omega arith) (omega arith) refl refl two_free-FreeTo

regfiles-GivenBack_example :
    GivenBack first_free
      (at 5 ∷ at 6 ∷ [])
      2
      1
      (regfiles accepts first_free (at 5 ∷ at 6 ∷ []) (at 0 ∷ at 1 ∷ []) 2)
regfiles-GivenBack_example =
    regfiles-GivenBack accepts first_free (at 5 ∷ at 6 ∷ []) (at 0 ∷ at 1 ∷ []) 2 1
      (table_65-Slots 0 (omega arith)) first_free-Vacant (omega arith) (omega arith) (omega arith)
      refl refl first_free-FreeTo (λ k h. second_taken (k / 64) (k % 64) h)
