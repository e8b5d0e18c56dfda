-- ===== src/Base/Lists.antt =====
-- Lists measured and indexed by native numbers, under the library's names.
use Prim.Native.Nat.{ℕ, zero, suc, ◌+◌, ◌-◌, ◌≤◌, ◌<◌}
use mathlib.Core.Logic.{◌≢◌}
use mathlib.Core.Path.{◌≡◌, refl, ap, sym, ◌∙◌}
use mathlib.Core.List.{List, [], ◌∷◌, ◌++◌}
use mathlib.Core.Option.{Option, none, some}
use native.Mathlib.Omega.{arith}

module _ {ℓ} {A : Type ℓ} where
  abbrev pub length : List A → ℕ
  length [] = 0
  length (x ∷ xs) = suc (length xs)

  abbrev pub get_elem? : List A → ℕ → Option A
  get_elem? [] i = none
  get_elem? (x ∷ xs) zero = some x
  get_elem? (x ∷ xs) (suc i) = get_elem? xs i

  -- A write out of bounds changes nothing.
  abbrev pub set : List A → ℕ → A → List A
  set [] i v = []
  set (x ∷ xs) zero v = v ∷ xs
  set (x ∷ xs) (suc i) v = x ∷ set xs i v

  abbrev pub take : ℕ → List A → List A
  take zero xs = []
  take (suc n) [] = []
  take (suc n) (x ∷ xs) = x ∷ take n xs

  abbrev pub drop : ℕ → List A → List A
  drop zero xs = xs
  drop (suc n) [] = []
  drop (suc n) (x ∷ xs) = drop n xs

  pub length-append : (xs ys : List A) → length (xs ++ ys) ≡ length xs + length ys
  length-append [] ys = omega arith
  length-append (x ∷ xs) ys = omega (arith, length-append xs ys)

  pub length-set : (xs : List A) (i : ℕ) (v : A) → length (set xs i v) ≡ length xs
  length-set [] i v = refl
  length-set (x ∷ xs) zero v = refl
  length-set (x ∷ xs) (suc i) v = ap suc (length-set xs i v)

  pub length-drop : (n : ℕ) (xs : List A) → length (drop n xs) ≡ length xs - n
  length-drop zero xs = omega arith
  length-drop (suc n) [] = omega arith
  length-drop (suc n) (x ∷ xs) = omega (arith, length-drop n xs)

  pub take-append_drop : (n : ℕ) (xs : List A) → take n xs ++ drop n xs ≡ xs
  take-append_drop zero xs = refl
  take-append_drop (suc n) [] = refl
  take-append_drop (suc n) (x ∷ xs) = ap (◌∷◌ x) (take-append_drop n xs)

  pub drop-nil : (n : ℕ) → ◌≡◌ {A = List A} (drop n []) []
  drop-nil zero = refl
  drop-nil (suc n) = refl

  pub drop-all : (n : ℕ) (xs : List A) → length xs ≤ n → drop n xs ≡ []
  drop-all n [] h = drop-nil n
  drop-all zero (x ∷ xs) h = absurd (omega arith)
  drop-all (suc n) (x ∷ xs) h = drop-all n xs (omega arith)

  pub take-all : (n : ℕ) (xs : List A) → length xs ≤ n → take n xs ≡ xs
  take-all zero [] h = refl
  take-all (suc n) [] h = refl
  take-all zero (x ∷ xs) h = absurd (omega arith)
  take-all (suc n) (x ∷ xs) h = ap (◌∷◌ x) (take-all n xs (omega arith))

  -- Two steps of `n` and `m` elements are one of `k`.
  pub drop-drop : (n m k : ℕ) (xs : List A) → n + m ≡ k → drop m (drop n xs) ≡ drop k xs
  drop-drop zero m k xs e = ap (λ (j : ℕ). drop j xs) (omega arith)
  drop-drop (suc n) m k [] e = drop-nil m ∙ sym (drop-nil k)
  drop-drop (suc n) m zero (x ∷ xs) e = absurd (omega arith)
  drop-drop (suc n) m (suc k) (x ∷ xs) e = drop-drop n m k xs (omega arith)

  pub take-append_take :
      (n m k : ℕ) (xs : List A) → n + m ≡ k → take n xs ++ take m (drop n xs) ≡ take k xs
  take-append_take zero m k xs e = ap (λ (j : ℕ). take j xs) (omega arith)
  take-append_take (suc n) zero (suc k) [] e = refl
  take-append_take (suc n) (suc m) (suc k) [] e = refl
  take-append_take (suc n) m zero xs e = absurd (omega arith)
  take-append_take (suc n) m (suc k) (x ∷ xs) e =
      ap (◌∷◌ x) (take-append_take n m k xs (omega arith))

  pub get_elem?-set_same :
      (xs : List A) (i : ℕ) (v : A) → i < length xs → get_elem? (set xs i v) i ≡ some v
  get_elem?-set_same [] i v h = absurd (omega arith)
  get_elem?-set_same (x ∷ xs) zero v h = refl
  get_elem?-set_same (x ∷ xs) (suc i) v h = get_elem?-set_same xs i v (omega arith)

  pub get_elem?-set_other :
      (xs : List A) (i j : ℕ) (v : A) → i ≢ j → get_elem? (set xs i v) j ≡ get_elem? xs j
  get_elem?-set_other [] i j v h = refl
  get_elem?-set_other (x ∷ xs) zero zero v h = absurd (h refl)
  get_elem?-set_other (x ∷ xs) zero (suc j) v h = refl
  get_elem?-set_other (x ∷ xs) (suc i) zero v h = refl
  get_elem?-set_other (x ∷ xs) (suc i) (suc j) v h =
      get_elem?-set_other xs i j v (λ e. h (ap suc e))

-- A write into an array; out of bounds it is a fault.
abbrev pub put_elem? {ℓ} : {A : Type ℓ} → List A → ℕ → A → Option (List A)
put_elem? [] i v = none
put_elem? (x ∷ xs) zero v = some (v ∷ xs)
put_elem? (x ∷ xs) (suc i) v = elim (put_elem? xs i v) [ none ↦ none | some ys ↦ some (x ∷ ys) ]

pub put_elem?-inside {ℓ} :
    {A : Type ℓ} (xs : List A) (i : ℕ) (v : A)
    → i < length xs
    → put_elem? xs i v ≡ some (set xs i v)
put_elem?-inside [] i v h = absurd (omega arith)
put_elem?-inside (x ∷ xs) zero v h = refl
put_elem?-inside (x ∷ xs) (suc i) v h = rw (put_elem?-inside xs i v (omega arith))

pub get_elem?-inside {ℓ} :
    {A : Type ℓ} (xs : List A) (i : ℕ) → i < length xs → (x : A) × (get_elem? xs i ≡ some x)
get_elem?-inside [] i h = absurd (omega arith)
get_elem?-inside (x ∷ xs) zero h = (x, refl)
get_elem?-inside (x ∷ xs) (suc i) h = get_elem?-inside xs i (omega arith)

pub get_elem?-past {ℓ} : {A : Type ℓ} (xs : List A) (i : ℕ) → length xs ≤ i → get_elem? xs i ≡ none
get_elem?-past [] i h = refl
get_elem?-past (x ∷ xs) zero h = absurd (omega arith)
get_elem?-past (x ∷ xs) (suc i) h = get_elem?-past xs i (omega arith)

pub length-take-le {ℓ} :
    {A : Type ℓ} (n : ℕ) (xs : List A) → (length (take n xs) ≤ n) × (length (take n xs) ≤ length xs)
length-take-le zero xs = omega arith
length-take-le (suc n) [] = omega arith
length-take-le (suc n) (x ∷ xs) = omega (arith, length-take-le n xs)
