-- ===== src/Base/Tests.antt =====
-- C conditions as Boolean tests, and the two ways to branch on them.
use Prim.Native.Nat.{ℕ, compare, Ordering}
use mathlib.Core.Path.{◌≡◌, refl, ap}
use mathlib.Core.Logic.{◌⊎◌, inl, inr, ◌≢◌}
use mathlib.Core.Bool.{Bool, true, false}
use mathlib.Core.Option.{Option, none, some, some-injective}
use native.Mathlib.Omega.{arith}

abbrev pub ltb : ℕ → ℕ → Bool
ltb a b = elim (compare a b) [ Ordering.lt ↦ true | _ ↦ false ]

abbrev pub leb : ℕ → ℕ → Bool
leb a b = elim (compare a b) [ Ordering.gt ↦ false | _ ↦ true ]

infix 50 ◌==◌
abbrev pub ◌==◌ : ℕ → ℕ → Bool
a == b = elim (compare a b) [ Ordering.eq ↦ true | _ ↦ false ]

infix 1 if◌then◌else◌
abbrev pub if◌then◌else◌ {ℓ} : {A : Type ℓ} → Bool → A → A → A
if true then x else y = x
if false then x else y = y

pub eq-false : (a b : ℕ) → a ≢ b → (a == b) ≡ false
eq-false a b h = ground (arith, h)

pub eq-true : (a b : ℕ) → a ≡ b → (a == b) ≡ true
eq-true a b h = ground (arith, h)

pub Bool-cases : (b : Bool) → (b ≡ true) ⊎ (b ≡ false)
Bool-cases true = inl refl
Bool-cases false = inr refl

pub Option-cases {ℓ} : {A : Type ℓ} (o : Option A) → (o ≡ none) ⊎ ((a : A) × (o ≡ some a))
Option-cases none = inl refl
Option-cases (some a) = inr (a, refl)

abbrev pub is_some {ℓ} : {A : Type ℓ} → Option A → Bool
is_some none = false
is_some (some a) = true

-- A chain of steps that may fail: `none` is what the model's own comment says of it.
infixl 5 ◌>>=◌
abbrev pub ◌>>=◌ {ℓ κ} : {A : Type ℓ} {B : Type κ} → Option A → (A → Option B) → Option B
none >>= f = none
some a >>= f = f a

-- A step that only renames its value, followed by another.
pub >>=-some {ℓ κ μ} :
    {A : Type ℓ} {B : Type κ} {C : Type μ} (o : Option A) (f : A → B) (g : B → Option C) {b : B}
    → (o >>= λ a. some (f a)) ≡ some b
    → (o >>= λ a. g (f a)) ≡ g b
>>=-some none f g e = cc
>>=-some (some a) f g e = ap g (some-injective _ _ e)

-- What a chain that has a value went through
pub >>=-inverse {ℓ κ} :
    {A : Type ℓ} {B : Type κ} (o : Option A) (f : A → Option B) {b : B}
    → (o >>= f) ≡ some b
    → (a : A) × (o ≡ some a) × (f a ≡ some b)
>>=-inverse none f e = absurd cc
>>=-inverse (some a) f e = (a, refl, e)
