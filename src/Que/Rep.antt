-- ===== src/Que/Rep.antt =====
-- The queue as a list: the abstract view of `struct iel_que_st` and its invariant.
use iel.Base.{ℕ, zero, suc, ◌+◌, ◌*◌, ◌/◌, ◌%◌, ◌^◌, ◌≤◌, ◌<◌, ◌≡◌, ◌≢◌, sym, ap, ◌∙◌}
use iel.Base.{◌&&◌, Option, none, some, is_some, List, [], ◌∷◌, ◌++◌}
use iel.Base.{arith, ltb, leb, ◌==◌, if◌then◌else◌, length, drop}
use iel.Base.Bits.{div-field, mod-field}
use native.Mathlib.Nat.{mul-le-mul_right, div-add-mod'}
use native.Mathlib.Decide.{dec_le, ℕ_discrete}
use mathlib.Core.Path.{ap₂, subst}
use iel.Que.{Que, Map, Chunk, ents, update}

-- One past the last entry of the map that is in use.
abbrev pub top {ℓ} : {A : Type ℓ} → Que A → ℕ
top q = if q.os_e == 0 then q.chunk_e else suc q.chunk_e

-- The order of positions is that of their chunks.
pub chunk-le :
    (bits c o d k : ℕ)
    → o < ents bits
    → k < ents bits
    → c * ents bits + o ≤ d * ents bits + k
    → c ≤ d
chunk-le bits c o d k ho hk h = elim (dec_le c d) [
  | yes le ↦ le
  | no gt ↦ absurd (omega (arith, mul-le-mul_right {m = suc d} {n = c} (ents bits) (omega arith)))
]

module _ {ℓ} {A : Type ℓ} where
  unfoldable pub element : Option (Chunk A) → ℕ → Option A
  element none o = none
  element (some ch) o = some (ch o)

module _ {ℓ} {A : Type ℓ} (bits : ℕ) where
  -- The element at a position, counted through the chunks.
  unfoldable pub cell : Map A → ℕ → Option A
  cell m p = element (m (p / ents bits)) (p % ents bits)

  -- The positions from `p` on hold `xs`.
  abbrev pub Holds : Map A → ℕ → List A → Type ℓ
  Holds m p [] = Unit
  Holds m p (x ∷ xs) = (cell m p ≡ some x) × Holds m (suc p) xs

  abbrev pub start : Que A → ℕ
  start q = q.chunk_s * ents bits + q.os_s

  abbrev pub finish : Que A → ℕ
  finish q = q.chunk_e * ents bits + q.os_e

  -- The queue holds the list `xs`, owns exactly the chunks in use, and nothing has wrapped.
  pub record Rep (q : Que A) (xs : List A) : Type ℓ where
    pub os_s_in : q.os_s < ents bits
    pub os_e_in : q.os_e < ents bits
    pub span : start q + length xs ≡ finish q
    pub holds : Holds q.map (start q) xs
    pub owned : (c : ℕ) → is_some (q.map c) ≡ (leb q.chunk_s c && ltb c (top q))
    pub room : top q ≤ q.mapcap
    pub some_room : 0 < q.mapcap
    pub fits : q.mapcap < 2 ^ 60

  -- A position of chunk `c`.
  pub cell-field :
      (m : Map A) (c o : ℕ) → o < ents bits → cell m (c * ents bits + o) ≡ element (m c) o
  unfolding cell
  cell-field m c o h = ap₂ (λ x. element (m x)) (div-field bits c o h) (mod-field bits c o h)

  -- Maps that agree on the positions of a list hold it alike, at another place too.
  pub Holds-move :
      (m m' : Map A) (p p' : ℕ) (xs : List A)
      → ((i : ℕ) → i < length xs → cell m (p + i) ≡ cell m' (p' + i))
      → Holds m p xs
      → Holds m' p' xs
  Holds-move m m' p p' [] same h = tt
  Holds-move m m' p p' (x ∷ xs) same h = (
    first ∙ h.0,
    Holds-move m m' (suc p) (suc p') xs
        (λ i lt.
          ap (cell m) {x = suc p + i} {y = p + suc i} (omega arith)
          ∙ same (suc i) (omega arith)
          ∙ ap (cell m') {x = p' + suc i} {y = suc p' + i} (omega arith))
        h.1,
  )
    where
      first : cell m' p' ≡ cell m p
      first =
          ap (cell m') {x = p'} {y = p' + 0} (omega arith)
          ∙ sym (same 0 (omega arith))
          ∙ ap (cell m) {x = p + 0} {y = p} (omega arith)

  pub Holds-append :
      (m : Map A) (p : ℕ) (xs : List A) (v : A)
      → Holds m p xs
      → cell m (p + length xs) ≡ some v
      → Holds m p (xs ++ v ∷ [])
  Holds-append m p [] v h e = (ap (cell m) {x = p} {y = p + 0} (omega arith) ∙ e, tt)
  Holds-append m p (x ∷ xs) v h e =
      (h.0, Holds-append m (suc p) xs v h.1 (ap (cell m) {x = suc p + length xs} (omega arith) ∙ e))

  pub Holds-drop : (m : Map A) (p n : ℕ) (xs : List A) → Holds m p xs → Holds m (p + n) (drop n xs)
  Holds-drop m p zero xs h = subst (λ t. Holds m t xs) {x = p} {y = p + 0} (omega arith) h
  Holds-drop m p (suc n) [] h = tt
  Holds-drop m p (suc n) (x ∷ xs) h =
      subst (λ t. Holds m t (drop n xs)) {x = suc p + n} {y = p + suc n} (omega arith)
        (Holds-drop m (suc p) n xs h.1)

  -- A written or freed chunk leaves the positions of the others alone.
  pub cell-update :
      (m : Map A) (k : ℕ) (ch : Option (Chunk A)) (p : ℕ)
      → p / ents bits ≢ k
      → cell (update m k ch) p ≡ cell m p
  unfolding cell
  cell-update m k ch p ne = ground (arith, ne)

  -- A store changes the cell at its position alone.
  pub cell-write :
      (m : Map A) (k : ℕ) (ch : Chunk A) (o : ℕ) (v : A) (p : ℕ)
      → m k ≡ some ch
      → p ≢ k * ents bits + o
      → cell (update m k (some (update ch o v))) p ≡ cell m p
  unfolding cell element
  cell-write m k ch o v p live ne = elim (ℕ_discrete (p / ents bits) k) [
    | yes e ↦
        let other : p % ents bits ≢ o =
          λ eo. ne (omega (arith, div-add-mod' p (ents bits), ap (λ (t : ℕ). t * ents bits) e)) in
        ground (arith, e, live, other, ap m e)
    | no far ↦ cell-update m k (some (update ch o v)) p far
  ]

  pub cell-write_self :
      (m : Map A) (k : ℕ) (ch : Chunk A) (o : ℕ) (v : A)
      → o < ents bits
      → cell (update m k (some (update ch o v))) (k * ents bits + o) ≡ some v
  unfolding element
  cell-write_self m k ch o v h = cell-field (update m k (some (update ch o v))) k o h ∙ ground arith
