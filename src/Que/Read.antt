-- ===== src/Que/Read.antt =====
-- Reading an entry of the queue at its chunk and offset.
use mathlib.Core.Option.{some-injective}
use mathlib.Core.Path.{ap₂}
use native.Mathlib.Nat.{mod-lt}
use iel.Base.{length, sym, ℕ, zero, suc, ◌+◌, ◌/◌, ◌%◌, ◌<◌, ◌≡◌, refl, ap, ◌∙◌, Option, none, some}
use iel.Base.{List, [], ◌∷◌, arith, ltb, get_elem?, Bool-cases, inl, inr}
use iel.Base.Bits.{pow_pos}
use iel.Que.{Que, Map, Chunk, ents, load, chunk_at}
use iel.Que.Rep.{Rep, Holds, cell, element, start, top}

module _ {ℓ} {A : Type ℓ} where
  element_live :
      (s : Option (Chunk A)) (o : ℕ) {x : A}
      → element s o ≡ some x
      → (ch : Chunk A) × (s ≡ some ch) × (ch o ≡ x)
  unfolding element
  element_live none o e = absurd cc
  element_live (some ch) o e = (ch, refl, some-injective _ _ e)

module _ {ℓ} {A : Type ℓ} (bits : ℕ) where
  pub Holds-get :
      (m : Map A) (p i : ℕ) (xs : List A) {x : A}
      → Holds bits m p xs
      → get_elem? xs i ≡ some x
      → cell bits m (p + i) ≡ some x
  Holds-get m p i [] h e = absurd cc
  Holds-get m p zero (x ∷ xs) h e = ap (cell bits m) {x = p + 0} {y = p} (omega arith) ∙ h.0 ∙ e
  Holds-get m p (suc i) (x ∷ xs) h e =
      ap (cell bits m) {x = p + suc i} {y = suc p + i} (omega arith)
      ∙ Holds-get m (suc p) i xs h.1 e

  -- A live entry of the map is inside it.
  live-in :
      (q : Que A) (xs : List A) (c : ℕ) (ch : Chunk A)
      → Rep bits q xs
      → q.map c ≡ some ch
      → c < q.mapcap
  live-in q xs c ch rep live = elim (Bool-cases (ltb c (top q))) [
    | inl below ↦ ground (arith, below, rep.room)
    | inr out ↦ absurd (ground (arith, live, out, rep.owned c))
  ]

  -- The entry number `i` of the queue, at the chunk and offset of its position
  pub load-get :
      (q : Que A) (xs : List A) (i : ℕ) {x : A}
      → Rep bits q xs
      → get_elem? xs i ≡ some x
      → (load bits q ((start bits q + i) / ents bits) ((start bits q + i) % ents bits) ≡ some x)
        × ((start bits q + i) / ents bits < q.mapcap)
  unfolding load chunk_at cell
  load-get q xs i rep e =
      let p = start bits q + i in
      let (ch, live, here) =
        element_live (q.map (p / ents bits)) (p % ents bits)
          (Holds-get q.map (start bits q) i xs rep.holds e) in
      let below = live-in q xs (p / ents bits) ch rep live in
      let os = mod-lt p (pow_pos bits) in (ground (arith, live, below, os, here), below)

  -- A queue holds one list.
  Holds-unique :
      (m : Map A) (p : ℕ) (xs ys : List A)
      → length xs ≡ length ys
      → Holds bits m p xs
      → Holds bits m p ys
      → xs ≡ ys
  Holds-unique m p [] [] len h k = refl
  Holds-unique m p [] (y ∷ ys) len h k = absurd (omega (arith, len))
  Holds-unique m p (x ∷ xs) [] len h k = absurd (omega (arith, len))
  Holds-unique m p (x ∷ xs) (y ∷ ys) len h k =
      ap₂ ◌∷◌ (some-injective _ _ (sym h.0 ∙ k.0))
        (Holds-unique m (suc p) xs ys (omega (arith, len)) h.1 k.1)

  pub Rep-unique : (q : Que A) (xs ys : List A) → Rep bits q xs → Rep bits q ys → xs ≡ ys
  Rep-unique q xs ys r s =
      Holds-unique q.map (start bits q) xs ys (omega (arith, r.span, s.span)) r.holds s.holds
