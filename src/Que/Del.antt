-- ===== src/Que/Del.antt =====
-- `del`: every chunk is freed once.
use iel.Base.{ℕ, zero, suc, ◌+◌, ◌-◌, ◌^◌, ◌≤◌, ◌<◌, ◌≡◌, refl, ap, ◌∙◌}
use iel.Base.{◌&&◌, Option, none, some, is_some, List, ◌>>=◌}
use iel.Base.{arith, ltb, leb, ◌==◌, if◌then◌else◌, Option-cases, inl, inr}
use iel.Base.{eq-true, eq-false, add64}
use native.Mathlib.Decide.{ℕ_discrete}
use iel.Que.{Que, Map, update}
use iel.Que.{free_chunk, free_from, del}
use iel.Que.Rep.{Rep, top}
use iel.Que.Front.{free_chunk_lem}
use iel.Que.Trim.{start-le-end}

module _ {ℓ} {A : Type ℓ} (bits : ℕ) where
  -- What `free_from` has freed.
  record Freed (q : Que A) (i : ℕ) (res : Option (Que A)) : Type ℓ where
    left : Que A
    result : res ≡ some left
    owned : (c : ℕ) → is_some (left.map c) ≡ (leb i c && ltb c (top q))
    same : (left.mapcap ≡ q.mapcap) × (left.chunk_e ≡ q.chunk_e) × (left.os_e ≡ q.os_e)

  free_from-Freed :
      (rounds : ℕ) (q : Que A) (i j : ℕ)
      → i + rounds ≡ j
      → j ≤ top q
      → top q ≤ q.mapcap
      → q.mapcap < 2 ^ 60
      → ((c : ℕ) → is_some (q.map c) ≡ (leb i c && ltb c (top q)))
      → Freed q j (free_from rounds q i)
  unfolding free_from
  free_from-Freed zero q i j e below room small owned = record {
    left = q;
    result = refl;
    owned = λ c. ground (arith, owned c, e);
    same = (refl, refl, refl);
  }
  free_from-Freed (suc rounds) q i j e below room small owned = elim (Option-cases (q.map i)) [
    | inl dead ↦ absurd (ground (arith, dead, owned i, e, below))
    | inr (ch, live) ↦
        let freed = free_chunk_lem bits q i ch live (omega (arith, e, below, room)) in
        let next : add64 i 1 ≡ suc i = omega (arith, e, below, room, small) in
        let rest =
          free_from-Freed rounds (record q { map = update q.map i none }) (suc i) j
            (omega (arith, e)) below room small (λ c. ground (arith, owned c)) in
        record {
          left = rest.left;
          result =
              rw freed
                (ap (free_from rounds (record q { map = update q.map i none })) next ∙ rest.result);
          owned = rest.owned;
          same = rest.same;
        }
  ]

  -- The last chunk, where it is allocated.
  free_last :
      (r : Que A)
      → ((c : ℕ) → is_some (r.map c) ≡ (leb r.chunk_e c && ltb c (top r)))
      → top r ≤ r.mapcap
      → (m : Map A) × ((if r.os_e == 0
            then some r.map
            else free_chunk r r.chunk_e >>= λ r'. some r'.map)
          ≡ some m)
        × ((c : ℕ) → m c ≡ none)
  free_last r owned room = elim (ℕ_discrete r.os_e 0) [
    | yes z ↦ (r.map, rw (eq-true _ 0 z), λ c. ground (arith, owned c, z))
    | no nz ↦ elim (Option-cases (r.map r.chunk_e)) [
      | inl dead ↦ absurd (ground (arith, dead, owned r.chunk_e, nz))
      | inr (ch, live) ↦ (
        update r.map r.chunk_e none,
        rw (eq-false _ 0 nz, free_chunk_lem bits r r.chunk_e ch live (ground (arith, room, nz))),
        λ c. ground (arith, owned c, nz),
      )
    ]
  ]

  -- `del` frees every chunk that the queue owns, each once: none is left when the map is freed.
  pub del-frees :
      (q : Que A) (xs : List A)
      → Rep bits q xs
      → (m : Map A) × (del q ≡ some m) × ((c : ℕ) → m c ≡ none)
  unfolding del
  del-frees q xs r =
      let f =
        free_from-Freed (q.chunk_e - q.chunk_s) q q.chunk_s q.chunk_e
          (omega (arith, start-le-end bits q xs r)) (ground arith) r.room r.fits r.owned in
      let (m, e, freed) =
        free_last f.left (λ c. ground (arith, f.owned c, f.same))
          (ground (arith, r.room, f.same)) in
      (m, rw f.result e, freed)
