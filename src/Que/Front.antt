-- ===== src/Que/Front.antt =====
-- The front of the queue: leaving elements behind, freeing chunks, the reset of an empty queue.
use iel.Base.{ℕ, suc, ◌+◌, ◌*◌, ◌/◌, ◌%◌, ◌≤◌, ◌<◌, ◌≡◌, ◌≢◌, refl, sym, ap, ◌∙◌}
use iel.Base.{true, false, none, some, List, [], ◌∷◌}
use iel.Base.{arith, length, drop, length-drop, add64}
use iel.Base.{eq-true, eq-false, Option-cases, inl, inr}
use iel.Base.Bits.{pow_pos}
use native.Mathlib.Nat.{mod-eq_of_lt, mod_self, le-div_iff_mul-le}
use native.Mathlib.Decide.{dec_lt, ℕ_discrete}
use mathlib.Core.Path.{subst}
use iel.Que.{Que, Chunk, ents, update, free_chunk, leave_chunk, trim_empty, reset}
use iel.Que.{is_empty}
use iel.Que.Rep.{Rep, Holds, cell, top, start, chunk-le}
use iel.Que.Rep.{Holds-move, Holds-drop, cell-update}

-- A position from chunk `k + 1` on lies in another chunk than `k`.
div-ne_above : (bits k p : ℕ) → suc k * ents bits ≤ p → p / ents bits ≢ k
div-ne_above bits k p h e = absurd (omega (arith, (le-div_iff_mul-le (pow_pos bits)).1 h, e))

module _ {ℓ} {A : Type ℓ} (bits : ℕ) where
  -- The first chunk of a queue that is not empty.
  pub first_chunk :
      (q : Que A) (xs : List A)
      → Rep bits q xs
      → 0 < length xs
      → (ch : Chunk A) × (q.map q.chunk_s ≡ some ch)
        × (q.chunk_s < q.mapcap)
        × (q.chunk_s ≤ q.chunk_e)
  first_chunk q xs r h =
      let order =
        chunk-le bits q.chunk_s q.os_s q.chunk_e q.os_e r.os_s_in r.os_e_in
          (omega (arith, r.span)) in
      let below : q.chunk_s < top q = elim (ℕ_discrete q.os_e 0) [
        | yes z ↦
            let strict : q.chunk_s ≢ q.chunk_e =
              λ e. omega (arith, r.span, z, ap (λ (t : ℕ). t * ents bits) e) in
            ground (arith, z, order, strict)
        | no nz ↦ ground (arith, nz, order)
      ] in
      elim (Option-cases (q.map q.chunk_s)) [
        | inl dead ↦ absurd (ground (arith, dead, r.owned q.chunk_s, below))
        | inr (ch, live) ↦ (ch, live, omega (arith, below, r.room), order)
      ]

  pub free_chunk_lem :
      (q : Que A) (c : ℕ) (ch : Chunk A)
      → q.map c ≡ some ch
      → c < q.mapcap
      → free_chunk q c ≡ some (record q { map = update q.map c none })
  unfolding free_chunk
  free_chunk_lem q c ch live lt = ground (arith, live, lt)

  -- What `n` elements less at the front leave.
  pub record Left (q : Que A) (xs : List A) (n : ℕ) (r : Que A) : Type ℓ where
    pub rep : Rep bits r (drop n xs)
    pub moved : start bits r ≡ start bits q + n
    pub same_end : (r.chunk_e ≡ q.chunk_e) × (r.os_e ≡ q.os_e)

  -- Moving `os_s` on inside the chunk, or to its end with the chunk freed.
  pub leave-Left :
      (q : Que A) (xs : List A) (n : ℕ)
      → Rep bits q xs
      → 0 < n
      → n ≤ length xs
      → q.os_s + n ≤ ents bits
      → (r : Que A) × (leave_chunk bits (record q { os_s = (q.os_s + n) % ents bits }) ≡ some r)
        × Left q xs n r
  unfolding leave_chunk
  leave-Left q xs n rep pos len fits =
      let (ch, live, in_map, order) = first_chunk q xs rep (omega arith) in
      let rest = Holds-drop bits q.map (start bits q) n xs rep.holds in
      let count = length-drop n xs in
      elim (dec_lt (q.os_s + n) (ents bits)) [
        | yes inside ↦
            let m : (q.os_s + n) % ents bits ≡ q.os_s + n = mod-eq_of_lt inside in
            let nonzero = eq-false ((q.os_s + n) % ents bits) 0 (λ z. omega (arith, m, pos, z)) in
            (
              record q { os_s = q.os_s + n },
              rw (nonzero, m),
              record {
                rep = record {
                  os_s_in = inside;
                  os_e_in = rep.os_e_in;
                  span = omega (arith, rep.span, count, len);
                  holds = subst (λ p. Holds bits q.map p (drop n xs)) (omega arith) rest;
                  owned = rep.owned;
                  room = rep.room;
                  some_room = rep.some_room;
                  fits = rep.fits;
                };
                moved = omega arith;
                same_end = (refl, refl);
              },
            )
        | no end ↦
            let full : q.os_s + n ≡ ents bits = omega arith in
            let m : (q.os_s + n) % ents bits ≡ 0 = rw full (mod_self (ents bits)) in
            let next : add64 q.chunk_s 1 ≡ suc q.chunk_s = omega (arith, in_map, rep.fits) in
            let freed =
              free_chunk_lem (record q { os_s = (q.os_s + n) % ents bits }) q.chunk_s ch live
                in_map in
            let m' = update q.map q.chunk_s none in
            let p = suc q.chunk_s * ents bits + 0 in
            let here : start bits q + n ≡ p = omega (arith, full) in
            (
              record q { os_s = 0; map = m'; chunk_s = suc q.chunk_s },
              ground (arith, eq-true _ 0 m, m, next, freed),
              record {
                rep = record {
                  os_s_in = pow_pos bits;
                  os_e_in = rep.os_e_in;
                  span = omega (arith, rep.span, count, len, here);
                  holds =
                      Holds-move bits q.map m' (start bits q + n) p (drop n xs)
                        (λ i lt.
                          ap (cell bits q.map) {x = start bits q + n + i} {y = p + i}
                            (omega (arith, here))
                          ∙ sym (
                              cell-update bits q.map q.chunk_s none (p + i)
                                (div-ne_above bits q.chunk_s (p + i) (omega arith))))
                        rest;
                  owned = λ c. ground (arith, rep.owned c);
                  room = rep.room;
                  some_room = rep.some_room;
                  fits = rep.fits;
                };
                moved = omega (arith, here);
                same_end = (refl, refl);
              },
            )
      ]

  -- An empty queue's two ends are the same.
  pub ends_meet : (q : Que A) → Rep bits q [] → (q.chunk_s ≡ q.chunk_e) × (q.os_s ≡ q.os_e)
  ends_meet q r =
      let le = chunk-le bits q.chunk_s q.os_s q.chunk_e q.os_e r.os_s_in r.os_e_in in
      let ge = chunk-le bits q.chunk_e q.os_e q.chunk_s q.os_s r.os_e_in r.os_s_in in
      let same : q.chunk_s ≡ q.chunk_e =
        omega (arith, le (omega (arith, r.span)), ge (omega (arith, r.span))) in
      (same, omega (arith, r.span, ap (λ (t : ℕ). t * ents bits) same))

  pub is_empty-nil : (q : Que A) → Rep bits q [] → is_empty q ≡ true
  is_empty-nil q r = ground (arith, ends_meet q r)

  pub is_empty-cons : (q : Que A) (x : A) (xs : List A) → Rep bits q (x ∷ xs) → is_empty q ≡ false
  is_empty-cons q x xs r =
      let apart : (q.chunk_e ≡ q.chunk_s) → (q.os_e ≡ q.os_s) → ⊥ =
        λ a b. omega (arith, r.span, ap (λ (t : ℕ). t * ents bits) a, b) in
      elim (ℕ_discrete q.chunk_e q.chunk_s) [
        | no ne ↦ ground (arith, ne)
        | yes e ↦ let ne : q.os_e ≢ q.os_s = apart e in ground (arith, ne)
      ]

  -- The reset of an empty queue frees its last chunk, if there is one.
  pub trim_empty-Rep :
      (q : Que A)
      → Rep bits q []
      → (r : Que A) × (trim_empty q ≡ some r) × Rep bits r [] × (r.os_s ≡ 0) × (r.chunk_s ≡ 0)
  unfolding trim_empty
  trim_empty-Rep q r =
      let meet = ends_meet q r in
      elim (ℕ_discrete q.os_e 0) [
        | yes z ↦ (
          reset q,
          ground (arith, eq-true q.os_e 0 z),
          record {
            os_s_in = pow_pos bits;
            os_e_in = pow_pos bits;
            span = omega arith;
            holds = tt;
            owned = λ c. ground (arith, r.owned c, meet, z);
            room = omega arith;
            some_room = r.some_room;
            fits = r.fits;
          },
          refl,
          refl,
        )
        | no nz ↦ elim (Option-cases (q.map q.chunk_e)) [
          | inl dead ↦ absurd (ground (arith, dead, r.owned q.chunk_e, meet, nz))
          | inr (ch, live) ↦
              let in_map : q.chunk_e < q.mapcap = ground (arith, r.room, nz) in
              let freed = free_chunk_lem q q.chunk_e ch live in_map in
              (
                reset (record q { map = update q.map q.chunk_e none }),
                ground (arith, eq-false q.os_e 0 nz, freed),
                record {
                  os_s_in = pow_pos bits;
                  os_e_in = pow_pos bits;
                  span = omega arith;
                  holds = tt;
                  owned = λ c. ground (arith, r.owned c, meet, nz);
                  room = omega arith;
                  some_room = r.some_room;
                  fits = r.fits;
                },
                refl,
                refl,
              )
        ]
      ]
