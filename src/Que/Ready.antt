-- ===== src/Que/Ready.antt =====
-- The queue whose last chunk is allocated, and the element that then goes to its end.
use iel.Base.{ℕ, suc, ◌+◌, ◌*◌, ◌/◌, ◌%◌, ◌^◌, ◌<◌, ◌≡◌, ◌≢◌, sym, ap, ◌∙◌}
use iel.Base.{◌&&◌, some, is_some, List, [], ◌∷◌, ◌++◌}
use iel.Base.{arith, ltb, leb, length, length-append}
use iel.Base.Bits.{pow_pos}
use native.Mathlib.Nat.{mod-eq_of_lt, mod_self, div-lt_iff_lt-mul}
use iel.Que.{Que, Chunk, ents, update, advance}
use iel.Que.Rep.{Rep, Holds, cell, top, start, finish, chunk-le}
use iel.Que.Rep.{Holds-move, Holds-append, cell-write, cell-write_self}
use native.Mathlib.Decide.{dec_lt}

-- A position before chunk `k` lies in another chunk.
pub div-ne_below : (bits k p : ℕ) → p < k * ents bits → p / ents bits ≢ k
div-ne_below bits k p h e = absurd (omega (arith, (div-lt_iff_lt-mul (pow_pos bits)).1 h, e))

module _ {ℓ} {A : Type ℓ} (bits : ℕ) where
  -- The queue with the chunk of its last position allocated, as `rsv1` has it at its end.
  pub record Ready (q : Que A) (xs : List A) : Type ℓ where
    pub os_s_in : q.os_s < ents bits
    pub os_e_in : q.os_e < ents bits
    pub span : start bits q + length xs ≡ finish bits q
    pub holds : Holds bits q.map (start bits q) xs
    pub owned : (c : ℕ) → is_some (q.map c) ≡ (leb q.chunk_s c && ltb c (suc q.chunk_e))
    pub room : q.chunk_e < q.mapcap
    pub fits : q.mapcap < 2 ^ 60

  pub Rep-Ready : (q : Que A) (xs : List A) → q.os_e ≢ 0 → Rep bits q xs → Ready q xs
  Rep-Ready q xs ne r = record {
    os_s_in = r.os_s_in;
    os_e_in = r.os_e_in;
    span = r.span;
    holds = r.holds;
    owned = λ c. ground (arith, r.owned c);
    room = ground arith;
    fits = r.fits;
  }

  -- Both ways in which the end moves on by one element.
  pub advance_span :
      (q : Que A)
      → q.os_e < ents bits
      → q.chunk_e < 2 ^ 60
      → (finish bits (advance bits q) ≡ suc (finish bits q))
        × (top (advance bits q) ≡ suc q.chunk_e)
        × ((advance bits q).os_e < ents bits)
  advance_span q h small = elim (dec_lt (suc q.os_e) (ents bits)) [
    | yes inside ↦
        let m : (q.os_e + 1) % ents bits ≡ q.os_e + 1 = mod-eq_of_lt (omega arith) in
        ground (arith, m)
    | no end ↦
        let full : q.os_e + 1 ≡ ents bits = omega arith in
        let m : (q.os_e + 1) % ents bits ≡ 0 = rw full (mod_self (ents bits)) in
        let next : (advance bits q).chunk_e ≡ q.chunk_e + 1 = ground (arith, m) in
        (
          omega (arith, ap (λ (t : ℕ). t * ents bits) next, m, full),
          ground (arith, next, m),
          omega (arith, m, pow_pos bits),
        )
  ]

  pub advance-Rep :
      (q : Que A) (xs : List A) (v : A) (ch : Chunk A)
      → Ready q xs
      → q.map q.chunk_e ≡ some ch
      → Rep bits
          (record (advance bits q) { map = update q.map q.chunk_e (some (update ch q.os_e v)) })
          (xs ++ v ∷ [])
  advance-Rep q xs v ch r live =
      let m' = update q.map q.chunk_e (some (update ch q.os_e v)) in
      let moved = advance_span q r.os_e_in (omega (arith, r.room, r.fits)) in
      let kept =
        Holds-move bits q.map m' (start bits q) (start bits q) xs
          (λ i lt. sym (
            cell-write bits q.map q.chunk_e ch q.os_e v (start bits q + i) live
              (λ e. absurd (omega (arith, r.span, e)))))
          r.holds in
      let added =
        ap (cell bits m') r.span ∙ cell-write_self bits q.map q.chunk_e ch q.os_e v r.os_e_in in
      let order =
        chunk-le bits q.chunk_s q.os_s q.chunk_e q.os_e r.os_s_in r.os_e_in
          (omega (arith, r.span)) in
      record {
        os_s_in = r.os_s_in;
        os_e_in = moved.2;
        span = omega (arith, moved, r.span, length-append xs (v ∷ []));
        holds = Holds-append bits m' (start bits q) xs v kept added;
        owned = λ c. rw moved.1 (ground (arith, r.owned c, order));
        room = omega (arith, moved, r.room);
        some_room = omega (arith, r.room);
        fits = r.fits;
      }
