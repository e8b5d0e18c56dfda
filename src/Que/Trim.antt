-- ===== src/Que/Trim.antt =====
-- `trim` and `qtrim`: the map is compacted.
use iel.Base.{ℕ, ◌+◌, ◌-◌, ◌*◌, ◌/◌, ◌%◌, ◌^◌, ◌≤◌, ◌<◌, ◌≡◌, ◌≢◌, refl, sym, ap, ◌∙◌}
use iel.Base.{true, false, not, ◌||◌, Option, none, some, List, [], ◌∷◌, ◌>>=◌}
use iel.Base.{arith, ltb, leb, ◌==◌, if◌then◌else◌, Bool-cases, Option-cases, inl, inr}
use iel.Base.{eq-true, eq-false, add64, sub64}
use iel.Base.Bits.{pow_pos}
use native.Mathlib.Nat.{add_comm, mul-add-div_right, mul-add-mod_self_right, div-lt_iff_lt-mul}
use native.Mathlib.Decide.{ℕ_discrete}
use mathlib.Core.Path.{ap₂}
use iel.Que.{Que, Map, Alloc, ents, update, mapsz4, move_map, shift_map, trim, qtrim}
use iel.Que.{free_chunk}
use iel.Que.Rep.{Rep, cell, element, top, start, finish, chunk-le, Holds-move}
use iel.Que.Front.{ends_meet, free_chunk_lem}

module _ {ℓ} {A : Type ℓ} (bits : ℕ) where
  -- No element lies past the chunks in use.
  finish-le-top : (q : Que A) → q.os_e < ents bits → finish bits q ≤ top q * ents bits
  finish-le-top q h = elim (ℕ_discrete q.os_e 0) [
    | yes z ↦ rw (eq-true _ 0 z) (omega (arith, z))
    | no nz ↦ rw (eq-false _ 0 nz) (omega arith)
  ]

  start-le-top : (q : Que A) (xs : List A) → Rep bits q xs → q.chunk_s ≤ top q
  start-le-top q xs r =
      let order =
        chunk-le bits q.chunk_s q.os_s q.chunk_e q.os_e r.os_s_in r.os_e_in
          (omega (arith, r.span)) in
      ground (arith, order)

  -- The cells of the moved map.
  cell-move_map :
      (m : Map A) (offs sz y : ℕ)
      → y < sz * ents bits
      → cell bits m (offs * ents bits + y) ≡ cell bits (move_map m offs sz) y
  unfolding cell
  cell-move_map m offs sz y h =
      let index = mul-add-div_right (pow_pos bits) offs y in
      let inside : y / ents bits < sz = (div-lt_iff_lt-mul (pow_pos bits)).1 h in
      let t : ltb (y / ents bits) sz ≡ true = ground arith in
      ap₂ (λ c o. element (m c) o) (index ∙ add_comm offs (y / ents bits))
        (mul-add-mod_self_right offs (ents bits) y)
      ∙ ap (λ s. element s (y % ents bits)) (sym (rw t refl))

  abbrev compacted : Que A → ℕ → ℕ → Que A
  compacted q sz newcap = record q {
    map = move_map q.map q.chunk_s sz;
    mapcap = newcap;
    chunk_s = 0;
    chunk_e = sub64 q.chunk_e q.chunk_s;
  }

  compacted-Rep :
      (q : Que A) (xs : List A) (sz newcap : ℕ)
      → Rep bits q xs
      → q.chunk_s + sz ≡ top q
      → sz ≤ newcap
      → 0 < newcap
      → newcap < 2 ^ 60
      → Rep bits (compacted q sz newcap) xs
  compacted-Rep q xs sz newcap r e fit pos small =
      let order =
        chunk-le bits q.chunk_s q.os_s q.chunk_e q.os_e r.os_s_in r.os_e_in
          (omega (arith, r.span)) in
      let bounded : q.chunk_e < 2 ^ 60 + 1 = ground (arith, r.room, r.fits) in
      let end : sub64 q.chunk_e q.chunk_s ≡ q.chunk_e - q.chunk_s = omega arith in
      let new_top : top (compacted q sz newcap) ≡ sz = ground (arith, e, end, order) in
      let split : q.chunk_e ≡ q.chunk_s + sub64 q.chunk_e q.chunk_s = omega (arith, end, order) in
      let scaled = ap (λ (t : ℕ). t * ents bits) split in
      let inside = finish-le-top q r.os_e_in in
      let top_scaled = ap (λ (t : ℕ). t * ents bits) e in
      record {
        os_s_in = r.os_s_in;
        os_e_in = r.os_e_in;
        span = omega (arith, r.span, scaled);
        holds =
            Holds-move bits q.map (move_map q.map q.chunk_s sz) (start bits q)
              (0 * ents bits + q.os_s) xs
              (λ i lt.
                ap (cell bits q.map) {x = start bits q + i}
                  {y = q.chunk_s * ents bits + (q.os_s + i)} (omega arith)
                ∙ cell-move_map q.map q.chunk_s sz (q.os_s + i)
                    (omega (arith, r.span, inside, top_scaled))
                ∙ ap (cell bits (move_map q.map q.chunk_s sz)) {y = 0 * ents bits + q.os_s + i}
                    (omega arith))
              r.holds;
        owned = λ c. rw new_top (ground (arith, r.owned c, r.owned (c + q.chunk_s), e));
        room = rw new_top fit;
        some_room = pos;
        fits = small;
      }

  pub record Trimmed (xs : List A) (res : Option (Que A)) : Type ℓ where
    pub left : Que A
    pub result : res ≡ some left
    pub rep : Rep bits left xs
    pub front : left.chunk_s ≡ 0
    pub freed : xs ≡ [] → (c : ℕ) → left.map c ≡ none

  -- An empty queue at the front of its map with no chunk in use has no chunk.
  no_chunk :
      (q : Que A) (xs : List A)
      → Rep bits q xs
      → xs ≡ []
      → q.os_e ≡ 0
      → q.chunk_s ≡ 0
      → (c : ℕ) → q.map c ≡ none
  no_chunk q [] r e z front c = elim (Option-cases (q.map c)) [
    | inl dead ↦ dead
    | inr (ch, live) ↦ absurd (ground (arith, live, r.owned c, ends_meet bits q r, z, front))
  ]
  no_chunk q (x ∷ xs) r e z front c = absurd cc

  shift_map-Trimmed :
      (minchunks : ℕ) (mem : Alloc A) (q : Que A) (xs : List A) (sz : ℕ)
      → 0 < minchunks
      → minchunks < 2 ^ 60
      → Rep bits q xs
      → q.chunk_s + sz ≡ top q
      → (xs ≡ [] → q.os_e ≡ 0)
      → Trimmed xs (shift_map minchunks mem q sz)
  unfolding shift_map
  shift_map-Trimmed minchunks mem q xs sz pos small r e idle =
      let newcap = if ltb sz minchunks then minchunks else sz in
      let in_map : leb (q.chunk_s + sz) q.mapcap ≡ true = ground (arith, e, r.room) in
      let smaller =
        compacted-Rep q xs sz newcap r e (ground arith) (ground arith)
          (ground (arith, r.room, r.fits)) in
      let kept = compacted-Rep q xs sz q.mapcap r e (omega (arith, e, r.room)) r.some_room r.fits in
      elim (Bool-cases (mem.grants (mapsz4 newcap))) [
        | inl granted ↦ record {
          left = compacted q sz newcap;
          result = rw (in_map, granted);
          rep = smaller;
          front = refl;
          freed = λ empty. no_chunk (compacted q sz newcap) xs smaller empty (idle empty) refl;
        }
        | inr denied ↦ record {
          left = compacted q sz q.mapcap;
          result = rw (in_map, denied);
          rep = kept;
          front = refl;
          freed = λ empty. no_chunk (compacted q sz q.mapcap) xs kept empty (idle empty) refl;
        }
      ]

  pub start-le-end : (q : Que A) (xs : List A) → Rep bits q xs → q.chunk_s ≤ q.chunk_e
  start-le-end q xs r =
      chunk-le bits q.chunk_s q.os_s q.chunk_e q.os_e r.os_s_in r.os_e_in (omega (arith, r.span))

  -- The chunk of an empty queue, freed.
  freed-Rep :
      (q : Que A)
      → Rep bits q []
      → q.os_e ≢ 0
      → (free_chunk q q.chunk_e ≡ some (record q { map = update q.map q.chunk_e none }))
        × Rep bits (record q { map = update q.map q.chunk_e none; os_s = 0; os_e = 0 }) []
  freed-Rep q r nz = elim (Option-cases (q.map q.chunk_e)) [
    | inl dead ↦ absurd (ground (arith, dead, r.owned q.chunk_e, ends_meet bits q r, nz))
    | inr (ch, live) ↦ (
      free_chunk_lem bits q q.chunk_e ch live (ground (arith, r.room, nz)),
      record {
        os_s_in = pow_pos bits;
        os_e_in = pow_pos bits;
        span = omega (arith, ap (λ (t : ℕ). t * ents bits) (ends_meet bits q r).0);
        holds = tt;
        owned = λ c. ground (arith, r.owned c, ends_meet bits q r, nz);
        room = ground (arith, r.room, nz);
        some_room = r.some_room;
        fits = r.fits;
      },
    )
  ]

  -- `trim` where the last chunk is allocated.
  trim_used :
      (minchunks : ℕ) (mem : Alloc A) (q : Que A) (xs : List A)
      → 0 < minchunks
      → minchunks < 2 ^ 60
      → Rep bits q xs
      → q.os_e ≢ 0
      → let sz = sub64 q.chunk_e q.chunk_s in
        Trimmed xs (
          if not (sz == 0) || not (q.os_e == q.os_s)
          then shift_map minchunks mem q (add64 sz 1)
          else (free_chunk q q.chunk_e >>= λ r.
              shift_map minchunks mem (record r { os_s = 0; os_e = 0 }) sz))
  trim_used minchunks mem q [] pos small r nz =
      let meet = ends_meet bits q r in
      let sz : sub64 q.chunk_e q.chunk_s ≡ 0 = ground (arith, meet, r.room, r.fits) in
      let idle : (not (sub64 q.chunk_e q.chunk_s == 0) || not (q.os_e == q.os_s)) ≡ false =
        ground (arith, meet, sz) in
      let freed = freed-Rep q r nz in
      rw (idle, freed.0)
        (shift_map-Trimmed minchunks mem
          (record q { map = update q.map q.chunk_e none; os_s = 0; os_e = 0 }) []
          (sub64 q.chunk_e q.chunk_s) pos small freed.1 (ground (arith, meet, sz)) (λ _. refl))
  trim_used minchunks mem q (x ∷ xs) pos small r nz =
      let order = start-le-end q (x ∷ xs) r in
      let bounded : q.chunk_e < 2 ^ 60 + 1 = ground (arith, r.room, r.fits) in
      let chunks : sub64 q.chunk_e q.chunk_s ≡ q.chunk_e - q.chunk_s = omega (arith, order) in
      let apart : q.chunk_e ≡ q.chunk_s → q.os_e ≢ q.os_s =
        λ a b. omega (arith, r.span, ap (λ (t : ℕ). t * ents bits) a, b) in
      let busy : (not (sub64 q.chunk_e q.chunk_s == 0) || not (q.os_e == q.os_s)) ≡ true =
        elim (ℕ_discrete q.chunk_e q.chunk_s) [
          | yes same ↦ let ne = apart same in ground (arith, ne)
          | no ne ↦ ground (arith, ne, chunks, order)
        ] in
      rw busy (
        shift_map-Trimmed minchunks mem q (x ∷ xs) (add64 (sub64 q.chunk_e q.chunk_s) 1) pos small r
          (ground (arith, chunks, order, nz)) (λ e. absurd cc))

  -- `trim` keeps the elements and moves the chunks to the front of the map, whether or not
  -- `realloc` then grants the smaller map; the chunk of an empty queue is freed, so that no chunk
  -- is left.
  pub trim-Trimmed :
      (minchunks : ℕ) (mem : Alloc A) (q : Que A) (xs : List A)
      → 0 < minchunks
      → minchunks < 2 ^ 60
      → Rep bits q xs
      → Trimmed xs (trim minchunks mem q)
  unfolding trim
  trim-Trimmed minchunks mem q xs pos small r =
      let order = start-le-end q xs r in
      let bounded : q.chunk_e < 2 ^ 60 + 1 = ground (arith, r.room, r.fits) in
      let chunks : sub64 q.chunk_e q.chunk_s ≡ q.chunk_e - q.chunk_s = omega (arith, order) in
      elim (ℕ_discrete q.os_e 0) [
        | yes z ↦ rw (eq-true _ 0 z) (
            shift_map-Trimmed minchunks mem q xs (sub64 q.chunk_e q.chunk_s) pos small r
              (ground (arith, chunks, order, z)) (λ _. z))
        | no nz ↦ rw (eq-false _ 0 nz) (trim_used minchunks mem q xs pos small r nz)
      ]

  -- `qtrim` is `trim` or nothing.
  pub qtrim-Rep :
      (minchunks : ℕ) (mem : Alloc A) (q : Que A) (xs : List A)
      → 0 < minchunks
      → minchunks < 2 ^ 60
      → Rep bits q xs
      → (r : Que A) × (qtrim minchunks mem q ≡ some r) × Rep bits r xs
  unfolding qtrim
  qtrim-Rep minchunks mem q xs pos small r =
      elim (Bool-cases (ltb 4096 q.chunk_s || ltb (q.mapcap / 2 ^ 3) q.chunk_s)) [
        | inl often ↦
            let t = trim-Trimmed minchunks mem q xs pos small r in
            (t.left, rw often t.result, t.rep)
        | inr seldom ↦ (q, rw seldom, r)
      ]
