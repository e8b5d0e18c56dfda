-- ===== src/Que/Pop.antt =====
-- `size`, `init` and `pop1` against the list that the queue holds.
use iel.Base.{Bool, ℕ, ◌+◌, ◌-◌, ◌*◌, ◌%◌, ◌^◌, ◌≤◌, ◌<◌, ◌≡◌, ◌⊎◌, refl, sym, ap, ◌∙◌}
use iel.Base.{false, ◌&&◌, Option, none, some, List, [], ◌∷◌, ◌>>=◌}
use iel.Base.{arith, ltb, ◌==◌, if◌then◌else◌, length, Bool-cases, inl, inr}
use iel.Base.Bits.{pow_pos}
use mathlib.Core.Path.{subst}
use mathlib.Core.Option.{some-injective}
use native.Mathlib.Nat.{pow-le-pow_right}
use iel.Base.{sub64}
use iel.Que.{Que, Alloc, Popped, empty, more, last, ents, init, size, pop1, load, chunk_at, mapsz4}
use iel.Que.{is_empty, leave_chunk, trim_empty}
use iel.Que.Rep.{start, Rep, element, chunk-le, cell-field}
use iel.Que.Front.{first_chunk, leave-Left, is_empty-nil, is_empty-cons, trim_empty-Rep}
use iel.Que.Push.{Bounded}

module _ {ℓ} {A : Type ℓ} (bits : ℕ) where
  -- A queue that `init` accepts is empty, and owns no chunk.
  pub init-Rep :
      (minchunks initcap : ℕ) (mem : Alloc A) {q : Que A}
      → Bounded mem
      → 0 < minchunks
      → minchunks < 2 ^ 60
      → initcap < 2 ^ 60
      → init minchunks mem initcap ≡ some q
      → Rep bits q []
  unfolding init
  init-Rep minchunks initcap mem {q} ok pos small fits e =
      elim (Bool-cases
        (mem.grants (mapsz4 (if ltb initcap minchunks then minchunks else initcap)))) [
          | inr denied ↦ cc (rw denied at e)
          | inl granted ↦
              subst (λ r. Rep bits r []) (some-injective _ _ (rw granted at e))
                (record {
                  os_s_in = pow_pos bits;
                  os_e_in = pow_pos bits;
                  span = omega arith;
                  holds = tt;
                  owned = λ c. ground arith;
                  room = omega arith;
                  some_room = ground arith;
                  fits = ground arith;
                })
        ]

  -- `init` fails only where the allocator refuses the map.
  pub init-refused :
      (minchunks initcap : ℕ) (mem : Alloc A)
      → init minchunks mem initcap ≡ none
      → mem.grants (mapsz4 (if ltb initcap minchunks then minchunks else initcap)) ≡ false
  unfolding init
  init-refused minchunks initcap mem e = ground (arith, e)

  -- `size` is the number of elements, if that is below 2 ^ 64.
  pub size-length :
      (q : Que A) (xs : List A)
      → bits ≤ 32
      → Rep bits q xs
      → length xs < 2 ^ 64
      → size bits q ≡ length xs
  unfolding size
  size-length q xs width r small =
      let order =
        chunk-le bits q.chunk_s q.os_s q.chunk_e q.os_e r.os_s_in r.os_e_in
          (omega (arith, r.span)) in
      let bounded = pow-le-pow_right {n = 2} (omega arith) {i = bits} {j = 32} width in
      let end_small : q.chunk_e < 2 ^ 60 + 1 = ground (arith, r.room, r.fits) in
      let chunks : sub64 q.chunk_e q.chunk_s ≡ q.chunk_e - q.chunk_s = omega arith in
      let whole : q.chunk_e ≡ q.chunk_s + (q.chunk_e - q.chunk_s) = omega arith in
      rw chunks
        (omega (arith, r.span, ap (λ (t : ℕ). t * ents bits) whole, r.os_s_in, r.os_e_in, bounded))

  load-head :
      (q : Que A) (x : A) (xs : List A)
      → Rep bits q (x ∷ xs)
      → load bits q q.chunk_s q.os_s ≡ some x
  unfolding load chunk_at element
  load-head q x xs r =
      let (ch, live, in_map, order) = first_chunk bits q (x ∷ xs) r (omega arith) in
      let here = sym (cell-field bits q.map q.chunk_s q.os_s r.os_s_in) ∙ r.holds.0 in
      ground (arith, live, in_map, r.os_s_in, here)

  -- What `pop1` may end in on a queue that holds `x` and then `xs`: 1 if nothing is left or the
  -- stop position is reached, 0 otherwise.
  pub data Took (x : A) (xs : List A) (chunk_stop os_stop : ℕ)
      : Option (Popped A × Que A) → Type ℓ where
    took_last :
        {r : Que A}
        → Rep bits r xs
        → (xs ≡ []) ⊎ ((r.chunk_s ≡ chunk_stop) × (r.os_s ≡ os_stop))
        → Took x xs chunk_stop os_stop (some (last x, r))
    took_more :
        {r : Que A}
        → Rep bits r xs
        → 0 < length xs
        → ¬ ((r.chunk_s ≡ chunk_stop) × (r.os_s ≡ os_stop))
        → Took x xs chunk_stop os_stop (some (more x, r))

  -- `pop1` refuses an empty queue and leaves it as it is.
  pub pop1-nil :
      (q : Que A) (chunk_stop os_stop : ℕ)
      → Rep bits q []
      → pop1 bits q chunk_stop os_stop ≡ some (empty, q)
  unfolding pop1
  pop1-nil q chunk_stop os_stop r = ground (arith, is_empty-nil bits q r)

  pop1-cons_step :
      (q r : Que A) (x : A) (xs : List A) (chunk_stop os_stop : ℕ)
      → Rep bits q (x ∷ xs)
      → leave_chunk bits (record q { os_s = (q.os_s + 1) % ents bits }) ≡ some r
      → pop1 bits q chunk_stop os_stop ≡ (
          if is_empty r
          then (trim_empty r >>= λ r'. some (last x, r'))
          else if chunk_stop == r.chunk_s && os_stop == r.os_s
          then some (last x, r)
          else some (more x, r))
  unfolding pop1
  pop1-cons_step q r x xs chunk_stop os_stop rep e =
      rw (is_empty-cons bits q x xs rep, load-head q x xs rep, e)

  -- `pop1` takes the first element, without a fault and with its chunk freed when it is used up.
  pub pop1-Took :
      (q : Que A) (x : A) (xs : List A) (chunk_stop os_stop : ℕ)
      → Rep bits q (x ∷ xs)
      → Took x xs chunk_stop os_stop (pop1 bits q chunk_stop os_stop)
  pop1-Took q x xs chunk_stop os_stop rep =
      let (r, e, left) =
        leave-Left bits q (x ∷ xs) 1 rep (omega arith) (omega arith) (omega (arith, rep.os_s_in)) in
      rw (pop1-cons_step q r x xs chunk_stop os_stop rep e) (ends xs r left.rep)
    where
      ends :
          (ys : List A) (r : Que A)
          → Rep bits r ys
          → Took x ys chunk_stop os_stop (
              if is_empty r
              then (trim_empty r >>= λ r'. some (last x, r'))
              else if chunk_stop == r.chunk_s && os_stop == r.os_s
              then some (last x, r)
              else some (more x, r))
      ends [] r left =
          let (r', trimmed, rep', first_os, first_chunk_idx) = trim_empty-Rep bits r left in
          rw (is_empty-nil bits r left, trimmed) (took_last rep' (inl refl))
      ends (y ∷ ys) r left =
          rw (is_empty-cons bits r y ys left)
            (elim (Bool-cases (chunk_stop == r.chunk_s && os_stop == r.os_s)) [
              | inl stop ↦ rw stop (took_last left (inr (ground (arith, stop))))
              | inr go ↦ rw go (took_more left (omega arith) (λ s. ground (arith, go, s)))
            ])

  -- Where `pop1` stands afterwards, if it leaves an element: one position on.
  pub pop1-cons_moved :
      (q : Que A) (x y : A) (ys : List A) (chunk_stop os_stop : ℕ)
      → Rep bits q (x ∷ y ∷ ys)
      → (r : Que A) × Rep bits r (y ∷ ys)
        × (start bits r ≡ start bits q + 1)
        × (pop1 bits q chunk_stop os_stop ≡ (
            if chunk_stop == r.chunk_s && os_stop == r.os_s
            then some (last x, r)
            else some (more x, r)))
  pop1-cons_moved q x y ys chunk_stop os_stop rep =
      let (r, e, left) =
        leave-Left bits q (x ∷ y ∷ ys) 1 rep (omega arith) (omega arith)
          (omega (arith, rep.os_s_in)) in
      (
        r,
        left.rep,
        left.moved,
        pop1-cons_step q r x (y ∷ ys) chunk_stop os_stop rep e
            ∙ ap
                (λ (b : Bool).
                  if b
                  then (trim_empty r >>= λ r'. some (last x, r'))
                  else if chunk_stop == r.chunk_s && os_stop == r.os_s
                  then some (last x, r)
                  else some (more x, r))
                (is_empty-cons bits r y ys left.rep),
      )

  pub pop1-one :
      (q : Que A) (x : A) (chunk_stop os_stop : ℕ)
      → Rep bits q (x ∷ [])
      → (r : Que A) × Rep bits r [] × (pop1 bits q chunk_stop os_stop ≡ some (last x, r))
  pop1-one q x chunk_stop os_stop rep =
      let (r, e, left) =
        leave-Left bits q (x ∷ []) 1 rep (omega arith) (omega arith) (omega (arith, rep.os_s_in)) in
      let (r', trimmed, rep', first_os, first_chunk_idx) = trim_empty-Rep bits r left.rep in
      (
        r',
        rep',
        pop1-cons_step q r x [] chunk_stop os_stop rep e
            ∙ rw (is_empty-nil bits r left.rep, trimmed) refl,
      )
