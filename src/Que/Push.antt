-- ===== src/Que/Push.antt =====
-- `rsv1` and the caller's store: appending to the queue.
use iel.Base.{ℕ, ◌+◌, ◌*◌, ◌^◌, ◌<◌, ◌≡◌, ◌≢◌, ◌⊎◌, sym}
use iel.Base.{Bool, true, false, Option, none, some, List, [], ◌∷◌, ◌++◌}
use iel.Base.{arith, leb, u64}
use iel.Que.{Que, Chunk, Alloc, Slot, update, mapsz4, rsv1, store, push, advance}
use iel.Base.{Bool-cases, Option-cases, inl, inr}
use iel.Que.{grow_map, put_chunk, chunk_at}
use iel.Que.Rep.{Rep, start, chunk-le}
use iel.Que.Rep.{Holds-move, cell-update}
use native.Mathlib.Decide.{ℕ_discrete}
use mathlib.Core.Path.{subst}
use iel.Que.Ready.{Ready, Rep-Ready, advance-Rep, div-ne_below}

-- `malloc` and `realloc` grant no size above `PTRDIFF_MAX`.
abbrev pub Bounded {ℓ} : {A : Type ℓ} → Alloc A → Type 0
Bounded mem = (n : ℕ) → mem.grants n ≡ true → n < 2 ^ 63

module _ {ℓ} {A : Type ℓ} (bits : ℕ) where
  -- What an append may end in: the list is longer by the element, or the list is the same and the
  -- allocator refused the map or the chunk. A fault is no such end.
  pub data Appended (mem : Alloc A) (q : Que A) (xs : List A) (v : A)
      : Option (Bool × Que A) → Type ℓ where
    appended : {r : Que A} → Rep bits r (xs ++ v ∷ []) → Appended mem q xs v (some (true, r))
    refused :
        {r : Que A}
        → Rep bits r xs
        → (mem.chunk ≡ none) ⊎ (mem.grants (mapsz4 (u64 (q.mapcap * 2))) ≡ false)
        → Appended mem q xs v (some (false, r))

  -- The queue with room in its map for the chunk that `rsv1` is about to allocate.
  record Roomy (q : Que A) (xs : List A) : Type ℓ where
    rep : Rep bits q xs
    starts : q.os_e ≡ 0
    below : q.chunk_e < q.mapcap

  put_chunk-Ready :
      (q : Que A) (xs : List A) (ch : Chunk A)
      → Roomy q xs
      → Ready bits (record q { map = update q.map q.chunk_e (some ch) }) xs
  put_chunk-Ready q xs ch r =
      let rep = r.rep in
      let order =
        chunk-le bits q.chunk_s q.os_s q.chunk_e q.os_e rep.os_s_in rep.os_e_in
          (omega (arith, rep.span)) in
      record {
        os_s_in = rep.os_s_in;
        os_e_in = rep.os_e_in;
        span = rep.span;
        holds =
            Holds-move bits q.map _ (start bits q) (start bits q) xs
              (λ i lt. sym (
                cell-update bits q.map q.chunk_e (some ch) (start bits q + i)
                  (div-ne_below bits q.chunk_e _ (omega (arith, rep.span, r.starts)))))
              rep.holds;
        owned = λ c. ground (arith, rep.owned c, order, r.starts);
        room = r.below;
        fits = rep.fits;
      }

  grow_map-cases :
      (mem : Alloc A) (q : Que A) (xs : List A)
      → Bounded mem
      → Rep bits q xs
      → q.os_e ≡ 0
      → ((grow_map mem q ≡ none) × (mem.grants (mapsz4 (u64 (q.mapcap * 2))) ≡ false))
        ⊎ ((r : Que A) × (grow_map mem q ≡ some r) × Roomy r xs)
  unfolding grow_map
  grow_map-cases mem q xs ok rep z = elim (Bool-cases (leb q.mapcap q.chunk_e)) [
    | inr below ↦
        inr (
          q,
          ground (arith, below),
          record { rep = rep; starts = z; below = ground (arith, below) },
        )
    | inl past ↦ elim (Bool-cases (mem.grants (mapsz4 (u64 (q.mapcap * 2))))) [
      | inr denied ↦ inl (ground (arith, past, denied), denied)
      | inl granted ↦
          let new = u64 (q.mapcap * 2) in
          let double : new ≡ q.mapcap * 2 = omega (arith, rep.fits) in
          let small = ok (mapsz4 new) granted in
          inr (
            record q { mapcap = new },
            ground (arith, past, granted),
            record {
              rep = record {
                os_s_in = rep.os_s_in;
                os_e_in = rep.os_e_in;
                span = rep.span;
                holds = rep.holds;
                owned = rep.owned;
                room = ground (arith, rep.room, double);
                some_room = omega (arith, rep.some_room, double);
                fits = omega (arith, small, rep.fits);
              };
              starts = z;
              below = ground (arith, rep.room, rep.some_room, double, z);
            },
          )
    ]
  ]

  -- The store through the slot of a queue whose last chunk is live.
  store-advance :
      (q : Que A) (xs : List A) (v : A)
      → Ready bits q xs
      → (r : Que A) × (store bits (advance bits q) (record { chunk = q.chunk_e; os = q.os_e }) v
          ≡ some r)
        × Rep bits r (xs ++ v ∷ [])
  unfolding store chunk_at
  store-advance q xs v r = elim (Option-cases (q.map q.chunk_e)) [
    | inl dead ↦ absurd (
        ground (
          arith,
          dead,
          r.owned q.chunk_e,
          chunk-le bits q.chunk_s q.os_s q.chunk_e q.os_e r.os_s_in r.os_e_in
              (omega (arith, r.span)),
        ))
    | inr (ch, live) ↦ (
      record (advance bits q) { map = update q.map q.chunk_e (some (update ch q.os_e v)) },
      ground (arith, live, r.room, r.os_e_in),
      advance-Rep bits q xs v ch r live,
    )
  ]

  slot_of : Que A → Slot
  slot_of q = record { chunk = q.chunk_e; os = q.os_e }

  -- The four ways through `rsv1`.
  rsv1-inside :
      (mem : Alloc A) (q : Que A)
      → q.os_e ≢ 0
      → rsv1 bits mem q ≡ some (some (slot_of q), advance bits q)
  unfolding rsv1 slot_of
  rsv1-inside mem q ne = ground (arith, ne)

  rsv1-no_map :
      (mem : Alloc A) (q : Que A)
      → q.os_e ≡ 0
      → grow_map mem q ≡ none
      → rsv1 bits mem q ≡ some (none, q)
  unfolding rsv1
  rsv1-no_map mem q z e = ground (arith, z, e)

  rsv1-no_chunk :
      (mem : Alloc A) (q : Que A) {r : Que A}
      → q.os_e ≡ 0
      → grow_map mem q ≡ some r
      → mem.chunk ≡ none
      → rsv1 bits mem q ≡ some (none, r)
  unfolding rsv1
  rsv1-no_chunk mem q z e n = ground (arith, z, e, n)

  abbrev with_chunk : Que A → Chunk A → Que A
  with_chunk q ch = record q { map = update q.map q.chunk_e (some ch) }

  put_chunk_lem :
      (q : Que A) (ch : Chunk A) → q.chunk_e < q.mapcap → put_chunk q ch ≡ some (with_chunk q ch)
  unfolding put_chunk
  put_chunk_lem q ch lt = ground (arith, lt)

  rsv1-new :
      (mem : Alloc A) (q r : Que A) (ch : Chunk A)
      → q.os_e ≡ 0
      → grow_map mem q ≡ some r
      → mem.chunk ≡ some ch
      → r.chunk_e < r.mapcap
      → rsv1 bits mem q ≡ some (some (slot_of (with_chunk r ch)), advance bits (with_chunk r ch))
  unfolding rsv1 slot_of
  rsv1-new mem q r ch z e n lt = ground (arith, z, e, n, put_chunk_lem r ch lt)

  -- The caller's store into the slot of a ready queue ends the append.
  finish_push :
      (mem : Alloc A) (q r : Que A) (xs : List A) (v : A)
      → Ready bits r xs
      → rsv1 bits mem q ≡ some (some (slot_of r), advance bits r)
      → Appended mem q xs v (push bits mem q v)
  unfolding push slot_of
  finish_push mem q r xs v ready e =
      let (r', stored, rep) = store-advance r xs v ready in
      subst (Appended mem q xs v) (sym (ground (arith, e, stored))) (appended rep)

  fail_push :
      (mem : Alloc A) (q r : Que A) (xs : List A) (v : A)
      → Rep bits r xs
      → (mem.chunk ≡ none) ⊎ (mem.grants (mapsz4 (u64 (q.mapcap * 2))) ≡ false)
      → rsv1 bits mem q ≡ some (none, r)
      → Appended mem q xs v (push bits mem q v)
  unfolding push
  fail_push mem q r xs v rep why e =
      subst (Appended mem q xs v) (sym (ground (arith, e))) (refused rep why)

  -- Appending to a queue that holds `xs` never faults: it holds `xs` and the element after it, in
  -- the order of the calls, or the allocator refused and it still holds `xs`.
  pub push-Appended :
      (mem : Alloc A) (q : Que A) (xs : List A) (v : A)
      → Bounded mem
      → Rep bits q xs
      → Appended mem q xs v (push bits mem q v)
  push-Appended mem q xs v ok rep = elim (ℕ_discrete q.os_e 0) [
    | no inside ↦
        finish_push mem q q xs v (Rep-Ready bits q xs inside rep) (rsv1-inside mem q inside)
    | yes z ↦ elim (grow_map-cases mem q xs ok rep z) [
      | inl (e, denied) ↦ fail_push mem q q xs v rep (inr denied) (rsv1-no_map mem q z e)
      | inr (r, e, roomy) ↦ elim (Option-cases mem.chunk) [
        | inl n ↦ fail_push mem q r xs v roomy.rep (inl n) (rsv1-no_chunk mem q z e n)
        | inr (ch, n) ↦
            finish_push mem q (with_chunk r ch) xs v (put_chunk-Ready r xs ch roomy)
              (rsv1-new mem q r ch z e n roomy.below)
      ]
    ]
  ]
