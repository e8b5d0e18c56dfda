-- ===== src/Que/Reach.antt =====
-- How far the queue reaches into its map, and what an operation may ask the allocator for.
use iel.Base.{
  ℕ, zero, suc, ◌+◌, ◌-◌, ◌*◌, ◌%◌, ◌≤◌, ◌≡◌, ◌⊎◌, Bool, Option, none, some, List, [], ◌++◌, arith,
  Bool-cases, Option-cases, inl, inr, eq-false, eq-true, leb, ltb, u64, sub64, sub32, max,
  if◌then◌else◌, add64, not, ◌||◌, ◌==◌,
}
use native.Mathlib.Decide.{ℕ_discrete}
use iel.Que.{
  init, Que, Alloc, Slot, Popped, mapsz4, rsv1, store, push, chunk_at, grow_map, put_chunk, ents,
  pop1, leave_chunk, trim_empty, free_chunk, load, copy, pop_to_loop, pop_to, shift_map, trim,
}

-- The queue that is left starts where `q` does.
abbrev pub SameStart {ℓ} : {A : Type ℓ} → Que A → Que A → Type 0
SameStart q r = (r.chunk_s ≡ q.chunk_s) × (r.os_s ≡ q.os_s)

-- The map is as large as it was, or it was full and is twice as large.
abbrev pub Grown {ℓ} : {A : Type ℓ} → Que A → Que A → Type 0
Grown q r = (r.mapcap ≡ q.mapcap) ⊎ ((q.mapcap ≤ q.chunk_e) × (r.mapcap ≡ u64 (q.mapcap * 2)))

-- The map is the same, and the end of the queue is not farther into it.
abbrev pub NotFarther {ℓ} : {A : Type ℓ} → Que A → Que A → Type 0
NotFarther q r = (r.mapcap ≡ q.mapcap) × (r.chunk_e ≤ q.chunk_e) × (r.os_e ≤ q.os_e)

module _ {ℓ} {A : Type ℓ} where
  grow_map-reach :
      (mem : Alloc A) (q : Que A) {r : Que A} → grow_map mem q ≡ some r → SameStart q r × Grown q r
  unfolding grow_map
  grow_map-reach mem q e = elim (Bool-cases (leb q.mapcap q.chunk_e)) [
    | inl full ↦ elim (Bool-cases (mem.grants (mapsz4 (u64 (q.mapcap * 2))))) [
      | inl granted ↦ (
        ground (arith, e, full, granted),
        inr (ground (arith, full), ground (arith, e, full, granted)),
      )
      | inr denied ↦ absurd (ground (arith, e, full, denied))
    ]
    | inr free ↦ (ground (arith, e, free), inl (ground (arith, e, free)))
  ]

  trim_empty-reach : (q : Que A) {r : Que A} → trim_empty q ≡ some r → NotFarther q r
  unfolding trim_empty free_chunk
  trim_empty-reach q e = ground (arith, e)

  module _ (bits : ℕ) where
    leave_chunk-reach : (q : Que A) {r : Que A} → leave_chunk bits q ≡ some r → NotFarther q r
    unfolding leave_chunk free_chunk
    leave_chunk-reach q e = ground (arith, e)

    store-reach :
        (q : Que A) (s : Slot) (v : A) {r : Que A}
        → store bits q s v ≡ some r
        → SameStart q r × (r.mapcap ≡ q.mapcap)
    unfolding store chunk_at
    store-reach q s v e = ground (arith, e)

    pub rsv1-reach :
        (mem : Alloc A) (q : Que A) {s : Option Slot} {r : Que A}
        → rsv1 bits mem q ≡ some (s, r)
        → SameStart q r × Grown q r
    unfolding rsv1 put_chunk
    rsv1-reach mem q e = elim (ℕ_discrete q.os_e 0) [
      | no inside ↦ (ground (arith, e, inside), inl (ground (arith, e, inside)))
      | yes z ↦ elim (Option-cases (grow_map mem q)) [
        | inl denied ↦ (ground (arith, e, z, denied), inl (ground (arith, e, z, denied)))
        | inr (q', grown) ↦
            let reach = grow_map-reach mem q grown in ground (arith, e, z, grown, reach)
      ]
    ]

    -- An append leaves the front of the queue, and doubles the map at most, where it is full.
    pub push-reach :
        (mem : Alloc A) (q : Que A) (v : A) {b : Bool} {r : Que A}
        → push bits mem q v ≡ some (b, r)
        → SameStart q r × Grown q r
    unfolding push
    push-reach mem q v e = elim (Option-cases (rsv1 bits mem q)) [
      | inl fault ↦ absurd (ground (arith, e, fault))
      | inr ((none, q'), no_room) ↦
          let same = rsv1-reach mem q no_room in ground (arith, e, no_room, same)
      | inr ((some slot, q'), room) ↦ elim (Option-cases (store bits q' slot v)) [
        | inl fault ↦ absurd (ground (arith, e, room, fault))
        | inr (left, stored) ↦
            let reserved = rsv1-reach mem q room in
            let same = store-reach q' slot v stored in
            ground (arith, e, room, stored, reserved, same)
      ]
    ]

    pub pop1-reach :
        (q : Que A) (chunk_stop os_stop : ℕ) {p : Popped A} {r : Que A}
        → pop1 bits q chunk_stop os_stop ≡ some (p, r)
        → NotFarther q r
    unfolding pop1 load chunk_at leave_chunk trim_empty free_chunk
    pop1-reach q chunk_stop os_stop e = ground (arith, e)

    next_chunk-reach :
        (rounds : ℕ) (q : Que A) (blk : ℕ) (out : List A) {ys : List A} {r : Que A}
        → ((q' : Que A) (out' : List A) (blk' : ℕ) (zs : List A) (r' : Que A)
            → pop_to_loop bits rounds q' blk' out' ≡ some (zs, r')
            → NotFarther q' r')
        → pop_to_loop bits (suc rounds) q blk out ≡ some (ys, r)
        → NotFarther q r
    unfolding pop_to_loop copy chunk_at leave_chunk trim_empty free_chunk
    next_chunk-reach rounds q blk out {ys} {r} again e =
        let span = if q.chunk_e == q.chunk_s then sub32 q.os_e q.os_s else ents bits - q.os_s in
        let moved = record q { os_s = (q.os_s + span) % ents bits } in
        elim (Option-cases (copy bits q span)) [
          | inl fault ↦ ground (arith, e, fault)
          | inr (xs, copied) ↦ elim (Option-cases (free_chunk moved q.chunk_s)) [
            | inl fault ↦ ground (arith, e, copied, fault)
            | inr (q', freed) ↦
                let further =
                  again (record q' { chunk_s = add64 q'.chunk_s 1 }) (out ++ xs) (blk - span) ys
                    r in
                ground (arith, e, copied, freed, further)
          ]
        ]

    pop_to_loop-reach :
        (rounds : ℕ) (q : Que A) (blk : ℕ) (out : List A) {ys : List A} {r : Que A}
        → pop_to_loop bits rounds q blk out ≡ some (ys, r)
        → NotFarther q r
    unfolding pop_to_loop
    pop_to_loop-reach zero q blk out e = absurd cc
    pop_to_loop-reach (suc rounds) q blk out e =
        next_chunk-reach rounds q blk out
          (λ q' out' blk' zs r' e'. pop_to_loop-reach rounds q' blk' out' e') e

    pub pop_to-reach :
        (q : Que A) (blk : ℕ) {ys : List A} {r : Que A}
        → pop_to bits q blk ≡ some (ys, r)
        → NotFarther q r
    unfolding pop_to
    pop_to-reach q blk e = elim (ℕ_discrete blk 0) [
      | yes z ↦ ground (arith, e, z)
      | no nz ↦ pop_to_loop-reach (q.chunk_e - q.chunk_s + 1) q blk [] (rw (eq-false blk 0 nz) at e)
    ]

  -- A new queue
  pub init-ends :
      (minchunks initcap : ℕ) (mem : Alloc A) {q : Que A}
      → init minchunks mem initcap ≡ some q
      → (q.mapcap ≡ (if ltb initcap minchunks then minchunks else initcap))
        × (q.chunk_e ≡ 0)
        × (q.os_e ≡ 0)
  unfolding init
  init-ends minchunks initcap mem e = ground (arith, e)

  shift_map-reach :
      (minchunks : ℕ) (mem : Alloc A) (q : Que A) (sz : ℕ) {r : Que A}
      → shift_map minchunks mem q sz ≡ some r
      → (r.mapcap ≤ max minchunks q.mapcap)
        × (r.chunk_e ≡ sub64 q.chunk_e q.chunk_s)
        × (r.os_e ≡ q.os_e)
  unfolding shift_map
  shift_map-reach minchunks mem q sz e = ground (arith, e)

  -- `trim` moves the end of the queue down, and the map is not larger than it was or than the least.
  pub trim-reach :
      (minchunks : ℕ) (mem : Alloc A) (q : Que A) {r : Que A}
      → q.chunk_s ≤ q.chunk_e
      → trim minchunks mem q ≡ some r
      → (r.mapcap ≤ max minchunks q.mapcap) × (r.chunk_e ≤ q.chunk_e) × (r.os_e ≤ q.os_e)
  unfolding trim free_chunk chunk_at
  trim-reach minchunks mem q order e =
      let sz = sub64 q.chunk_e q.chunk_s in
      let down : sz ≤ q.chunk_e = omega (arith, order) in
      elim (ℕ_discrete q.os_e 0) [
        | yes z ↦
            let reach = shift_map-reach minchunks mem q sz (rw (trim, eq-true _ 0 z) at e) in
            omega (arith, reach, down)
        | no nz ↦ elim (Bool-cases (not (sz == 0) || not (q.os_e == q.os_s))) [
          | inl used ↦
              let reach =
                shift_map-reach minchunks mem q (add64 sz 1)
                  (rw (trim, eq-false _ 0 nz, used) at e) in
              omega (arith, reach, down)
          | inr idle ↦ elim (Option-cases (free_chunk q q.chunk_e)) [
            | inl fault ↦ absurd (ground (arith, e, nz, idle, fault))
            | inr (r, freed) ↦
                let reach =
                  shift_map-reach minchunks mem (record r { os_s = 0; os_e = 0 }) sz
                    (rw (trim, eq-false _ 0 nz, idle, freed) at e) in
                let same : (r.mapcap ≡ q.mapcap)
                    × (r.chunk_e ≡ q.chunk_e)
                    × (r.chunk_s ≡ q.chunk_s) =
                  ground (arith, freed) in
                omega (arith, reach, down, same)
          ]
        ]
      ]
