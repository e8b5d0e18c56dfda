-- ===== src/Que.antt =====
-- The chunked queue template: include/iel_priv/que.tpl.h with `struct iel_que_st` of
-- include/iel/quedecl.h. src/quep.c instantiates it for `void *`, src/backends/iou.c for
-- `struct io_uring_sqe`; here the element is a type A and `bits` is `IEL_QUE_CHUNK_ENTS_BIT`.
--
-- An entry of the map is `some` while it owns a live chunk, so `none` is an entry that was never
-- written, was freed, or was moved away by `memmove`. An access through such an entry, past the
-- map or past a chunk, and a second free, is a fault: the operation is `none`.
pub mod Rep
pub mod Ready
pub mod Push
pub mod Reach
pub mod Front
pub mod Read
pub mod Pop
pub mod PopTo
pub mod Trim
pub mod Del
mod Tests
use iel.Base.{ℕ, zero, suc, ◌+◌, ◌-◌, ◌*◌, ◌/◌, ◌%◌, ◌^◌, Bool, true, false, not, ◌&&◌, ◌||◌}
use iel.Base.{Option, none, some, List, [], ◌∷◌, ◌++◌, ◌>>=◌, if◌then◌else◌, ◌==◌, ltb, leb}
use iel.Base.{u64, add64, sub64, sub32}

-- A chunk's elements by offset; what was never stored is indeterminate.
abbrev pub Chunk {ℓ} : Type ℓ → Type ℓ
Chunk A = ℕ → A

abbrev pub Map {ℓ} : Type ℓ → Type ℓ
Map A = ℕ → Option (Chunk A)

-- `struct iel_que_st`
pub record Que {ℓ} (A : Type ℓ) : Type ℓ where
  pub map : Map A
  pub mapcap : ℕ
  pub chunk_s : ℕ
  pub chunk_e : ℕ
  pub os_s : ℕ
  pub os_e : ℕ

-- The allocator as one call sees it: which sizes in bytes `malloc` and `realloc` grant, and what
-- `iel_aligned_alloc` returns (`none` is NULL).
pub record Alloc {ℓ} (A : Type ℓ) : Type ℓ where
  pub grants : ℕ → Bool
  pub chunk : Option (Chunk A)

-- What `pop1` returns: -1, 0 with the element, 1 with the element.
pub data Popped {ℓ} (A : Type ℓ) : Type ℓ where
  empty : Popped A
  more : A → Popped A
  last : A → Popped A

-- The place in chunk `c` at offset `o` that `rsv1` points to.
pub record Slot : Type 0 where
  pub chunk : ℕ
  pub os : ℕ

-- Elements in a chunk; `& IEL_QUE_CHUNK_ENTS_MASK` is the remainder by it.
abbrev pub ents : ℕ → ℕ
ents bits = 2 ^ bits

abbrev pub update {ℓ} : {B : Type ℓ} → (ℕ → B) → ℕ → B → ℕ → B
update f k v j = if j == k then v else f j

-- `IEL_QUE_MAPSZ4(cap)`; a pointer has 8 bytes.
abbrev pub mapsz4 : ℕ → ℕ
mapsz4 cap = u64 (cap * 8)

-- `init`: `none` is the result -1.
pub init {ℓ} : {A : Type ℓ} → ℕ → Alloc A → ℕ → Option (Que A)
init minchunks mem initcap_map =
    let cap = if ltb initcap_map minchunks then minchunks else initcap_map in
    if mem.grants (mapsz4 cap)
    then some
        (record { map = λ c. none; mapcap = cap; chunk_s = 0; chunk_e = 0; os_s = 0; os_e = 0 })
    else none

module _ {ℓ} {A : Type ℓ} where
  -- `IEL_QUE_MAPOF(que)[c]`, as a pointer that is about to be used.
  pub chunk_at : Que A → ℕ → Option (Chunk A)
  chunk_at q c = if ltb c q.mapcap then q.map c else none

  -- `iel_aligned_free(IEL_QUE_MAPOF(que)[c])`
  pub free_chunk : Que A → ℕ → Option (Que A)
  unfolding chunk_at
  free_chunk q c = do freed ← chunk_at q c; some (record q { map = update q.map c none })

  -- `que->chunk_s = que->chunk_e = 0; que->os_s = que->os_e = 0;`
  abbrev pub reset : Que A → Que A
  reset q = record q { chunk_s = 0; chunk_e = 0; os_s = 0; os_e = 0 }

  -- The reset of an empty queue, with `if (que->os_e)`: the last chunk is still allocated.
  pub trim_empty : Que A → Option (Que A)
  unfolding free_chunk
  trim_empty q =
      if q.os_e == 0 then some (reset q) else free_chunk q q.chunk_e >>= λ q'. some (reset q')

  abbrev pub is_empty : Que A → Bool
  is_empty q = q.chunk_e == q.chunk_s && q.os_e == q.os_s

  -- The map is doubled where `chunk_e` is past its end. `none` is the early return of NULL.
  pub grow_map : Alloc A → Que A → Option (Que A)
  grow_map mem q =
      let mapcap_new = u64 (q.mapcap * 2) in
      if leb q.mapcap q.chunk_e
      then (if mem.grants (mapsz4 mapcap_new)
          then some (record q { mapcap = mapcap_new })
          else none)
      else some q

  -- `IEL_QUE_MAPOF(que)[que->chunk_e] = chunk_new`
  pub put_chunk : Que A → Chunk A → Option (Que A)
  put_chunk q chunk_new =
      if ltb q.chunk_e q.mapcap
      then some (record q { map = update q.map q.chunk_e (some chunk_new) })
      else none

  -- The elements `ch[o]` to `ch[o + n - 1]`
  abbrev pub block : Chunk A → ℕ → ℕ → List A
  block ch o zero = []
  block ch o (suc n) = ch o ∷ block ch (suc o) n

  module _ (bits : ℕ) where
    pub size : Que A → ℕ
    size q = sub64 (add64 (u64 (sub64 q.chunk_e q.chunk_s * ents bits)) q.os_e) q.os_s

    -- The part of `rsv1` past the allocation.
    abbrev pub advance : Que A → Que A
    advance q =
        let os = (q.os_e + 1) % ents bits in
        record q { os_e = os; chunk_e = if os == 0 then add64 q.chunk_e 1 else q.chunk_e }

    -- `rsv1`: the slot (`none` is NULL) and the queue, also after a failed allocation.
    pub rsv1 : Alloc A → Que A → Option (Option Slot × Que A)
    unfolding grow_map put_chunk
    rsv1 mem q =
        if not (q.os_e == 0)
        then some (some (record { chunk = q.chunk_e; os = q.os_e }), advance q)
        else elim (grow_map mem q) [
          | none ↦ some (none, q)
          | some q' ↦ elim mem.chunk [
            | none ↦ some (none, q')
            | some chunk_new ↦ put_chunk q' chunk_new >>= λ r.
                some (some (record { chunk = r.chunk_e; os = r.os_e }), advance r)
          ]
        ]

    -- The caller's store through the slot.
    pub store : Que A → Slot → A → Option (Que A)
    unfolding chunk_at
    store q s v = chunk_at q s.chunk >>= λ ch.
        (if ltb s.os (ents bits)
          then some (record q { map = update q.map s.chunk (some (update ch s.os v)) })
          else none)

    -- `rsv1` and the store, as every caller does: whether there was room, and the queue.
    pub push : Alloc A → Que A → A → Option (Bool × Que A)
    push mem q v = rsv1 mem q >>= λ (s, q'). elim s [
      | none ↦ some (false, q')
      | some slot ↦ store q' slot v >>= λ r. some (true, r)
    ]

    -- The chunk at `chunk_s` is freed once `os_s` has come round to 0.
    pub leave_chunk : Que A → Option (Que A)
    unfolding free_chunk
    leave_chunk q =
        if q.os_s == 0
        then (free_chunk q q.chunk_s >>= λ q'. some (record q' { chunk_s = add64 q'.chunk_s 1 }))
        else some q

    pub load : Que A → ℕ → ℕ → Option A
    unfolding chunk_at
    load q c o = chunk_at q c >>= λ ch. if ltb o (ents bits) then some (ch o) else none

    pub pop1 : Que A → ℕ → ℕ → Option (Popped A × Que A)
    unfolding load leave_chunk trim_empty
    pop1 q chunk_stop os_stop =
        if is_empty q
        then some (empty, q)
        else load q q.chunk_s q.os_s >>= λ v.
            leave_chunk (record q { os_s = (q.os_s + 1) % ents bits }) >>= λ r.
            if is_empty r
            then (trim_empty r >>= λ r'. some (last v, r'))
            else if chunk_stop == r.chunk_s && os_stop == r.os_s
            then some (last v, r)
            else some (more v, r)

    -- `memcpy` of `n` elements from `os_s` of the first chunk
    pub copy : Que A → ℕ → Option (List A)
    unfolding chunk_at
    copy q n = chunk_at q q.chunk_s >>= λ ch.
        if leb (q.os_s + n) (ents bits) then some (block ch q.os_s n) else none

    -- One round of the loop of `pop_to` takes the block's rest and what was written. The rounds
    -- are fuel: running out of it is `none` too.
    pub pop_to_loop : ℕ → Que A → ℕ → List A → Option (List A × Que A)
    unfolding trim_empty copy leave_chunk free_chunk
    pop_to_loop zero q blk_sz out = none
    pop_to_loop (suc rounds) q blk_sz out =
        let last_chunk = q.chunk_e == q.chunk_s in
        let span = if last_chunk then sub32 q.os_e q.os_s else ents bits - q.os_s in
        let moved = record q { os_s = (q.os_s + span) % ents bits } in
        let exhausted = copy q blk_sz >>= λ xs. leave_chunk moved >>= λ r. some (out ++ xs, r) in
        let next_chunk = copy q span >>= λ xs. free_chunk moved moved.chunk_s >>= λ r.
        pop_to_loop rounds (record r { chunk_s = add64 r.chunk_s 1 }) (blk_sz - span) (out ++ xs) in
        let whole_span =
          if not (moved.os_s == 0)
          then (copy q span >>= λ xs. trim_empty moved >>= λ r. some (out ++ xs, r))
          else next_chunk in
        if last_chunk && span == 0
        then (trim_empty q >>= λ r. some (out, r))
        else if leb blk_sz span
        then exhausted
        else whole_span

    -- `pop_to`: the elements written to `blk_out`, whose number it returns. A round moves
    -- `chunk_s` on, so `chunk_e - chunk_s + 1` rounds are enough.
    pub pop_to : Que A → ℕ → Option (List A × Que A)
    unfolding pop_to_loop
    pop_to q blk_sz =
        if blk_sz == 0 then some ([], q) else pop_to_loop (q.chunk_e - q.chunk_s + 1) q blk_sz []

  -- `memmove(que->map, &map[offs], sz entries)` moves the chunks' ownership.
  abbrev pub move_map : Map A → ℕ → ℕ → Map A
  move_map m offs sz c =
      if ltb c sz then m (c + offs) else if leb offs c && ltb c (offs + sz) then none else m c

  -- The part of `trim` past the decision on the last chunk.
  pub shift_map : ℕ → Alloc A → Que A → ℕ → Option (Que A)
  shift_map minchunks mem q sz =
      let moved = record q {
        map = move_map q.map q.chunk_s sz;
        chunk_s = 0;
        chunk_e = sub64 q.chunk_e q.chunk_s;
      } in
      let mapcap_new = if ltb sz minchunks then minchunks else sz in
      if leb (q.chunk_s + sz) q.mapcap
      then (if mem.grants (mapsz4 mapcap_new)
          then some (record moved { mapcap = mapcap_new })
          else some moved)
      else none

  pub trim : ℕ → Alloc A → Que A → Option (Que A)
  unfolding free_chunk shift_map
  trim minchunks mem q =
      let sz = sub64 q.chunk_e q.chunk_s in
      if q.os_e == 0
      then shift_map minchunks mem q sz
      else if not (sz == 0) || not (q.os_e == q.os_s)
      then shift_map minchunks mem q (add64 sz 1)
      else free_chunk q q.chunk_e >>= λ r.
          shift_map minchunks mem (record r { os_s = 0; os_e = 0 }) sz

  pub qtrim : ℕ → Alloc A → Que A → Option (Que A)
  unfolding trim
  qtrim minchunks mem q =
      if ltb 4096 q.chunk_s || ltb (q.mapcap / 2 ^ 3) q.chunk_s
      then trim minchunks mem q
      else some q

  -- The loop of `del`: `rounds` chunks from `i` on.
  pub free_from : ℕ → Que A → ℕ → Option (Que A)
  unfolding free_chunk
  free_from zero q i = some q
  free_from (suc rounds) q i =
      let rest = λ (r : Que A). free_from rounds r (add64 i 1) in free_chunk q i >>= rest

  -- `del`: the map's entries that own a chunk when the map itself is freed.
  pub del : Que A → Option (Map A)
  unfolding free_from
  del q = free_from (q.chunk_e - q.chunk_s) q q.chunk_s >>= λ r.
      if r.os_e == 0 then some r.map else free_chunk r r.chunk_e >>= λ r'. some r'.map
