-- ===== src/MinHeap.antt =====
-- The binary min-heap: src/minheap.c, include/iel_priv/minheap.h. Sizes and indices are 32 bits wide
-- and wrap. `arr` is the whole allocated block; an access past it is a fault, `none`.
pub mod Nodes
pub mod Up
pub mod Insert
pub mod Down
pub mod Pop
pub mod Four
mod Tests
use iel.Base.{
  ℕ, zero, suc, ◌+◌, ◌-◌, ◌*◌, ◌/◌, Option, none, some, List, [], Bool, true, false, ◌>>=◌,
}
use iel.Base.{if◌then◌else◌, ◌==◌, ltb, leb, u32, add32, sub32, get_elem?, set}

-- `struct iel_mh_node_st`: the value (`union iel_arg_un`, as a word) and its key
pub record Node : Type 0 where
  pub v : ℕ
  pub k : ℕ

-- `struct iel_mh_st`
pub record Mh : Type 0 where
  pub arr : List Node
  pub entries : ℕ
  pub maxentries : ℕ

-- `iel_mh_init`, by the block that `malloc` returns for a number of nodes; `none` of the result is the
-- error -1.
pub init : (ℕ → Option (List Node)) → ℕ → Option Mh
init malloc initlen =
    malloc initlen >>= λ arr. some (record { arr = arr; entries = 0; maxentries = initlen })

-- `iel_mh_del`: the heap with `arr = NULL`; the block goes back to the caller's allocator.
pub del : Mh → Mh
del mh = record { arr = []; entries = mh.entries; maxentries = mh.maxentries }

-- `IEL_MH_SWAP`
pub swap : List Node → ℕ → ℕ → Option (List Node)
swap arr idx0 idx1 =
    get_elem? arr idx0 >>= λ n0. get_elem? arr idx1 >>= λ n1. some (set (set arr idx0 n1) idx1 n0)

-- `IEL_MH_LE` and the keys that `IEL_MH_NE` compares
key? : List Node → ℕ → Option ℕ
key? arr idx = get_elem? arr idx >>= λ n. some n.k

pub le : List Node → ℕ → ℕ → Option Bool
le arr idx0 idx1 = key? arr idx0 >>= λ k0. key? arr idx1 >>= λ k1. some (leb k0 k1)

pub ne : List Node → ℕ → ℕ → Option Bool
ne arr idx0 idx1 =
    key? arr idx0 >>= λ k0. key? arr idx1 >>= λ k1. some (if k0 == k1 then false else true)

-- `IEL_MH_LEFTC`, `IEL_MH_RIGHTC`, `IEL_MH_PAR`
leftc : ℕ → ℕ
leftc idx = add32 (u32 (idx * 2)) 1

rightc : ℕ → ℕ
rightc idx = add32 (u32 (idx * 2)) 2

pub par : ℕ → ℕ
par idx = sub32 idx 1 / 2

-- The loop of `iel_mh_sup` at `cur` and its parent; `rounds` bounds the levels above.
sup_loop : ℕ → List Node → ℕ → ℕ → Option (List Node)
sup_loop zero arr cur up = none
sup_loop (suc rounds) arr cur up = le arr up cur >>= λ ordered.
    if ordered
    then some arr
    else (swap arr cur up >>= λ swapped.
        if up == 0 then some swapped else sup_loop rounds swapped up (par up))

pub sup : List Node → ℕ → Option (List Node)
sup arr idx = sup_loop (idx + 1) arr idx (par idx)

-- The child that `iel_mh_sdn` swaps with, or `cur` itself at a leaf
swap_with : List Node → ℕ → ℕ → Option ℕ
swap_with arr entries cur =
    let n_lc = leftc cur in
    let n_rc = rightc cur in
    let has_l = ltb n_lc entries in
    let has_r = ltb n_rc entries in
    if has_l
    then (if has_r
        then (le arr n_lc n_rc >>= λ left. some (if left then n_lc else n_rc))
        else some n_lc)
    else (if has_r then some n_rc else some cur)

-- The loop of `iel_mh_sdn` at `cur`; `rounds` bounds the levels below.
sdn_loop : ℕ → List Node → ℕ → ℕ → Option (List Node)
sdn_loop zero arr entries cur = none
sdn_loop (suc rounds) arr entries cur = swap_with arr entries cur >>= λ s.
    if s == cur
    then some arr
    else (ne arr s cur >>= λ differ.
        if differ
        then (swap arr cur s >>= λ swapped. sdn_loop rounds swapped entries s)
        else some arr)

pub sdn : List Node → ℕ → ℕ → Option (List Node)
sdn arr entries idx = sdn_loop (entries + 1) arr entries idx

-- What ins1 returns
pub data Inserted : Type 0 where
  ok : Mh → Inserted
  no_memory : Mh → Inserted

-- Room for one entry more: the block and `maxentries`, doubled where they are too small. `realloc`
-- is given a block and a number of nodes.
grow : (List Node → ℕ → Option (List Node)) → Mh → Option Mh
grow realloc mh =
    let new_maxsz = u32 (mh.maxentries * 2) in
    if ltb mh.maxentries (add32 mh.entries 1)
    then (realloc mh.arr new_maxsz >>= λ p.
        some (record { arr = p; entries = mh.entries; maxentries = new_maxsz }))
    else some mh

-- The write of the new node at `idx` and the sift
put : Mh → Node → Option Mh
put mh node =
    let idx = mh.entries in
    (get_elem? mh.arr idx >>= λ old.
    if idx == 0 then some (set mh.arr idx node) else sup (set mh.arr idx node) idx)
    >>= λ arr. some (record { arr = arr; entries = add32 idx 1; maxentries = mh.maxentries })

-- The rest of `iel_mh_ins1`, when there is room and when there is not
insert_into : Mh → Node → Option Mh → Option Inserted
insert_into mh node none = some (no_memory mh)
insert_into mh node (some room) = put room node >>= λ after. some (ok after)

-- `iel_mh_ins1`: `none` is a fault.
pub ins1 : (List Node → ℕ → Option (List Node)) → Mh → ℕ → ℕ → Option Inserted
ins1 realloc mh k v = insert_into mh (record { v = v; k = k }) (grow realloc mh)

-- What pop returns: -1, or 0 with the key and the value in `*pk` and `*pv`
pub data Popped : Type 0 where
  empty : Mh → Popped
  popped : Node → Mh → Popped

-- `iel_mh_pop`: `none` is a fault.
pub pop : Mh → Option Popped
pop mh =
    if mh.entries == 0
    then some (empty mh)
    else (get_elem? mh.arr 0 >>= λ root. swap mh.arr 0 (sub32 mh.entries 1) >>= λ swapped.
        let left = sub32 mh.entries 1 in
        (if left == 0 then some swapped else sdn swapped left 0) >>= λ arr.
        some (popped root (record { arr = arr; entries = left; maxentries = mh.maxentries })))
