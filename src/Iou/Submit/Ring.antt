-- ===== src/Iou/Submit/Ring.antt =====
-- What submit_to_sq does to the submission ring, as the kernel reads it, and to the overflow queue.
use iel.Base.{
  ℕ, ◌+◌, ◌*◌, ◌%◌, ◌^◌, ◌≤◌, ◌<◌, ◌≡◌, ◌≢◌, refl, ap, sym, ◌∙◌, Option, none, some, Bool, true,
  false, ◌>>=◌,
}
use iel.Base.{
  List, [], ◌∷◌, ◌++◌, length, length-set, set, get_elem?, get_elem?-set_same, get_elem?-set_other,
  put_elem?-inside, sub32, add32, u64, ◌⊎◌, arith, if◌then◌else◌, ◌==◌, Bool-cases, inl, inr,
  eq-true, eq-false,
}
use iel.Base.Bits.{bit_and_mask}
use iel.Que.{Que, Alloc, mapsz4}
use iel.Que.Rep.{Rep}
use iel.Que.Push.{Bounded, Appended, appended, refused, push-Appended}
use iel.Iou.{
  Ctx, Sqe, Uapi, Reply, null, accepted, enomem, einval, flag_reqlnk, flag_noreg_handle,
  sqofq_chunk_sz_bit,
}
use iel.Iou.Submit.{submit_to_sq, enqueue, sqe_of, others}

-- An entry without flags is not linked.
pub sqe_of-plain :
    (uapi : Uapi) (op fd off addr len user_data : ℕ)
    → (sqe_of uapi op fd off addr len user_data 0).flags ≡ uapi.fixed_file
unfolding sqe_of
sqe_of-plain uapi op fd off addr len user_data = refl

-- The number of entries that the kernel has not consumed
abbrev pub pending : Ctx → ℕ
pending pud = sub32 pud.lcl_stail pud.sring_head

-- The entry that the kernel finds at a position of the ring
abbrev pub ring_at : Ctx → ℕ → Option Sqe
ring_at pud p = get_elem? pud.sring_array (p % 64) >>= λ r. get_elem? pud.sqes r

-- The ring's positions depend on their remainder alone.
pub ring_at-mod : (pud : Ctx) (p q : ℕ) → p % 64 ≡ q % 64 → ring_at pud p ≡ ring_at pud q
ring_at-mod pud p q e = ap (λ (t : ℕ). get_elem? pud.sring_array t >>= λ r. get_elem? pud.sqes r) e

-- The mappings have 64 entries, no more are pending, and those are not permuted.
pub record RingInv (pud : Ctx) : Type 0 where
  pub mask : pud.sring_mask ≡ 63
  pub array_size : length pud.sring_array ≡ 64
  pub sqes_size : length pud.sqes ≡ 64
  pub head_in : pud.sring_head < 2 ^ 32
  pub tail_in : pud.lcl_stail < 2 ^ 32
  pub bounded : pending pud ≤ 64
  pub direct :
      (j : ℕ)
      → j < pending pud
      → get_elem? pud.sring_array ((pud.sring_head + j) % 64) ≡ some ((pud.sring_head + j) % 64)

-- What a submission of `sqe` does, where the overflow queue holds `xs`.
pub data Submitted (mem : Alloc Sqe) (pud : Ctx) (xs : List Sqe) (flags : ℕ) (sqe : Sqe)
    : Option Reply → Type 0 where
  bad_flags :
      others flags (flag_noreg_handle + flag_reqlnk) ≡ true
      → Submitted mem pud xs flags sqe (some (null einval pud))
  queued :
      others flags (flag_noreg_handle + flag_reqlnk) ≡ false
      → (after : Ctx) → RingInv after
      → pending after ≡ pending pud + 1
      → ring_at after pud.lcl_stail ≡ some sqe
      → ((j : ℕ)
          → j < pending pud
          → ring_at after (pud.sring_head + j) ≡ ring_at pud (pud.sring_head + j))
      → after.sqofq ≡ pud.sqofq
      → after.sring_head ≡ pud.sring_head
      → after ≡ record pud {
        sqes = after.sqes;
        sring_array = after.sring_array;
        lcl_stail = add32 pud.lcl_stail 1;
      }
      → Submitted mem pud xs flags sqe (some (accepted sqe.user_data after))
  spilled :
      others flags (flag_noreg_handle + flag_reqlnk) ≡ false
      → (q : Que Sqe) → pending pud ≡ 64
      → Rep sqofq_chunk_sz_bit q (xs ++ sqe ∷ [])
      → Submitted mem pud xs flags sqe (some (accepted sqe.user_data (record pud { sqofq = q })))
  no_memory :
      others flags (flag_noreg_handle + flag_reqlnk) ≡ false
      → (q : Que Sqe) → pending pud ≡ 64
      → Rep sqofq_chunk_sz_bit q xs
      → (mem.chunk ≡ none) ⊎ (mem.grants (mapsz4 (u64 (pud.sqofq.mapcap * 2))) ≡ false)
      → Submitted mem pud xs flags sqe (some (null enomem (record pud { sqofq = q })))

-- Two positions that are fewer than 64 apart have different slots.
other_slot :
    (h t j : ℕ) → t < 2 ^ 32 → h < 2 ^ 32 → j < sub32 t h → sub32 t h < 64 → t % 64 ≢ (h + j) % 64
other_slot h t j ht hh hj hn e = absurd (omega (arith, e, hj, hn))

-- The context after an entry has gone to the ring
unfoldable pub placed : Ctx → Sqe → Ctx
placed pud sqe = record pud {
  sqes = set pud.sqes (pud.lcl_stail % 64) sqe;
  sring_array = set pud.sring_array (pud.lcl_stail % 64) (pud.lcl_stail % 64);
  lcl_stail = add32 pud.lcl_stail 1;
}

module _ (pud : Ctx) (sqe : Sqe) (inv : RingInv pud) (free : pending pud < 64) where
  pub pending-placed : pending (placed pud sqe) ≡ pending pud + 1
  unfolding placed
  pending-placed = omega (arith, inv.head_in, inv.tail_in)

  pub placed_here : ring_at (placed pud sqe) pud.lcl_stail ≡ some sqe
  unfolding placed
  placed_here =
      let slot = pud.lcl_stail % 64 in
      ap (λ (o : Option ℕ). o >>= λ r. get_elem? (set pud.sqes slot sqe) r)
        (get_elem?-set_same pud.sring_array slot slot (omega (arith, inv.array_size)))
      ∙ get_elem?-set_same pud.sqes slot sqe (omega (arith, inv.sqes_size))

  direct_kept :
      (j : ℕ)
      → j < pending pud
      → get_elem? (placed pud sqe).sring_array ((pud.sring_head + j) % 64)
        ≡ some ((pud.sring_head + j) % 64)
  unfolding placed
  direct_kept j h =
      let apart = other_slot pud.sring_head pud.lcl_stail j inv.tail_in inv.head_in h free in
      get_elem?-set_other pud.sring_array (pud.lcl_stail % 64) _ _ apart ∙ inv.direct j h

  others_kept :
      (j : ℕ)
      → j < pending pud
      → ring_at (placed pud sqe) (pud.sring_head + j) ≡ ring_at pud (pud.sring_head + j)
  unfolding placed
  others_kept j h =
      let apart = other_slot pud.sring_head pud.lcl_stail j inv.tail_in inv.head_in h free in
      let p = (pud.sring_head + j) % 64 in
      ap (λ (o : Option ℕ). o >>= λ r. get_elem? (placed pud sqe).sqes r) (direct_kept j h)
      ∙ get_elem?-set_other pud.sqes (pud.lcl_stail % 64) p sqe apart
      ∙ ap (λ (o : Option ℕ). o >>= λ r. get_elem? pud.sqes r) (sym (inv.direct j h))

  pub placed-RingInv : RingInv (placed pud sqe)
  unfolding placed
  placed-RingInv = record {
    mask = inv.mask;
    array_size = length-set pud.sring_array _ _ ∙ inv.array_size;
    sqes_size = length-set pud.sqes _ sqe ∙ inv.sqes_size;
    head_in = inv.head_in;
    tail_in = omega arith;
    bounded = omega (arith, pending-placed, free);
    direct = λ j h. elim (Bool-cases (j == pending pud)) [
      | inr below ↦ direct_kept j (ground (arith, pending-placed, h, below))
      | inl last ↦
          let e : j ≡ pending pud = ground (arith, last) in
          let slot : (pud.sring_head + j) % 64 ≡ pud.lcl_stail % 64 =
            omega (arith, e, inv.head_in, inv.tail_in) in
          let here =
            get_elem?-set_same pud.sring_array (pud.lcl_stail % 64) (pud.lcl_stail % 64)
              (omega (arith, inv.array_size)) in
          rw slot here
    ];
  }

enqueue-room :
    (mem : Alloc Sqe) (pud : Ctx) (sqe : Sqe)
    → RingInv pud
    → pending pud < 64
    → enqueue mem pud sqe ≡ some (accepted sqe.user_data (placed pud sqe))
unfolding enqueue placed
enqueue-room mem pud sqe inv free =
    let busy : (pending pud == 64) ≡ false = eq-false (pending pud) 64 (omega arith) in
    let slot : pud.lcl_stail % 64 < 64 = omega arith in
    rw (
      inv.mask,
      bit_and_mask 6 pud.lcl_stail,
      busy,
      put_elem?-inside pud.sqes (pud.lcl_stail % 64) sqe (omega (arith, inv.sqes_size, slot)),
      put_elem?-inside pud.sring_array (pud.lcl_stail % 64) (pud.lcl_stail % 64)
          (omega (arith, inv.array_size, slot)),
    )

pub submit_to_sq-room :
    (uapi : Uapi) (mem : Alloc Sqe) (pud : Ctx) (op fd off addr len user_data flags : ℕ)
    → RingInv pud
    → pending pud < 64
    → others flags (flag_noreg_handle + flag_reqlnk) ≡ false
    → submit_to_sq uapi mem pud op fd off addr len user_data flags
      ≡ some (
          accepted
            (sqe_of uapi op fd off addr len user_data flags).user_data
            (placed pud (sqe_of uapi op fd off addr len user_data flags)))
unfolding submit_to_sq
submit_to_sq-room uapi mem pud op fd off addr len user_data flags inv free good =
    rw good (enqueue-room mem pud (sqe_of uapi op fd off addr len user_data flags) inv free)

enqueue-full :
    (mem : Alloc Sqe) (pud : Ctx) (xs : List Sqe) (flags : ℕ) (sqe : Sqe)
    {o : Option (Bool × Que Sqe)}
    → others flags (flag_noreg_handle + flag_reqlnk) ≡ false
    → pending pud ≡ 64
    → Appended sqofq_chunk_sz_bit mem pud.sqofq xs sqe o
    → Submitted mem pud xs flags sqe (
        o >>= λ (room, q). some (
          if room
          then accepted sqe.user_data (record pud { sqofq = q })
          else null enomem (record pud { sqofq = q })))
enqueue-full mem pud xs flags sqe good full (appended {r = r} rep) = spilled good r full rep
enqueue-full mem pud xs flags sqe good full (refused {r = r} rep why) =
    no_memory good r full rep why

enqueue-Submitted :
    (mem : Alloc Sqe) (pud : Ctx) (xs : List Sqe) (flags : ℕ) (sqe : Sqe)
    → others flags (flag_noreg_handle + flag_reqlnk) ≡ false
    → Bounded mem
    → RingInv pud
    → Rep sqofq_chunk_sz_bit pud.sqofq xs
    → Submitted mem pud xs flags sqe (enqueue mem pud sqe)
unfolding enqueue
enqueue-Submitted mem pud xs flags sqe good ok inv rep = elim (Bool-cases (pending pud == 64)) [
  | inl e ↦
      let full : pending pud ≡ 64 = ground (arith, e) in
      let t : (pending pud == add32 pud.sring_mask 1) ≡ true =
        eq-true (pending pud) (add32 pud.sring_mask 1) (omega (arith, full, inv.mask)) in
      rw t (
        enqueue-full mem pud xs flags sqe good full
          (push-Appended sqofq_chunk_sz_bit mem pud.sqofq xs sqe ok rep))
  | inr e ↦
      let free : pending pud < 64 = ground (arith, e, inv.bounded) in
      rw (enqueue-room mem pud sqe inv free) (
        queued good (placed pud sqe) (placed-RingInv pud sqe inv free)
          (pending-placed pud sqe inv free) (placed_here pud sqe inv free)
          (others_kept pud sqe inv free) (unfold placed in refl) (unfold placed in refl)
          (unfold placed in refl))
]

-- A submission to a ring of 64 entries, with a bounded allocator, returns. Unknown flags are refused and change nothing, and
-- only they are refused with EINVAL. With known flags: while the ring has room, the entry stands at
-- its end, the pending entries before it are as they were, and nothing else of the context changes;
-- once the ring is full, the entry goes to the end of the overflow queue, or the allocator refuses a
-- chunk or the larger map and the queue holds what it held.
pub submit_to_sq-Submitted :
    (uapi : Uapi) (mem : Alloc Sqe) (pud : Ctx) (xs : List Sqe)
    (op fd off addr len user_data flags : ℕ)
    → Bounded mem
    → RingInv pud
    → Rep sqofq_chunk_sz_bit pud.sqofq xs
    → Submitted mem pud xs flags
        (sqe_of uapi op fd off addr len user_data flags)
        (submit_to_sq uapi mem pud op fd off addr len user_data flags)
unfolding submit_to_sq
submit_to_sq-Submitted uapi mem pud xs op fd off addr len user_data flags ok inv rep =
    elim (Bool-cases (others flags (flag_noreg_handle + flag_reqlnk))) [
      | inl bad ↦ rw bad (bad_flags bad)
      | inr good ↦ rw good (enqueue-Submitted mem pud xs flags _ good ok inv rep)
    ]
