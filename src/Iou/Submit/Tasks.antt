-- ===== src/Iou/Submit/Tasks.antt =====
-- Timers and the callback queues: ielb_iou_etime and ielb_iou_esoon.
use iel.Base.{ℕ, ◌+◌, ◌*◌, ◌<◌, ◌≡◌, refl, Option, none, some, Bool, true, false, ◌>>=◌}
use iel.Base.{List, [], ◌∷◌, ◌++◌, arith, if◌then◌else◌, Bool-cases, inl, inr}
use iel.Que.{Que, Alloc, push}
use iel.Que.Rep.{Rep}
use iel.Que.Push.{Bounded, Appended, appended, refused, push-Appended}
use iel.Iou.{
  Ctx, Sqe, Uapi, Reply, null, accepted, enomem, einval, flag_noreg_handle, flag_reqlnk,
  flag_etime_micros, flag_esoon_next, sqofq_chunk_sz_bit, quep_chunk_bit,
}
use iel.Iou.Submit.{others, has, sqe_of, Timer, timer_of, Etime, etime, esoon}
use iel.Iou.Submit.Ring.{
  RingInv, pending, Submitted, bad_flags, queued, spilled, no_memory, submit_to_sq-Submitted,
}

-- A timer's `timespec` is normalised, and is the time asked for: microseconds with
-- IEL_FLAG_ETIME_MICROS, milliseconds without.
timer_of-exact :
    (time flags user_data : ℕ)
    → let timer = timer_of time flags user_data in
      (timer.tv_nsec < 1000000000)
      × (timer.tv_sec * 1000000000 + timer.tv_nsec
          ≡ time * (if has flags flag_etime_micros then 1000 else 1000000))
      × (timer.user_data ≡ user_data)
unfolding timer_of
timer_of-exact time flags user_data = elim (Bool-cases (has flags flag_etime_micros)) [
  | inl micros ↦ rw micros (omega arith, omega arith, refl)
  | inr millis ↦ rw millis (omega arith, omega arith, refl)
]

-- The entry of a timer: the block at `wcbp` is its callback, and its time stands in the block.
abbrev pub timer_sqe : Uapi → ℕ → ℕ → Sqe
timer_sqe uapi ts_offset wcbp =
    sqe_of uapi uapi.op_timeout 0 0 (wcbp + ts_offset) 1 wcbp flag_noreg_handle

-- What a call of etime does, where the overflow queue holds `xs`.
pub data Etimed (uapi : Uapi) (mem : Alloc Sqe) (malloc : Option ℕ) (ts_offset : ℕ) (pud : Ctx)
    (xs : List Sqe) (flags : ℕ) (timer : Timer) : Option Etime → Type 0 where
  no_block :
      malloc ≡ none
      → Etimed uapi mem malloc ts_offset pud xs flags timer
          (some (record { reply = null enomem pud; block = none }))
  bad_unit :
      others flags flag_etime_micros ≡ true
      → Etimed uapi mem malloc ts_offset pud xs flags timer
          (some (record { reply = null einval pud; block = none }))
  armed :
      (wcbp : ℕ) (after : Ctx)
      → malloc ≡ some wcbp
      → others flags flag_etime_micros ≡ false
      → Submitted mem pud xs flag_noreg_handle
          (timer_sqe uapi ts_offset wcbp)
          (some (accepted wcbp after))
      → Etimed uapi mem malloc ts_offset pud xs flags timer
          (some (record { reply = accepted wcbp after; block = some timer }))
  leaked :
      (wcbp : ℕ) (after : Ctx)
      → malloc ≡ some wcbp
      → others flags flag_etime_micros ≡ false
      → pending pud ≡ 64
      → Submitted mem pud xs flag_noreg_handle
          (timer_sqe uapi ts_offset wcbp)
          (some (null enomem after))
      → Etimed uapi mem malloc ts_offset pud xs flags timer
          (some (record { reply = null enomem after; block = some timer }))

-- The flags of a timer's entry are known ones.
noreg-known : others flag_noreg_handle (flag_noreg_handle + flag_reqlnk) ≡ false
noreg-known = refl

module _ (uapi : Uapi) (mem : Alloc Sqe) (ts_offset : ℕ) (pud : Ctx) (xs : List Sqe) where
  armed_or_leaked :
      (wcbp flags : ℕ) (timer : Timer) {o : Option Reply}
      → others flags flag_etime_micros ≡ false
      → Submitted mem pud xs flag_noreg_handle (timer_sqe uapi ts_offset wcbp) o
      → Etimed uapi mem
          (some wcbp)
          ts_offset
          pud
          xs
          flags
          timer
          (o >>= λ reply. some (record { reply = reply; block = some timer }))
  unfolding sqe_of
  armed_or_leaked wcbp flags timer good (bad_flags bad) = absurd cc
  armed_or_leaked wcbp flags timer good (queued g after i p h k q d o) =
      armed wcbp after refl good (queued g after i p h k q d o)
  armed_or_leaked wcbp flags timer good (spilled g q f r) =
      armed wcbp (record pud { sqofq = q }) refl good (spilled g q f r)
  armed_or_leaked wcbp flags timer good (no_memory g q full r why) =
      leaked wcbp (record pud { sqofq = q }) refl good full (no_memory g q full r why)

  -- A call of etime returns. Without memory for the block, or with unknown flags, it answers NULL, changes
  -- nothing and keeps no block. Else the timer's entry is submitted, as a call of submit_to_sq
  -- does it, and the block stays for its callback. There is one other outcome: the ring is full and
  -- the allocator refuses to its overflow queue, and then it answers NULL and the block stays allocated.
  pub etime-Etimed :
      (malloc : Option ℕ) (time flags user_data : ℕ)
      → Bounded mem
      → RingInv pud
      → Rep sqofq_chunk_sz_bit pud.sqofq xs
      → Etimed uapi mem malloc ts_offset pud xs flags
          (timer_of time flags user_data)
          (etime uapi mem malloc ts_offset pud time flags user_data)
  unfolding etime
  etime-Etimed none time flags user_data ok inv rep = no_block refl
  etime-Etimed (some wcbp) time flags user_data ok inv rep =
      elim (Bool-cases (others flags flag_etime_micros)) [
        | inl bad ↦ rw bad (bad_unit bad)
        | inr good ↦ rw good (
            armed_or_leaked wcbp flags (timer_of time flags user_data) good (
              submit_to_sq-Submitted uapi mem pud xs uapi.op_timeout 0 0 (wcbp + ts_offset) 1 wcbp
                flag_noreg_handle ok inv rep))
      ]

-- Without flags, esoon pushes to the queue of callbacks.
pub esoon-soon :
    (mem : Alloc ℕ) (pud : Ctx) (task : ℕ)
    → esoon mem pud 0 task ≡ (
        push quep_chunk_bit mem pud.soonque task >>= λ (room, q). some (
          if room
          then accepted task (record pud { soonque = q })
          else null enomem (record pud { soonque = q })))
unfolding esoon
esoon-soon mem pud task = refl

-- What a call of esoon does, where the queues hold the callbacks `soon` and `next`.
pub data Queued (pud : Ctx) (soon next : List ℕ) (flags task : ℕ) : Option Reply → Type 0 where
  bad_soon_flags :
      others flags flag_esoon_next ≡ true → Queued pud soon next flags task (some (null einval pud))
  to_next :
      (q : Que ℕ)
      → has flags flag_esoon_next ≡ true
      → Rep quep_chunk_bit q (next ++ task ∷ [])
      → Queued pud soon next flags task (some (accepted task (record pud { prepque = q })))
  to_soon :
      (q : Que ℕ)
      → has flags flag_esoon_next ≡ false
      → Rep quep_chunk_bit q (soon ++ task ∷ [])
      → Queued pud soon next flags task (some (accepted task (record pud { soonque = q })))
  next_refused :
      (q : Que ℕ)
      → Rep quep_chunk_bit q next
      → Queued pud soon next flags task (some (null enomem (record pud { prepque = q })))
  soon_refused :
      (q : Que ℕ)
      → Rep quep_chunk_bit q soon
      → Queued pud soon next flags task (some (null enomem (record pud { soonque = q })))

-- A call of esoon returns. It refuses other flags than IEL_FLAG_ESOON_NEXT and changes nothing then;
-- else the callback stands at the end of the queue that the flag names, or the allocator
-- refuses and that queue holds what it held.
esoon-Queued :
    (mem : Alloc ℕ) (pud : Ctx) (soon next : List ℕ) (flags task : ℕ)
    → Bounded mem
    → Rep quep_chunk_bit pud.soonque soon
    → Rep quep_chunk_bit pud.prepque next
    → Queued pud soon next flags task (esoon mem pud flags task)
unfolding esoon
esoon-Queued mem pud soon next flags task ok rs rn =
    elim (Bool-cases (others flags flag_esoon_next)) [
      | inl bad ↦ rw bad (bad_soon_flags bad)
      | inr good ↦ elim (Bool-cases (has flags flag_esoon_next)) [
        | inl later ↦
            rw (good, later)
              (next_end later (push-Appended quep_chunk_bit mem pud.prepque next task ok rn))
        | inr now ↦
            rw (good, now)
              (soon_end now (push-Appended quep_chunk_bit mem pud.soonque soon task ok rs))
      ]
    ]
  where
    next_end :
        {o : Option (Bool × Que ℕ)}
        → has flags flag_esoon_next ≡ true
        → Appended quep_chunk_bit mem pud.prepque next task o
        → Queued pud soon next flags task (
            o >>= λ (room, q). some (
              if room
              then accepted task (record pud { prepque = q })
              else null enomem (record pud { prepque = q })))
    next_end later (appended {r = r} rep) = to_next r later rep
    next_end later (refused {r = r} rep why) = next_refused r rep

    soon_end :
        {o : Option (Bool × Que ℕ)}
        → has flags flag_esoon_next ≡ false
        → Appended quep_chunk_bit mem pud.soonque soon task o
        → Queued pud soon next flags task (
            o >>= λ (room, q). some (
              if room
              then accepted task (record pud { soonque = q })
              else null enomem (record pud { soonque = q })))
    soon_end now (appended {r = r} rep) = to_soon r now rep
    soon_end now (refused {r = r} rep why) = soon_refused r rep
