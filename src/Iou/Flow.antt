-- ===== src/Iou/Flow.antt =====
-- The life of a request between submit_to_sq, the drain of lrun1 and the kernel, as steps: what was accepted, and
-- what the kernel has seen.
pub mod Steps
pub mod Refilled
pub mod Conserved
mod Tests
use iel.Base.{
  ℕ, ◌+◌, ◌*◌, ◌%◌, ◌^◌, ◌≤◌, ◌<◌, ◌≡◌, Option, some, ◌⊎◌, List, [], ◌∷◌, length, take, add32,
}
use iel.Que.{Alloc}
use iel.Que.Rep.{Rep}
use iel.Que.PopTo.{waste}
use iel.Que.Push.{Bounded}
use iel.Iou.{Ctx, Sqe, Uapi, null, accepted, sqofq_chunk_sz_bit}
use iel.Iou.Submit.{submit_to_sq, sqe_of}
use iel.Iou.Submit.Ring.{pending, ring_at}
use iel.Iou.Drain.{drain}
use iel.Iou.Drain.Links.{batch}

-- The context, the entries that submit_to_sq accepted and those that the kernel consumed, the latest first
pub record Flow : Type 0 where
  pub pud : Ctx
  pub taken : List Sqe
  pub seen : List Sqe

-- A drain that loses nothing, of a queue that holds `xs`: where there are entries, one of the first 64
-- is not linked; the batch of entries up to the last such one finds room behind the pending ones
-- and before the end of the ring; and it is all of the queue, or ends where its chunk ends.
pub record Lossless (io_link : ℕ) (pud : Ctx) (xs : List Sqe) : Type 0 where
  pub rep : Rep sqofq_chunk_sz_bit pud.sqofq xs
  pub small : length xs < 2 ^ 64
  pub some_end : 0 < length xs → 0 < batch io_link (take 64 xs)
  pub room : pending pud + batch io_link (take 64 xs) ≤ 64
  pub fits : pud.lcl_stail % 64 + batch io_link (take 64 xs) ≤ 64
  pub tight :
      (batch io_link (take 64 xs) ≡ length xs)
      ⊎ (waste sqofq_chunk_sz_bit pud.sqofq (batch io_link (take 64 xs)) ≡ 0)

module _ (uapi : Uapi) (io_link : ℕ) where
  pub data Step : Flow → Flow → Type 0 where
    submit :
        {s : Flow} {pud' : Ctx} (mem : Alloc Sqe) (op fd off addr len user_data flags result : ℕ)
        → Bounded mem
        → submit_to_sq uapi mem s.pud op fd off addr len user_data flags
          ≡ some (accepted result pud')
        → Step s (record s {
          pud = pud';
          taken = sqe_of uapi op fd off addr len user_data flags ∷ s.taken;
        })
    refuse :
        {s : Flow} {pud' : Ctx} (mem : Alloc Sqe) (op fd off addr len user_data flags errno : ℕ)
        → Bounded mem
        → submit_to_sq uapi mem s.pud op fd off addr len user_data flags ≡ some (null errno pud')
        → Step s (record s { pud = pud' })
    consume :
        {s : Flow} (sqe : Sqe)
        → 0 < pending s.pud
        → ring_at s.pud s.pud.sring_head ≡ some sqe
        → Step s (record s {
          pud = record (s.pud) { sring_head = add32 s.pud.sring_head 1 };
          seen = sqe ∷ s.seen;
        })
    refill :
        {s : Flow} {pud' : Ctx} (xs : List Sqe) (before printed : List (ℕ × ℕ))
        → Lossless io_link s.pud xs
        → drain io_link s.pud ≡ some (before, printed, pud')
        → Step s (record s { pud = pud' })

  pub data Reach : Flow → Flow → Type 0 where
    here : {s : Flow} → Reach s s
    onward : {s t u : Flow} → Reach s t → Step t u → Reach s u
