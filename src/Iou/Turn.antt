-- ===== src/Iou/Turn.antt =====
-- One turn of the loop: ielb_ioux_exeq, io_uring_enter and ielb_iou_lrun1. Everything but the context is the
-- world, of a type W: a callback works on the world and the context, and so do the kernel's calls.
-- `observe` is what the kernel writes to the shared rings until a load reads them.
pub mod Rounds
pub mod Keeps
pub mod Posting
pub mod Completions
pub mod Enter
pub mod Whole
pub mod Calls
pub mod Busy
mod Tests
mod TurnTests
use iel.Base.{
  ℕ, zero, suc, ◌+◌, ◌-◌, ◌*◌, ◌%◌, ◌^◌, Option, none, some, ◌>>=◌, Bool, not, ◌&&◌, if◌then◌else◌,
  ◌==◌,
}
use iel.Base.{get_elem?, bit_and, add32, sub32}
use iel.Que.{Que, Popped, empty, more, last, pop1, size, ents}
use iel.Iou.{Ctx, Cqe, Res, value, error, einval, quep_chunk_bit}
use iel.Iou.Drain.{drain}

module _ {W : Type 0} (run : ℕ → W → Que ℕ → Option (W × Que ℕ)) where
  -- The loop of `ielb_ioux_exeq`, up to the position that was the queue's end at the start
  pub exeq_loop : ℕ → W → Que ℕ → ℕ → ℕ → Option (W × Que ℕ)
  exeq_loop zero w que chunk_stop os_stop = none
  exeq_loop (suc rounds) w que chunk_stop os_stop =
      pop1 quep_chunk_bit que chunk_stop os_stop >>= λ (res, que). elim res [
        | empty ↦ some (w, que)
        | more task ↦ run task w que >>= λ (w, que). exeq_loop rounds w que chunk_stop os_stop
        | last task ↦ run task w que
      ]

  -- `ielb_ioux_exeq`, on as many rounds as positions lie between the queue's first chunk and its end, and one more
  pub exeq : W → Que ℕ → Option (W × Que ℕ)
  exeq w que =
      exeq_loop (suc ((que.chunk_e - que.chunk_s) * ents quep_chunk_bit + que.os_e)) w que
        que.chunk_e que.os_e

-- IEL_EINTR
abbrev pub eintr : ℕ
eintr = 4

-- What `ielb_iou_lrun1` returns: 0, or -1 with `iel_errno`
pub data Turned (W : Type 0) : Type 0 where
  done : W → Ctx → Turned W
  failed : ℕ → W → Ctx → Turned W

-- What the loop of `io_uring_enter` does with an answer: the call is made again if it was interrupted.
pub retry :
    {W : Type 0} → (W → Ctx → Option (Res × W × Ctx)) → Res × W × Ctx → Option (Res × W × Ctx)
retry again (value n, w, pud) = some (value n, w, pud)
retry again (error n, w, pud) = if n == eintr then again w pud else some (error n, w, pud)

-- `io_uring_enter` of `to_submit` entries, which waits for a completion unless `zeroed`
pub io_uring_enter :
    {W : Type 0}
    → (ℕ → Bool → W → Ctx → Res × W × Ctx)
    → ℕ
    → ℕ
    → Bool
    → W
    → Ctx
    → Option (Res × W × Ctx)
unfolding retry
io_uring_enter syscall_enter zero to_submit zeroed w pud = none
io_uring_enter syscall_enter (suc rounds) to_submit zeroed w pud =
    retry (io_uring_enter syscall_enter rounds to_submit zeroed)
      (syscall_enter to_submit zeroed w pud)

module _ {W : Type 0} (callback : ℕ → Res → W → Ctx → Option (W × Ctx)) where
  -- A task of a queue is called with 0, on the context with that queue.
  pub run_prep : ℕ → W × Ctx → Que ℕ → Option ((W × Ctx) × Que ℕ)
  run_prep task (w, pud) que =
      callback task (value 0) w (record pud { prepque = que }) >>= λ (w, pud).
      some ((w, pud), pud.prepque)

  pub run_soon : ℕ → W × Ctx → Que ℕ → Option ((W × Ctx) × Que ℕ)
  run_soon task (w, pud) que =
      callback task (value 0) w (record pud { soonque = que }) >>= λ (w, pud).
      some ((w, pud), pud.soonque)

  pub exeq_prep : W → Ctx → Option (W × Ctx)
  exeq_prep w pud = exeq run_prep (w, pud) pud.prepque >>= λ ((w, pud), que).
      some (w, record pud { prepque = que })

  pub exeq_soon : W → Ctx → Option (W × Ctx)
  exeq_soon w pud = exeq run_soon (w, pud) pud.soonque >>= λ ((w, pud), que).
      some (w, record pud { soonque = que })

  -- The callback of a completion; an entry without `user_data` has none.
  pub invoke : Cqe → W → Ctx → Option (W × Ctx)
  invoke cqe w pud =
      if cqe.user_data == 0 then some (w, pud) else callback cqe.user_data cqe.res w pud

  module _ (observe : W → Ctx → W × Ctx) where
    -- The loop over the completions, which assumes that there is one
    pub deliver : ℕ → W → Ctx → Option (W × Ctx)
    deliver zero w pud = none
    deliver (suc rounds) w pud =
        get_elem? pud.cqes (bit_and pud.lcl_chead pud.cring_mask) >>= λ cqe.
        invoke cqe w pud >>= λ (w, pud).
        let (w, pud) = observe w (record pud { lcl_chead = add32 pud.lcl_chead 1 }) in
        if pud.lcl_chead == pud.cring_tail
        then some (w, pud)
        else (exeq_soon w pud >>= λ (w, pud). deliver rounds w pud)

    -- What follows the call of `io_uring_enter`; `rounds` is for the completions.
    pub after_enter : ℕ → ℕ → Bool → Res × W × Ctx → Option (Turned W)
    after_enter io_link rounds zeroed (ret, w, pud) =
        if zeroed then some (done w pud) else elim ret [
          | error n ↦ some (failed (n % 2 ^ 16) w pud)
          | value n ↦ drain io_link pud >>= λ (before, printed, pud).
              deliver rounds w pud >>= λ (w, pud). some (done w pud)
        ]

    module _ (syscall_enter : ℕ → Bool → W → Ctx → Res × W × Ctx) where
      -- What follows the two runs of `exeq`, with what the kernel has written until the load
      pub enter_ring : ℕ → ℕ → ℕ → W × Ctx → Option (Turned W)
      enter_ring io_link retries rounds (w, pud) =
          let sq_len = sub32 pud.lcl_stail pud.sring_head in
          let idle = size quep_chunk_bit pud.soonque == 0 && size quep_chunk_bit pud.prepque == 0 in
          let stored = record pud { sring_tail = pud.lcl_stail; cring_head = pud.lcl_chead } in
          io_uring_enter syscall_enter retries sq_len (not idle) w stored
          >>= after_enter io_link rounds (not idle)

      -- `ielb_iou_lrun1`, on `retries` calls that are interrupted and `rounds` completions at most
      pub lrun1 : ℕ → ℕ → ℕ → ℕ → W → Ctx → Option (Turned W)
      lrun1 io_link retries rounds flags w pud =
          if not (flags == 0)
          then some (failed einval w pud)
          else (exeq_prep w pud >>= λ (w, pud).
              exeq_soon w pud >>= λ (w, pud). enter_ring io_link retries rounds (observe w pud))
