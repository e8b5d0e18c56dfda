-- ===== src/Iou/Turn/Enter.antt =====
-- A turn up to the answer of io_uring_enter.
use iel.Base.{
  ℕ, zero, suc, ◌^◌, ◌<◌, ◌≡◌, ◌≢◌, refl, ap, ◌∙◌, Option, some, List, arith, length, Bool, not,
  ◌&&◌, ◌==◌, eq-false, sub32,
}
use iel.Que.Rep.{Rep}
use iel.Que.Pop.{size-length}
use iel.Iou.{Ctx, Res, value, error, quep_chunk_bit}
use iel.Iou.Turn.{
  eintr, exeq_prep, exeq_soon, retry, io_uring_enter, after_enter, enter_ring, lrun1,
}

module _ {W : Type 0} (syscall_enter : ℕ → Bool → W → Ctx → Res × W × Ctx) (to_submit : ℕ)
    (zeroed : Bool) where
  -- The call answers after a number of interruptions.
  pub data Answers : ℕ → W → Ctx → Res → W → Ctx → Type 0 where
    answered :
        {w w' : W} {pud pud' : Ctx} (ret : Res)
        → syscall_enter to_submit zeroed w pud ≡ (ret, w', pud')
        → ret ≢ error eintr
        → Answers zero w pud ret w' pud'
    interrupted :
        {n : ℕ} {w w' w'' : W} {pud pud' pud'' : Ctx} {ret : Res}
        → syscall_enter to_submit zeroed w pud ≡ (error eintr, w', pud')
        → Answers n w' pud' ret w'' pud''
        → Answers (suc n) w pud ret w'' pud''

  io_uring_enter-Answers :
      (retries n : ℕ) (w w' : W) (pud pud' : Ctx) (ret : Res)
      → Answers n w pud ret w' pud'
      → n < retries
      → io_uring_enter syscall_enter retries to_submit zeroed w pud ≡ some (ret, w', pud')
  unfolding io_uring_enter retry
  io_uring_enter-Answers zero n w w' pud pud' ret a enough = absurd (omega arith)
  io_uring_enter-Answers (suc retries) n w w' pud pud' ret (answered (value k) e other) enough =
      ap (retry (io_uring_enter syscall_enter retries to_submit zeroed)) e
  io_uring_enter-Answers (suc retries) n w w' pud pud' ret (answered (error k) e other) enough =
      ap (retry (io_uring_enter syscall_enter retries to_submit zeroed)) e
      ∙ rw (eq-false k eintr (λ z. other (ap error z))) refl
  io_uring_enter-Answers (suc retries) n w w' pud pud' ret (interrupted e rest) enough =
      ap (retry (io_uring_enter syscall_enter retries to_submit zeroed)) e
      ∙ io_uring_enter-Answers retries _ _ w' _ pud' ret rest (omega arith)

-- The context that the call of io_uring_enter is made with
abbrev pub stored : Ctx → Ctx
stored pud = record pud { sring_tail = pud.lcl_stail; cring_head = pud.lcl_chead }

-- The queues of callbacks hold `xs` and `ys`.
pub record Queues (pud : Ctx) (xs ys : List ℕ) : Type 0 where
  pub soon : Rep quep_chunk_bit pud.soonque xs
  pub prep : Rep quep_chunk_bit pud.prepque ys
  pub few_soon : length xs < 2 ^ 64
  pub few_prep : length ys < 2 ^ 64

abbrev pub waiting : List ℕ → List ℕ → Bool
waiting xs ys = not (length xs == 0 && length ys == 0)

module _ {W : Type 0} (callback : ℕ → Res → W → Ctx → Option (W × Ctx))
    (observe : W → Ctx → W × Ctx) (syscall_enter : ℕ → Bool → W → Ctx → Res × W × Ctx) where
  enter_ring_lem :
      (io_link retries rounds n : ℕ) (w w' : W) (pud pud' : Ctx) (ret : Res) (xs ys : List ℕ)
      → Queues pud xs ys
      → Answers syscall_enter
          (sub32 pud.lcl_stail pud.sring_head)
          (waiting xs ys)
          n
          w
          (stored pud)
          ret
          w'
          pud'
      → n < retries
      → enter_ring callback observe syscall_enter io_link retries rounds (w, pud)
        ≡ after_enter callback observe io_link rounds (waiting xs ys) (ret, w', pud')
  unfolding enter_ring
  enter_ring_lem io_link retries rounds n w w' pud pud' ret xs ys q a enough =
      let s = size-length quep_chunk_bit pud.soonque xs (omega arith) q.soon q.few_soon in
      let p = size-length quep_chunk_bit pud.prepque ys (omega arith) q.prep q.few_prep in
      let call =
        io_uring_enter-Answers syscall_enter _ _ retries n w w' (stored pud) pud' ret a enough in
      rw (s, p, call) refl

  -- A turn up to the call of io_uring_enter: the runs of the queued callbacks, what the kernel has written
  -- then, the queues that are left, and the answer of the call after `n` interruptions
  pub record Entered (w : W) (pud : Ctx) (xs ys : List ℕ) (n : ℕ) (ret : Res) (w' : W) (pud' : Ctx)
      : Type 0 where
    pub w1 : W
    pub w2 : W
    pub w3 : W
    pub pud1 : Ctx
    pub pud2 : Ctx
    pub pud3 : Ctx
    pub prep : exeq_prep callback w pud ≡ some (w1, pud1)
    pub soon : exeq_soon callback w1 pud1 ≡ some (w2, pud2)
    pub seen : observe w2 pud2 ≡ (w3, pud3)
    pub queues : Queues pud3 xs ys
    pub answer :
        Answers syscall_enter
          (sub32 pud3.lcl_stail pud3.sring_head)
          (waiting xs ys)
          n
          w3
          (stored pud3)
          ret
          w'
          pud'

  pub lrun1-Entered :
      (io_link retries rounds n : ℕ) (w w' : W) (pud pud' : Ctx) (ret : Res) (xs ys : List ℕ)
      → Entered w pud xs ys n ret w' pud'
      → n < retries
      → lrun1 callback observe syscall_enter io_link retries rounds 0 w pud
        ≡ after_enter callback observe io_link rounds (waiting xs ys) (ret, w', pud')
  unfolding lrun1
  lrun1-Entered io_link retries rounds n w w' pud pud' ret xs ys e enough =
      rw (e.prep, e.soon, e.seen)
        (enter_ring_lem io_link retries rounds n e.w3 w' e.pud3 pud' ret xs ys e.queues e.answer
          enough)
