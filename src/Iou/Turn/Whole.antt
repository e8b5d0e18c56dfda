-- ===== src/Iou/Turn/Whole.antt =====
-- lrun1 as a whole: its exits, and the turn that delivers what is posted.
use mathlib.Core.Path.{subst}
use iel.Base.{
  ℕ, zero, suc, ◌+◌, ◌%◌, ◌^◌, ◌<◌, ◌≡◌, ◌≢◌, refl, sym, ◌∙◌, Option, some, List, [], ◌∷◌, ◌++◌,
  arith, length, Bool, true, ◌>>=◌, eq-false,
}
use iel.Que.Rep.{Rep}
use iel.Iou.{Ctx, Cqe, Res, value, error, einval, quep_chunk_bit}
use iel.Iou.Drain.{drain}
use iel.Iou.Drain.Kept.{ring_of, drain-kept}
use iel.Iou.Turn.{Turned, done, failed, deliver, after_enter, lrun1}
use iel.Iou.Turn.Posting.{Calm, Posts, Posted, SoonQue}
use iel.Iou.Turn.Completions.{Delivered, deliver-Emptied}
use iel.Iou.Turn.Enter.{waiting, Entered, lrun1-Entered}

module _ {W : Type 0} (callback : ℕ → Res → W → Ctx → Option (W × Ctx))
    (observe : W → Ctx → W × Ctx) (syscall_enter : ℕ → Bool → W → Ctx → Res × W × Ctx) where
  -- The ways that a call of lrun1 ends, by its flags, the callbacks that are still queued and the answer
  pub data Exits (io_link rounds flags : ℕ) (w : W) (pud : Ctx) (queued : ℕ) (ret : Res) (w' : W)
      (pud' : Ctx) : Option (Turned W) → Type 0 where
    refused :
        flags ≢ 0 → Exits io_link rounds flags w pud queued ret w' pud' (some (failed einval w pud))
    skipped :
        flags ≡ 0
        → 0 < queued
        → Exits io_link rounds flags w pud queued ret w' pud' (some (done w' pud'))
    not_entered :
        (code : ℕ)
        → flags ≡ 0
        → queued ≡ 0
        → ret ≡ error code
        → Exits io_link rounds flags w pud queued ret w' pud'
            (some (failed (code % 2 ^ 16) w' pud'))
    turned :
        (submitted : ℕ)
        → flags ≡ 0
        → queued ≡ 0
        → ret ≡ value submitted
        → Exits io_link rounds flags w pud queued ret w' pud' (
            drain io_link pud' >>= λ (before, printed, pud).
            deliver callback observe rounds w' pud >>= λ (w, pud). some (done w pud))

  after_enter-Exits :
      (io_link rounds : ℕ) (w w' : W) (pud pud' : Ctx) (ret : Res) (xs ys : List ℕ)
      → Exits io_link rounds 0 w pud
          (length xs + length ys)
          ret
          w'
          pud'
          (after_enter callback observe io_link rounds (waiting xs ys) (ret, w', pud'))
  unfolding after_enter
  after_enter-Exits io_link rounds w w' pud pud' (value k) [] [] = turned k refl (omega arith) refl
  after_enter-Exits io_link rounds w w' pud pud' (error k) [] [] =
      not_entered k refl (omega arith) refl
  after_enter-Exits io_link rounds w w' pud pud' ret (x ∷ xs) ys =
      let t : waiting (x ∷ xs) ys ≡ true = ground arith in rw t (skipped refl (omega arith))
  after_enter-Exits io_link rounds w w' pud pud' ret [] (y ∷ ys) =
      let t : waiting [] (y ∷ ys) ≡ true = ground arith in rw t (skipped refl (omega arith))

  lrun1-refused :
      (io_link retries rounds flags : ℕ) (w : W) (pud : Ctx)
      → flags ≢ 0
      → lrun1 callback observe syscall_enter io_link retries rounds flags w pud
        ≡ some (failed einval w pud)
  unfolding lrun1
  lrun1-refused io_link retries rounds flags w pud bad = rw (eq-false flags 0 bad) refl

  -- A call of lrun1 in which the queued callbacks and io_uring_enter return. With flags it is refused and
  -- runs nothing. While a callback is queued after the runs of the queues it returns 0, whatever
  -- io_uring_enter answers, an error too, and leaves the completions and the overflow queue as that
  -- call left them. Else it returns -1 with the error that io_uring_enter answers, or drains the overflow queue
  -- and then delivers the completions.
  pub lrun1-Exits :
      (io_link retries rounds n flags : ℕ) (w w' : W) (pud pud' : Ctx) (ret : Res) (xs ys : List ℕ)
      → Entered callback observe syscall_enter w pud xs ys n ret w' pud'
      → n < retries
      → Exits io_link rounds flags w pud
          (length xs + length ys)
          ret
          w'
          pud'
          (lrun1 callback observe syscall_enter io_link retries rounds flags w pud)
  lrun1-Exits io_link retries rounds n zero w w' pud pud' ret xs ys e enough =
      subst (Exits io_link rounds 0 w pud (length xs + length ys) ret w' pud')
        (sym (
          lrun1-Entered callback observe syscall_enter io_link retries rounds n w w' pud pud' ret xs
            ys e enough))
        (after_enter-Exits io_link rounds w w' pud pud' ret xs ys)
  lrun1-Exits io_link retries rounds n (suc flags) w w' pud pud' ret xs ys e enough =
      let refusal =
        lrun1-refused io_link retries rounds (suc flags) w pud (λ z. omega (arith, z)) in
      subst (Exits io_link rounds (suc flags) w pud (length xs + length ys) ret w' pud')
        (sym refusal) (refused (λ z. omega (arith, z)))

  -- A turn with nothing queued after the runs of the queues, in which io_uring_enter submits and
  -- the drain of the overflow queue returns with a condition `P` on the world and on the context
  -- but for the queue of callbacks and the head of the completion ring, where a completion is
  -- posted. The callbacks, called with `P`, return, leave the completion ring alone, append to
  -- the queue of callbacks or not, complete no request and keep `P`; the kernel keeps `P` and
  -- that queue, and posts one completion for a request in flight. Then lrun1, on enough rounds
  -- for those posted and in flight, returns 0, and has delivered every completion, in order and
  -- once, and left the completion ring empty.
  pub lrun1-Delivers :
      (in_flight : W → ℕ) (P : W → Ctx → Type 0) (io_link retries rounds n submitted : ℕ) (w w' : W)
      (pud pud' pud'' : Ctx) (before printed : List (ℕ × ℕ)) (c : Cqe) (cs : List Cqe)
      → Entered callback observe syscall_enter w pud [] [] n (value submitted) w' pud'
      → n < retries
      → drain io_link pud' ≡ some (before, printed, pud'')
      → Calm callback observe in_flight P
      → P w' pud''
      → Posts callback observe in_flight P
      → Posted (ring_of pud') (c ∷ cs)
      → SoonQue pud'
      → length cs + in_flight w' < rounds
      → (extra : List Cqe) × (w'' : W) × (end : Ctx) × (lrun1 callback observe syscall_enter io_link
            retries rounds 0 w pud
          ≡ some (done w'' end))
        × Delivered callback observe in_flight P w' pud'' ((c ∷ cs) ++ extra) w'' end
        × (end.lcl_chead ≡ end.cring_tail)
  unfolding after_enter
  lrun1-Delivers in_flight P io_link retries rounds n submitted w w' pud pud' pud'' before printed c
        cs e enough drained calm kept_by posts posted soon small =
      let kept = drain-kept io_link pud' pud'' before printed drained in
      let d =
        deliver-Emptied callback observe in_flight P rounds calm posts w' pud'' c cs kept_by
          (subst (λ r. Posted r (c ∷ cs)) kept.ring posted)
          (record {
            left = soon.left;
            rep = subst (λ q. Rep quep_chunk_bit q soon.left) kept.soon soon.rep;
          })
          small in
      (
        d.extra,
        d.world,
        d.ctx,
        lrun1-Entered callback observe syscall_enter io_link retries rounds n w w' pud pud'
              (value submitted) [] [] e enough
            ∙ rw (drained, d.result) refl,
        d.delivered,
        d.empty,
      )
