-- ===== src/Iou/Turn/TurnTests.antt =====
-- The theorems on the loop over the completions and on lrun1 at a system whose callbacks each submit a
-- request and queue a task, and whose kernel posts a completion meanwhile.
use iel.Base.{
  ℕ, zero, suc, ◌<◌, ◌≡◌, refl, some, List, [], ◌∷◌, ◌++◌, arith, get_elem?, bit_and, add32, inr,
  Bool,
}
use iel.Iou.{Ctx, Cqe, Res, value, error}
use iel.Iou.Samples.{idle, idle-RingInv, empty_que, empty_que-Rep}
use iel.Iou.Submit.Ring.{RingInv}
use iel.Iou.Drain.Kept.{ring_of, drain-nil}
use iel.Iou.Turn.{eintr, done, deliver, lrun1, run_prep, run_soon, exeq_prep, exeq_soon}
use iel.Iou.Turn.Keeps.{exeq-nil}
use iel.Iou.Turn.Posting.{Posted, SoonQue}
use iel.Iou.Turn.Completions.{Delivered, Emptied, deliver-Emptied}
use iel.Iou.Turn.Enter.{answered, interrupted, stored, Entered}
use iel.Iou.Turn.Whole.{lrun1-Delivers}
use iel.Iou.Turn.Busy.{
  System, callback, read_done, timed_out, cqes, observe, in_flight, Fit, calm, posts,
}

-- The call is interrupted once, which is written to the log; the next one submits a request.
abbrev entered_with : List (ℕ × Res) → ℕ → System → Ctx → Res × System × Ctx
entered_with [] to_submit w pud = (error eintr, record w { log = (0, error eintr) ∷ [] }, pud)
entered_with (e ∷ log) to_submit w pud = (value to_submit, record w { due = 1 }, pud)

abbrev syscall_enter : ℕ → Bool → System → Ctx → Res × System × Ctx
syscall_enter to_submit zeroed w pud = entered_with w.log to_submit w pud

abbrev two_posted : Ctx
two_posted = record idle { cqes = cqes; cring_tail = 2 }

two_posted-RingInv : RingInv two_posted
two_posted-RingInv =
    let i = idle-RingInv in
    record {
      mask = i.mask;
      array_size = i.array_size;
      sqes_size = i.sqes_size;
      head_in = i.head_in;
      tail_in = i.tail_in;
      bounded = i.bounded;
      direct = i.direct;
    }

abbrev fresh : System
fresh = record { log = []; due = 0 }

abbrev submitted : System
submitted = record { log = (0, error eintr) ∷ []; due = 1 }

two-Posted : Posted (ring_of two_posted) (read_done ∷ timed_out ∷ [])
two-Posted = record { chead_in = omega arith; few = omega arith; tail_at = refl; entry = entry }
  where
    entry :
        (j : ℕ)
        → j < 2
        → get_elem? two_posted.cqes (bit_and (add32 0 j) 127)
          ≡ get_elem? (read_done ∷ timed_out ∷ []) j
    entry zero h = refl
    entry (suc zero) h = refl
    entry (suc (suc j)) h = absurd (omega arith)

none_soon : SoonQue two_posted
none_soon = record { left = []; rep = empty_que-Rep 7 (omega arith) }

submitted-Fit : Fit submitted two_posted
submitted-Fit = record {
  inv = two_posted-RingInv;
  over = [];
  rep = empty_que-Rep 10 (omega arith);
  mask = refl;
  entries = refl;
  owed = inr (refl, refl);
}

deliver-Emptied_example :
    Emptied callback observe in_flight Fit submitted two_posted
      (read_done ∷ timed_out ∷ [])
      (deliver callback observe 3 submitted two_posted)
deliver-Emptied_example =
    deliver-Emptied callback observe in_flight Fit 3 calm posts submitted two_posted read_done
      (timed_out ∷ []) submitted-Fit two-Posted none_soon (omega arith)

entered :
    Entered callback observe syscall_enter fresh two_posted [] [] 1
      (value 0)
      submitted
      (stored two_posted)
unfolding exeq_prep exeq_soon
entered = record {
  w1 = fresh;
  w2 = fresh;
  w3 = fresh;
  pud1 = two_posted;
  pud2 = two_posted;
  pud3 = two_posted;
  prep =
      rw
        (exeq-nil (run_prep callback) (fresh, two_posted) empty_que (empty_que-Rep 7 (omega arith)))
        refl;
  soon =
      rw
        (exeq-nil (run_soon callback) (fresh, two_posted) empty_que (empty_que-Rep 7 (omega arith)))
        refl;
  seen = refl;
  queues = record {
    soon = empty_que-Rep 7 (omega arith);
    prep = empty_que-Rep 7 (omega arith);
    few_soon = omega arith;
    few_prep = omega arith;
  };
  answer = interrupted refl (answered (value 0) refl (λ e. cc));
}

stored-Fit : Fit submitted (stored two_posted)
stored-Fit = record {
  inv =
      let i = two_posted-RingInv in
      record {
        mask = i.mask;
        array_size = i.array_size;
        sqes_size = i.sqes_size;
        head_in = i.head_in;
        tail_in = i.tail_in;
        bounded = i.bounded;
        direct = i.direct;
      };
  over = [];
  rep = empty_que-Rep 10 (omega arith);
  mask = refl;
  entries = refl;
  owed = inr (refl, refl);
}

lrun1-Delivers_example :
    (extra : List Cqe) × (w : System) × (end : Ctx) × (lrun1 callback observe syscall_enter 4 2 3 0
        fresh two_posted
      ≡ some (done w end))
    × Delivered callback observe in_flight Fit submitted
        (stored two_posted)
        ((read_done ∷ timed_out ∷ []) ++ extra)
        w
        end
    × (end.lcl_chead ≡ end.cring_tail)
lrun1-Delivers_example =
    lrun1-Delivers callback observe syscall_enter in_flight Fit 4 2 3 1 0 fresh submitted two_posted
      (stored two_posted) (stored two_posted) [] [] read_done (timed_out ∷ []) entered (omega arith)
      (drain-nil 4 (stored two_posted) (empty_que-Rep 10 (omega arith))) calm stored-Fit posts
      two-Posted none_soon (omega arith)
