-- ===== src/Iou/Flow/Tests.antt =====
-- The theorems on sequences of steps at a run of 65 submissions, of which the last goes to the overflow
-- queue: the kernel consumes 60 entries, a drain moves the queued one behind the 4 that are
-- pending, and the kernel consumes the rest.
use mathlib.Core.List.{Perm}
use iel.Base.{
  ℕ, zero, suc, ◌+◌, ◌≤◌, ◌<◌, ◌≡◌, refl, sym, ap, ◌∙◌, Option, some, List, [], ◌∷◌, ◌++◌, inl, inr,
  arith, add32, length, length-append, take, drop,
}
use mathlib.Core.Path.{subst}
use iel.Que.{Que}
use iel.Que.Rep.{Rep}
use iel.Iou.{Ctx, Sqe, Reply, accepted, sqofq_chunk_sz_bit}
use iel.Iou.Samples.{
  linux, no_entry, idle, idle-RingInv, empty_que, empty_que-Rep, mem, mem-Bounded,
}
use iel.Iou.Submit.{sqe_of}
use iel.Iou.Submit.Ring.{
  RingInv, pending, sqe_of-plain, placed, placed-RingInv, pending-placed, submit_to_sq-room,
  Submitted, bad_flags, queued, spilled, no_memory, submit_to_sq-Submitted,
}
use iel.Iou.Drain.Links.{batch}
use iel.Iou.Drain.Refill.{refilled, drain-Refilled}
use iel.Iou.Flow.{Flow, Lossless, Reach, submit, consume, refill, here, onward}
use iel.Iou.Flow.Steps.{Pending, consume-Pending}
use iel.Iou.Flow.Refilled.{drain-Pending}
use iel.Iou.Flow.Conserved.{Sound, reach-Sound, reach-seen}

abbrev sqe : Sqe
sqe = sqe_of linux 22 3 0 4096 512 77 0

abbrev at_first : Flow
at_first = record { pud = idle; taken = []; seen = [] }

run-Sound : (t : Flow) → Reach linux 4 at_first t → Sound t
run-Sound t steps =
    reach-Sound linux 4 at_first t idle-RingInv refl (empty_que-Rep 10 (omega arith)) refl refl
      steps

-- After `n` submissions, with room for each
record Filled (n : ℕ) : Type 0 where
  flow : Flow
  steps : Reach linux 4 at_first flow
  inv : RingInv flow.pud
  count : pending flow.pud ≡ n
  same : flow.pud.sqofq ≡ empty_que

fill : (n : ℕ) → n ≤ 64 → Filled n
unfolding placed
fill zero h = record {
  flow = at_first;
  steps = here;
  inv = idle-RingInv;
  count = refl;
  same = refl;
}
fill (suc n) h =
    let f = fill n (omega arith) in
    let free : pending f.flow.pud < 64 = omega (arith, f.count) in
    record {
      flow = record (f.flow) { pud = placed f.flow.pud sqe; taken = sqe ∷ f.flow.taken };
      steps = onward f.steps (
          submit (mem no_entry) 22 3 0 4096 512 77 0 sqe.user_data (mem-Bounded no_entry) (
            submit_to_sq-room linux (mem no_entry) f.flow.pud 22 3 0 4096 512 77 0 f.inv free
              refl));
      inv = placed-RingInv f.flow.pud sqe f.inv free;
      count = omega (arith, pending-placed f.flow.pud sqe f.inv free, f.count);
      same = f.same;
    }

spill :
    (pud : Ctx) {o : Option Reply}
    → Submitted (mem no_entry) pud [] 0 sqe o
    → pending pud ≡ 64
    → pud.sqofq ≡ empty_que
    → (q : Que Sqe) × (o ≡ some (accepted sqe.user_data (record pud { sqofq = q })))
      × Rep sqofq_chunk_sz_bit q (sqe ∷ [])
spill pud (bad_flags bad) full same = absurd cc
spill pud (queued good after inv more last kept s h only) full same =
    absurd (omega (arith, more, full, inv.bounded))
spill pud (spilled good q f rep) full same = (q, refl, rep)
spill pud (no_memory good q f rep (inl none_left)) full same = absurd cc
spill pud (no_memory good q f rep (inr denied)) full same =
    absurd (ground (arith, denied, ap (λ (q : Que Sqe). q.mapcap) same))

-- A stage of the run: what is pending and what is queued
record Stage (n : ℕ) (over : List Sqe) : Type 0 where
  flow : Flow
  steps : Reach linux 4 at_first flow
  ring : List Sqe
  is_pending : Pending flow.pud ring
  count : length ring ≡ n
  rep : Rep sqofq_chunk_sz_bit flow.pud.sqofq over

overflow : Stage 64 (sqe ∷ [])
overflow =
    let f = fill 64 (omega arith) in
    let none_over =
      subst (λ (q : Que Sqe). Rep sqofq_chunk_sz_bit q []) (sym f.same)
        (empty_que-Rep 10 (omega arith)) in
    let (q, e, rep) =
      spill f.flow.pud
        (submit_to_sq-Submitted linux (mem no_entry) f.flow.pud [] 22 3 0 4096 512 77 0
          (mem-Bounded no_entry) f.inv none_over)
        f.count f.same in
    let last : Flow = record (f.flow) {
      pud = record (f.flow.pud) { sqofq = q };
      taken = sqe ∷ f.flow.taken;
    } in
    let steps : Reach linux 4 at_first last =
      onward f.steps
        (submit (mem no_entry) 22 3 0 4096 512 77 0 sqe.user_data (mem-Bounded no_entry) e) in
    let v = run-Sound last steps in
    record {
      flow = last;
      steps = steps;
      ring = v.ring;
      is_pending = v.is_pending;
      count = v.is_pending.count ∙ f.count;
      rep = rep;
    }

consume_first :
    {over : List Sqe} (k : ℕ) (s : Stage (suc k) over) (ring : List Sqe)
    → Pending s.flow.pud ring
    → length ring ≡ suc k
    → Stage k over
consume_first k s [] p e = absurd (omega (arith, e))
consume_first k s (x ∷ ring) p e =
    let (first, rest) = consume-Pending s.flow.pud x ring p in
    record {
      flow = record (s.flow) {
        pud = record (s.flow.pud) { sring_head = add32 s.flow.pud.sring_head 1 };
        seen = x ∷ s.flow.seen;
      };
      steps = onward s.steps (consume x (omega (arith, p.count)) first);
      ring = ring;
      is_pending = rest;
      count = omega (arith, e);
      rep = s.rep;
    }

consumes : {over : List Sqe} (n k : ℕ) → Stage (n + k) over → Stage k over
consumes {over} zero k s = subst (λ (t : ℕ). Stage t over) {x = 0 + k} {y = k} (omega arith) s
consumes {over} (suc n) k s =
    let s' = subst (λ (t : ℕ). Stage t over) {x = suc n + k} {y = suc (n + k)} (omega arith) s in
    consumes n k (consume_first (n + k) s' s'.ring s'.is_pending s'.count)

one_batch : batch 4 (take 64 (sqe ∷ [])) ≡ 1
one_batch = rw (sqe_of-plain linux 22 3 0 4096 512 77) refl

drained : Stage 4 (sqe ∷ []) → Stage 5 []
drained s =
    let pud = s.flow.pud in
    let l : Lossless 4 pud (sqe ∷ []) = record {
      rep = s.rep;
      small = omega arith;
      some_end = λ h. omega (arith, one_batch);
      room = omega (arith, one_batch, s.count, s.is_pending.count);
      fits = omega (arith, one_batch);
      tight = inl one_batch;
    } in
    let d =
      drain-Refilled 4 pud (sqe ∷ []) s.is_pending.inv s.rep l.small (omega (arith, one_batch))
        l.fits in
    let after = refilled pud (batch 4 (take 64 (sqe ∷ []))) d.array d.sqes d.que in
    let (p, rest) =
      subst
        (λ (n : ℕ).
          Pending after (s.ring ++ take n (sqe ∷ []))
          × Rep sqofq_chunk_sz_bit after.sqofq (drop n (sqe ∷ [])))
        one_batch (drain-Pending 4 pud after s.ring (sqe ∷ []) _ _ s.is_pending l d.result) in
    record {
      flow = record (s.flow) { pud = after };
      steps = onward s.steps (refill (sqe ∷ []) _ _ l d.result);
      ring = s.ring ++ sqe ∷ [];
      is_pending = p;
      count = length-append {0} s.ring (sqe ∷ []) ∙ omega (arith, s.count);
      rep = rest;
    }

refilled_stage : Stage 5 []
refilled_stage = drained (consumes 60 4 overflow)

reach-Sound_example : Sound refilled_stage.flow
reach-Sound_example =
    reach-Sound linux 4 at_first refilled_stage.flow idle-RingInv refl
      (empty_que-Rep 10 (omega arith)) refl refl refilled_stage.steps

at_last : Stage 0 []
at_last = consumes 5 0 refilled_stage

abbrev all_steps : Reach linux 4 at_first at_last.flow
all_steps = at_last.steps

reach-seen_example : Perm at_last.flow.taken at_last.flow.seen
reach-seen_example =
    reach-seen linux 4 at_first at_last.flow idle-RingInv refl (empty_que-Rep 10 (omega arith)) refl
      refl all_steps (sym at_last.is_pending.count ∙ at_last.count) at_last.rep
