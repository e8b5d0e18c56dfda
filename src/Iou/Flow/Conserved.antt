-- ===== src/Iou/Flow/Conserved.antt =====
-- No request is lost or doubled on its way to the kernel, along every sequence of steps.
use mathlib.Core.List.{Perm, perm_middle, append_assoc, append-nil}
use mathlib.Core.List.Perm
use mathlib.Core.Path.{subst}
use mathlib.Core.Option.{some-injective}
use iel.Base.{
  ℕ, ◌<◌, ◌≡◌, sym, ap, ◌∙◌, some, List, [], ◌∷◌, ◌++◌, arith, length, take, drop, take-append_drop,
  add32,
}
use iel.Que.Rep.{Rep}
use iel.Que.Read.{Rep-unique}
use iel.Iou.{Ctx, Sqe, Uapi, sqofq_chunk_sz_bit}
use iel.Iou.Submit.Ring.{RingInv, pending, ring_at, submit_to_sq-Submitted}
use iel.Iou.Drain.{drain}
use iel.Iou.Drain.Links.{batch}
use iel.Iou.Flow.{Flow, Lossless, Step, submit, refuse, consume, refill, Reach, here, onward}
use iel.Iou.Flow.Refilled.{drain-Pending}
use iel.Iou.Flow.Steps.{
  Pending, Placed, in_ring, in_queue, accepted-Placed, null-Placed, consume-Pending,
}

-- The accepted entries are those that the kernel has seen, the pending ones and the queued ones.
pub record Sound (s : Flow) : Type 0 where
  pub ring : List Sqe
  pub over : List Sqe
  pub is_pending : Pending s.pud ring
  pub is_queued : Rep sqofq_chunk_sz_bit s.pud.sqofq over
  pub all : Perm s.taken (s.seen ++ (ring ++ over))

insert_middle :
    (x : Sqe) (taken xs ys : List Sqe) → Perm taken (xs ++ ys) → Perm (x ∷ taken) (xs ++ x ∷ ys)
insert_middle x taken xs ys p = Perm.trans (Perm.cons x p) (Perm.symm (perm_middle xs ys))

in_ring-perm :
    (x : Sqe) (taken seen ring over : List Sqe)
    → Perm taken (seen ++ (ring ++ over))
    → Perm (x ∷ taken) (seen ++ ((ring ++ x ∷ []) ++ over))
in_ring-perm x taken seen ring over p =
    let q =
      insert_middle x taken (seen ++ ring) over
        (subst (Perm taken) (sym (append_assoc seen ring over)) p) in
    subst (Perm (x ∷ taken))
      (append_assoc seen ring (x ∷ over)
        ∙ ap (λ l. seen ++ l) (sym (append_assoc ring (x ∷ []) over)))
      q

in_queue-perm :
    (x : Sqe) (taken seen ring over : List Sqe)
    → Perm taken (seen ++ (ring ++ over))
    → Perm (x ∷ taken) (seen ++ (ring ++ (over ++ x ∷ [])))
in_queue-perm x taken seen ring over p =
    let q =
      insert_middle x taken (seen ++ (ring ++ over)) []
        (subst (Perm taken) (sym (append-nil (seen ++ (ring ++ over)))) p) in
    subst (Perm (x ∷ taken))
      (append_assoc seen (ring ++ over) (x ∷ [])
        ∙ ap (λ l. seen ++ l) (append_assoc ring over (x ∷ [])))
      q

Placed-Sound :
    (s : Flow) (after : Ctx) (sqe : Sqe) (v : Sound s)
    → Placed s.pud v.ring v.over sqe after
    → Sound (record s { pud = after; taken = sqe ∷ s.taken })
Placed-Sound s after sqe v (in_ring _ p rep) = record {
  ring = v.ring ++ sqe ∷ [];
  over = v.over;
  is_pending = p;
  is_queued = rep;
  all = in_ring-perm sqe s.taken s.seen v.ring v.over v.all;
}
Placed-Sound s after sqe v (in_queue _ p rep) = record {
  ring = v.ring;
  over = v.over ++ sqe ∷ [];
  is_pending = p;
  is_queued = rep;
  all = in_queue-perm sqe s.taken s.seen v.ring v.over v.all;
}

consumed-Sound :
    (s : Flow) (sqe : Sqe) (ring over : List Sqe)
    → Pending s.pud ring
    → Rep sqofq_chunk_sz_bit s.pud.sqofq over
    → Perm s.taken (s.seen ++ (ring ++ over))
    → 0 < pending s.pud
    → ring_at s.pud s.pud.sring_head ≡ some sqe
    → Sound (record s {
      pud = record (s.pud) { sring_head = add32 s.pud.sring_head 1 };
      seen = sqe ∷ s.seen;
    })
consumed-Sound s sqe [] over p rep all some_there e = absurd (omega (arith, p.count, some_there))
consumed-Sound s sqe (x ∷ ring) over p rep all some_there e =
    let (first, rest) = consume-Pending s.pud x ring p in
    let same : x ≡ sqe = some-injective _ _ (sym first ∙ e) in
    record {
      ring = ring;
      over = over;
      is_pending = rest;
      is_queued = rep;
      all =
          subst (λ y. Perm s.taken (y ∷ (s.seen ++ (ring ++ over)))) same
            (Perm.trans all (perm_middle s.seen (ring ++ over)));
    }

drained-Sound :
    (io_link : ℕ) (s : Flow) (after : Ctx) (ring over xs : List Sqe) (before printed : List (ℕ × ℕ))
    → Pending s.pud ring
    → Perm s.taken (s.seen ++ (ring ++ over))
    → over ≡ xs
    → Lossless io_link s.pud xs
    → drain io_link s.pud ≡ some (before, printed, after)
    → Sound (record s { pud = after })
drained-Sound io_link s after ring over xs before printed p all same l e =
    let n = batch io_link (take 64 xs) in
    let (q, rep) = drain-Pending io_link s.pud after ring xs before printed p l e in
    record {
      ring = ring ++ take n xs;
      over = drop n xs;
      is_pending = q;
      is_queued = rep;
      all =
          subst (λ m. Perm s.taken (s.seen ++ m))
            (ap (λ m. ring ++ m) (same ∙ sym (take-append_drop n xs))
              ∙ sym (append_assoc ring (take n xs) (drop n xs)))
            all;
    }

module _ (uapi : Uapi) (io_link : ℕ) where
  step-Sound : (s t : Flow) → Step uapi io_link s t → Sound s → Sound t
  step-Sound s t (submit {pud' = after} mem op fd off addr len user_data flags result ok e) v =
      let sub =
        submit_to_sq-Submitted uapi mem s.pud v.over op fd off addr len user_data flags ok
          v.is_pending.inv v.is_queued in
      Placed-Sound s after _ v
        (accepted-Placed s.pud after v.ring v.over flags result _ v.is_pending v.is_queued sub e)
  step-Sound s t (refuse {pud' = after} mem op fd off addr len user_data flags errno ok e) v =
      let sub =
        submit_to_sq-Submitted uapi mem s.pud v.over op fd off addr len user_data flags ok
          v.is_pending.inv v.is_queued in
      let (p, rep) =
        null-Placed s.pud after v.ring v.over flags errno _ v.is_pending v.is_queued sub e in
      record { ring = v.ring; over = v.over; is_pending = p; is_queued = rep; all = v.all }
  step-Sound s t (consume sqe some_there e) v =
      consumed-Sound s sqe v.ring v.over v.is_pending v.is_queued v.all some_there e
  step-Sound s t (refill {pud' = after} xs before printed l e) v =
      drained-Sound io_link s after v.ring v.over xs before printed v.is_pending v.all
        (Rep-unique sqofq_chunk_sz_bit s.pud.sqofq v.over xs v.is_queued l.rep) l e

  -- On every sequence of submissions with a bounded allocator, accepted or refused, of entries
  -- that the kernel consumes, and of drains of fewer than 2 ^ 64 entries whose batch, the entries
  -- up to the last unlinked one of the first 64, is not empty unless the queue is, finds room
  -- behind the pending entries and before the end of the ring, and is all of the queue or ends
  -- where its chunk ends, from a context without entries: the ring keeps its invariant, and the
  -- accepted entries are, up to order, those that the kernel has seen, the pending ones and those
  -- in the overflow queue, each as often as it was accepted.
  pub reach-Sound :
      (s t : Flow)
      → RingInv s.pud
      → pending s.pud ≡ 0
      → Rep sqofq_chunk_sz_bit s.pud.sqofq []
      → s.taken ≡ []
      → s.seen ≡ []
      → Reach uapi io_link s t
      → Sound t
  reach-Sound s t inv empty rep none_taken none_seen here = record {
    ring = [];
    over = [];
    is_pending = record { inv = inv; count = sym empty; holds = λ j h. elim h [ ] };
    is_queued = rep;
    all =
        subst (λ l. Perm l (s.seen ++ [])) (sym none_taken)
          (subst (λ l. Perm [] (l ++ [])) (sym none_seen) Perm.rfl);
  }
  reach-Sound s t inv empty rep none_taken none_seen (onward r step) =
      step-Sound _ t step (reach-Sound s _ inv empty rep none_taken none_seen r)

  -- On the same sequences, of submissions with a bounded allocator, consumed entries, and drains
  -- of fewer than 2 ^ 64 entries whose batch is not empty unless the queue is, finds room behind
  -- the pending entries and before the end of the ring, and is all of the queue or ends where its
  -- chunk ends, from a context without entries: once nothing is pending and the overflow queue is
  -- empty, the kernel has seen every accepted entry, each as often as it was accepted, in some
  -- order.
  pub reach-seen :
      (s t : Flow)
      → RingInv s.pud
      → pending s.pud ≡ 0
      → Rep sqofq_chunk_sz_bit s.pud.sqofq []
      → s.taken ≡ []
      → s.seen ≡ []
      → Reach uapi io_link s t
      → pending t.pud ≡ 0
      → Rep sqofq_chunk_sz_bit t.pud.sqofq []
      → Perm t.taken t.seen
  reach-seen s t inv empty rep none_taken none_seen r done none_over =
      let v = reach-Sound s t inv empty rep none_taken none_seen r in
      settled t v.ring v.over v.all (v.is_pending.count ∙ done)
        (Rep-unique sqofq_chunk_sz_bit t.pud.sqofq v.over [] v.is_queued none_over)
    where
      settled :
          (t : Flow) (ring over : List Sqe)
          → Perm t.taken (t.seen ++ (ring ++ over))
          → length ring ≡ 0
          → over ≡ []
          → Perm t.taken t.seen
      settled t [] over all len none_over =
          subst (Perm t.taken) (ap (λ l. t.seen ++ l) none_over ∙ append-nil t.seen) all
      settled t (x ∷ ring) over all len none_over = absurd (omega (arith, len))
