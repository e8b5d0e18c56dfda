-- ===== src/Iou/Turn/Busy.antt =====
-- A system whose callbacks each submit a request and queue a task, with an allocator that may refuse, and
-- whose kernel posts a completion for a request that is due.
use mathlib.Core.List.{append-nil}
use mathlib.Core.Path.{subst}
use iel.Base.{
  ℕ, ◌+◌, ◌≤◌, ◌<◌, ◌≡◌, refl, ap, sym, ◌∙◌, Option, some, ◌>>=◌, List, [], ◌∷◌, ◌++◌, ◌⊎◌, arith,
  length, length-append, get_elem?, bit_and, add32, sub32, ltb, ◌==◌, ◌&&◌,
}
use iel.Base.{Bool, true, false, if◌then◌else◌, Bool-cases, inl, inr}
use iel.Que.{Que, push}
use iel.Que.Rep.{Rep}
use iel.Iou.{Ctx, Sqe, Cqe, Res, value, error, Reply, quep_chunk_bit, sqofq_chunk_sz_bit}
use iel.Iou.Samples.{linux, no_entry, mem, mem-Bounded}
use iel.Iou.Submit.{submit_to_sq, esoon}
use iel.Iou.Submit.Tasks.{esoon-soon}
use iel.Iou.Submit.Ring.{RingInv, submit_to_sq-Submitted}
use iel.Iou.Drain.Kept.{ring_of}
use iel.Iou.Flow.Steps.{get_elem?-append_left, get_elem?-append_end}
use iel.Iou.Turn.Posting.{Called, Calm, Observed, Posts, Posted}
use iel.Iou.Turn.Calls.{pushes, ctx_of, Submitted-Left, other_soonque, other_chead, other_tail}

-- The log of the calls, and the number of requests that the kernel is yet to complete
pub record System : Type 0 where
  pub log : List (ℕ × Res)
  pub due : ℕ

abbrev pub callback : ℕ → Res → System → Ctx → Option (System × Ctx)
callback task res w pud = submit_to_sq linux (mem no_entry) pud 22 3 0 4096 512 task 0 >>= λ reply.
    esoon (mem 0) (ctx_of reply) 0 task >>= λ second.
    some (record w { log = (task, res) ∷ w.log }, ctx_of second)

callback_lem :
    (task : ℕ) (res : Res) (w : System) (pud : Ctx) (reply : Reply) (room : Bool) (r : Que ℕ)
    → submit_to_sq linux (mem no_entry) pud 22 3 0 4096 512 task 0 ≡ some reply
    → push quep_chunk_bit (mem 0) (ctx_of reply).soonque task ≡ some (room, r)
    → callback task res w pud
      ≡ some (record w { log = (task, res) ∷ w.log }, record (ctx_of reply) { soonque = r })
callback_lem task res w pud reply true r e p =
    rw (e, esoon-soon (mem 0) (ctx_of reply) task, p) refl
callback_lem task res w pud reply false r e p =
    rw (e, esoon-soon (mem 0) (ctx_of reply) task, p) refl

abbrev pub read_done : Cqe
read_done = record { user_data = 77; res = value 512 }

abbrev pub timed_out : Cqe
timed_out = record { user_data = 78; res = error 62 }

abbrev pub late : Cqe
late = record { user_data = 79; res = value 1 }

abbrev pub cqes : List Cqe
cqes = read_done ∷ timed_out ∷ late ∷ []

-- While a request is due, the kernel posts its completion if the ring has room.
abbrev pub observe : System → Ctx → System × Ctx
observe w pud =
    if w.due == 1 && ltb (sub32 pud.cring_tail pud.lcl_chead) 128
    then (record w { due = 0 }, record pud { cring_tail = add32 pud.cring_tail 1 })
    else (w, pud)

abbrev pub in_flight : System → ℕ
in_flight w = w.due

-- The condition that the callbacks and the kernel keep
pub record Fit (w : System) (pud : Ctx) : Type 0 where
  pub inv : RingInv pud
  pub over : List Sqe
  pub rep : Rep sqofq_chunk_sz_bit pud.sqofq over
  pub mask : pud.cring_mask ≡ 127
  pub entries : pud.cqes ≡ cqes
  pub owed : (w.due ≡ 0) ⊎ ((w.due ≡ 1) × (pud.cring_tail ≡ 2))

calls :
    (task : ℕ) (res : Res) (w : System) (pud : Ctx) (xs : List ℕ)
    → Fit w pud
    → Rep quep_chunk_bit pud.soonque xs
    → Called callback observe in_flight Fit w pud xs (callback task res w pud)
calls task res w pud xs f rep =
    let sub =
      submit_to_sq-Submitted linux (mem no_entry) pud f.over 22 3 0 4096 512 task 0
        (mem-Bounded no_entry) f.inv f.rep in
    let l = Submitted-Left (mem no_entry) pud f.over 0 _ f.inv f.rep sub in
    let c = ctx_of l.reply in
    let p =
      pushes (mem 0) c.soonque xs task (mem-Bounded {A = ℕ} 0)
        (subst (λ q. Rep quep_chunk_bit q xs) (sym l.soon) rep) in
    record {
      world = record w { log = (task, res) ∷ w.log };
      ctx = record c { soonque = p.que };
      extra = p.extra;
      result = callback_lem task res w pud l.reply p.room p.que l.result p.result;
      ring = l.ring;
      rep = p.rep;
      same_start = (
        p.start.0 ∙ ap (λ (q : Que ℕ). q.chunk_s) l.soon,
        p.start.1 ∙ ap (λ (q : Que ℕ). q.os_s) l.soon,
      );
      fewer = omega arith;
      keeps = record {
        inv = other_soonque c p.que l.inv;
        over = l.over;
        rep = l.rep;
        mask = sym (ap (λ r. r.mask) l.ring) ∙ f.mask;
        entries = sym (ap (λ r. r.cqes) l.ring) ∙ f.entries;
        owed =
            subst (λ (t : ℕ). (w.due ≡ 0) ⊎ ((w.due ≡ 1) × (t ≡ 2))) (ap (λ r. r.tail) l.ring)
              f.owed;
      };
    }

pub calm : Calm callback observe in_flight Fit
calm = record {
  called = calls;
  any_soonque = λ w pud q f. record {
    inv = other_soonque pud q f.inv;
    over = f.over;
    rep = f.rep;
    mask = f.mask;
    entries = f.entries;
    owed = f.owed;
  };
  any_chead = λ w pud f. record {
    inv = other_chead pud f.inv;
    over = f.over;
    rep = f.rep;
    mask = f.mask;
    entries = f.entries;
    owed = f.owed;
  };
}

late-Posted :
    (pud : Ctx) (cs : List Cqe)
    → pud.cring_mask ≡ 127
    → pud.cqes ≡ cqes
    → pud.cring_tail ≡ 2
    → sub32 pud.cring_tail pud.lcl_chead < 128
    → Posted (ring_of pud) cs
    → Posted (ring_of (record pud { cring_tail = add32 pud.cring_tail 1 })) (cs ++ late ∷ [])
late-Posted pud cs mask entries tail room p =
    let len = length-append {0} cs (late ∷ []) in
    record {
      chead_in = p.chead_in;
      few = omega (arith, len, room, p.tail_at, p.few, p.chead_in);
      tail_at = omega (arith, len, p.tail_at);
      entry = λ j h. elim (Bool-cases (j == length cs)) [
        | inl last ↦
            let e : j ≡ length cs = ground (arith, last) in
            let place : add32 pud.lcl_chead j ≡ 2 = omega (arith, e, p.tail_at, tail) in
            ap (λ (t : ℕ). get_elem? pud.cqes (bit_and t pud.cring_mask)) place
            ∙ ap (λ (m : ℕ). get_elem? pud.cqes (bit_and 2 m)) mask
            ∙ ap (λ (l : List Cqe). get_elem? l (bit_and 2 127)) entries
            ∙ sym (get_elem?-append_end cs late)
            ∙ ap (get_elem? (cs ++ late ∷ [])) (sym e)
        | inr before ↦
            let lt : j < length cs = ground (arith, before, h, len) in
            p.entry j lt ∙ sym (get_elem?-append_left cs (late ∷ []) j lt)
      ];
    }

observe-Observed :
    (w : System) (pud : Ctx) (cs new : List Cqe) (o : System × Ctx)
    → observe w pud ≡ o
    → Posted (ring_of o.1) (cs ++ new)
    → o.1.soonque ≡ pud.soonque
    → in_flight o.0 + length new ≤ in_flight w
    → Fit o.0 o.1
    → Observed callback observe in_flight Fit w pud cs
observe-Observed w pud cs new o e posted soon fewer f = record {
  new = new;
  posted = subst (λ (o : System × Ctx). Posted (ring_of o.1) (cs ++ new)) (sym e) posted;
  soon = subst (λ (o : System × Ctx). o.1.soonque ≡ pud.soonque) (sym e) soon;
  fewer = subst (λ (o : System × Ctx). in_flight o.0 + length new ≤ in_flight w) (sym e) fewer;
  keeps = subst (λ (o : System × Ctx). Fit o.0 o.1) (sym e) f;
}

pub posts : Posts callback observe in_flight Fit
posts w pud cs f p =
    elim (Bool-cases (w.due == 1 && ltb (sub32 pud.cring_tail pud.lcl_chead) 128)) [
      | inl now ↦
          let due : w.due ≡ 1 = ground (arith, now) in
          let room : sub32 pud.cring_tail pud.lcl_chead < 128 = ground (arith, now) in
          let tail : pud.cring_tail ≡ 2 = ground (arith, f.owed, due) in
          observe-Observed w pud cs (late ∷ [])
            (record w { due = 0 }, record pud { cring_tail = add32 pud.cring_tail 1 }) (rw now refl)
            (late-Posted pud cs f.mask f.entries tail room p) refl (omega (arith, due))
            (record {
              inv = other_tail pud _ f.inv;
              over = f.over;
              rep = f.rep;
              mask = f.mask;
              entries = f.entries;
              owed = inl refl;
            })
      | inr later ↦
          observe-Observed w pud cs [] (w, pud) (rw later refl)
            (subst (Posted (ring_of pud)) (sym (append-nil cs)) p) refl (omega arith) f
    ]
