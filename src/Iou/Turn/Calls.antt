-- ===== src/Iou/Turn/Calls.antt =====
-- What the calls of the library that a callback makes leave: a submission, and a push to a queue of
-- callbacks.
use mathlib.Core.List.{append-nil}
use mathlib.Core.Path.{subst}
use iel.Base.{ℕ, ◌≡◌, refl, ap, sym, Option, some, List, [], ◌∷◌, ◌++◌, Bool, true, false}
use iel.Que.{Que, Alloc, push}
use iel.Que.Rep.{Rep}
use iel.Que.Push.{Bounded, Appended, appended, refused, push-Appended}
use iel.Que.Reach.{SameStart, push-reach}
use iel.Iou.{Ctx, Sqe, Reply, null, accepted, quep_chunk_bit, sqofq_chunk_sz_bit}
use iel.Iou.Submit.Ring.{RingInv, Submitted, bad_flags, queued, spilled, no_memory}
use iel.Iou.Drain.Kept.{ring_of}
use iel.Iou.Turn.Posting.{consumed}

-- What a push to a queue of callbacks leaves
pub record Pushed (q : Que ℕ) (xs : List ℕ) (o : Option (Bool × Que ℕ)) : Type 0 where
  pub room : Bool
  pub que : Que ℕ
  pub extra : List ℕ
  pub result : o ≡ some (room, que)
  pub rep : Rep quep_chunk_bit que (xs ++ extra)
  pub start : SameStart q que

Appended-Pushed :
    (mem : Alloc ℕ) (q : Que ℕ) (xs : List ℕ) (v : ℕ) {o : Option (Bool × Que ℕ)}
    → Appended quep_chunk_bit mem q xs v o
    → push quep_chunk_bit mem q v ≡ o
    → Pushed q xs o
Appended-Pushed mem q xs v (appended {r = r} rep) e = record {
  room = true;
  que = r;
  extra = v ∷ [];
  result = refl;
  rep = rep;
  start = (push-reach quep_chunk_bit mem q v e).0;
}
Appended-Pushed mem q xs v (refused {r = r} rep why) e = record {
  room = false;
  que = r;
  extra = [];
  result = refl;
  rep = subst (Rep quep_chunk_bit r) (sym (append-nil xs)) rep;
  start = (push-reach quep_chunk_bit mem q v e).0;
}

pub pushes :
    (mem : Alloc ℕ) (q : Que ℕ) (xs : List ℕ) (v : ℕ)
    → Bounded mem
    → Rep quep_chunk_bit q xs
    → Pushed q xs (push quep_chunk_bit mem q v)
pushes mem q xs v ok rep =
    Appended-Pushed mem q xs v (push-Appended quep_chunk_bit mem q xs v ok rep) refl

abbrev pub ctx_of : Reply → Ctx
ctx_of (null errno pud) = pud
ctx_of (accepted result pud) = pud

-- What a submission leaves alone
pub record Left (pud : Ctx) (o : Option Reply) : Type 0 where
  pub reply : Reply
  pub result : o ≡ some reply
  pub inv : RingInv (ctx_of reply)
  pub over : List Sqe
  pub rep : Rep sqofq_chunk_sz_bit (ctx_of reply).sqofq over
  pub ring : ring_of pud ≡ ring_of (ctx_of reply)
  pub soon : (ctx_of reply).soonque ≡ pud.soonque

other_sqofq : (pud : Ctx) (q : Que Sqe) → RingInv pud → RingInv (record pud { sqofq = q })
other_sqofq pud q i = record {
  mask = i.mask;
  array_size = i.array_size;
  sqes_size = i.sqes_size;
  head_in = i.head_in;
  tail_in = i.tail_in;
  bounded = i.bounded;
  direct = i.direct;
}

pub other_soonque : (pud : Ctx) (q : Que ℕ) → RingInv pud → RingInv (record pud { soonque = q })
other_soonque pud q i = record {
  mask = i.mask;
  array_size = i.array_size;
  sqes_size = i.sqes_size;
  head_in = i.head_in;
  tail_in = i.tail_in;
  bounded = i.bounded;
  direct = i.direct;
}

pub other_chead : (pud : Ctx) → RingInv pud → RingInv (consumed pud)
other_chead pud i = record {
  mask = i.mask;
  array_size = i.array_size;
  sqes_size = i.sqes_size;
  head_in = i.head_in;
  tail_in = i.tail_in;
  bounded = i.bounded;
  direct = i.direct;
}

pub other_tail : (pud : Ctx) (t : ℕ) → RingInv pud → RingInv (record pud { cring_tail = t })
other_tail pud t i = record {
  mask = i.mask;
  array_size = i.array_size;
  sqes_size = i.sqes_size;
  head_in = i.head_in;
  tail_in = i.tail_in;
  bounded = i.bounded;
  direct = i.direct;
}

pub Submitted-Left :
    (mem : Alloc Sqe) (pud : Ctx) (xs : List Sqe) (flags : ℕ) (sqe : Sqe) {o : Option Reply}
    → RingInv pud
    → Rep sqofq_chunk_sz_bit pud.sqofq xs
    → Submitted mem pud xs flags sqe o
    → Left pud o
Submitted-Left mem pud xs flags sqe i rep (bad_flags bad) = record {
  reply = _;
  result = refl;
  inv = i;
  over = xs;
  rep = rep;
  ring = refl;
  soon = refl;
}
Submitted-Left mem pud xs flags sqe i rep (queued good after inv more last kept same head only) =
    record {
      reply = _;
      result = refl;
      inv = inv;
      over = xs;
      rep = subst (λ q. Rep sqofq_chunk_sz_bit q xs) (sym same) rep;
      ring = sym (ap ring_of only);
      soon = ap (λ (c : Ctx). c.soonque) only;
    }
Submitted-Left mem pud xs flags sqe i rep (spilled good q full rep') = record {
  reply = _;
  result = refl;
  inv = other_sqofq pud q i;
  over = xs ++ sqe ∷ [];
  rep = rep';
  ring = refl;
  soon = refl;
}
Submitted-Left mem pud xs flags sqe i rep (no_memory good q full rep' why) = record {
  reply = _;
  result = refl;
  inv = other_sqofq pud q i;
  over = xs;
  rep = rep';
  ring = refl;
  soon = refl;
}
