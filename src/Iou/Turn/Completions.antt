-- ===== src/Iou/Turn/Completions.antt =====
-- The loop over the completions: it delivers each one that is posted, in order, and ends.
use mathlib.Core.List.{append_assoc}
use mathlib.Core.Path.{subst}
use iel.Base.{
  ℕ, zero, suc, ◌+◌, ◌<◌, ◌≡◌, refl, ap, sym, ◌∙◌, Option, some, List, [], ◌∷◌, ◌++◌, arith, length,
}
use iel.Base.{◌==◌, eq-false, eq-true, if◌then◌else◌, length-append, ◌>>=◌, false}
use iel.Que.Rep.{Rep}
use iel.Iou.{Ctx, Cqe, Res, quep_chunk_bit}
use iel.Iou.Drain.Kept.{ring_of}
use iel.Iou.Turn.{exeq_soon, invoke, deliver}
use iel.Iou.Turn.Posting.{
  Posted, SoonQue, consumed, consumed-Posted, first_entry, Calm, Posts, exeq_soon-Ran, invoke-Ran,
}

module _ {W : Type 0} (callback : ℕ → Res → W → Ctx → Option (W × Ctx))
    (observe : W → Ctx → W × Ctx) (in_flight : W → ℕ) (P : W → Ctx → Type 0) where
  -- The completions `cs` are delivered one by one, and between two of them the queued callbacks run.
  pub data Delivered : W → Ctx → List Cqe → W → Ctx → Type 0 where
    final :
        {w w1 w2 : W} {pud pud1 pud2 : Ctx} (c : Cqe)
        → invoke callback c w pud ≡ some (w1, pud1)
        → observe w1 (consumed pud1) ≡ (w2, pud2)
        → Delivered w pud (c ∷ []) w2 pud2
    onward :
        {w w1 w2 w3 w4 : W} {pud pud1 pud2 pud3 pud4 : Ctx} (c : Cqe) (cs : List Cqe)
        → invoke callback c w pud ≡ some (w1, pud1)
        → observe w1 (consumed pud1) ≡ (w2, pud2)
        → exeq_soon callback w2 pud2 ≡ some (w3, pud3)
        → Delivered w3 pud3 cs w4 pud4
        → Delivered w pud (c ∷ cs) w4 pud4

  -- What the loop ends in: everything is delivered that was posted, also meanwhile.
  pub record Emptied (w : W) (pud : Ctx) (cs : List Cqe) (o : Option (W × Ctx)) : Type 0 where
    pub extra : List Cqe
    pub world : W
    pub ctx : Ctx
    pub result : o ≡ some (world, ctx)
    pub delivered : Delivered w pud (cs ++ extra) world ctx
    pub empty : ctx.lcl_chead ≡ ctx.cring_tail
    pub soon : SoonQue ctx

  deliver_round :
      (rounds : ℕ) (w w1 : W) (pud pud1 : Ctx) (c : Cqe) (cs : List Cqe)
      → Posted (ring_of pud) (c ∷ cs)
      → invoke callback c w pud ≡ some (w1, pud1)
      → deliver callback observe (suc rounds) w pud ≡ (
          let (w, pud) = observe w1 (consumed pud1) in
          if pud.lcl_chead == pud.cring_tail
          then some (w, pud)
          else (exeq_soon callback w pud >>= λ (w, pud). deliver callback observe rounds w pud))
  unfolding deliver
  deliver_round rounds w w1 pud pud1 c cs p e = rw (first_entry pud c cs p, e) refl

  -- The loop's claim at a number of rounds
  abbrev Empties : ℕ → Type 0
  Empties rounds =
      (w : W) (pud : Ctx) (c : Cqe) (cs : List Cqe)
      → P w pud
      → Posted (ring_of pud) (c ∷ cs)
      → SoonQue pud
      → length cs + in_flight w < rounds
      → Emptied w pud (c ∷ cs) (deliver callback observe rounds w pud)

  -- What follows a delivery, where `ds` is posted then
  settle :
      (rounds : ℕ) (w w1 : W) (pud pud1 : Ctx) (c : Cqe) (cs new ds : List Cqe)
      → Calm callback observe in_flight P
      → Empties rounds
      → invoke callback c w pud ≡ some (w1, pud1)
      → cs ++ new ≡ ds
      → P (observe w1 (consumed pud1)).0 (observe w1 (consumed pud1)).1
      → Posted (ring_of (observe w1 (consumed pud1)).1) ds
      → SoonQue (observe w1 (consumed pud1)).1
      → length ds + in_flight (observe w1 (consumed pud1)).0 < suc rounds
      → Emptied w pud (c ∷ cs) (
          let (w, pud) = observe w1 (consumed pud1) in
          if pud.lcl_chead == pud.cring_tail
          then some (w, pud)
          else (exeq_soon callback w pud >>= λ (w, pud). deliver callback observe rounds w pud))
  settle rounds w w1 pud pud1 c cs new [] calm ih i e kept p soon enough =
      let (w2, pud2) = observe w1 (consumed pud1) in
      let met : pud2.lcl_chead ≡ pud2.cring_tail = omega (arith, p.chead_in, p.tail_at) in
      record {
        extra = new;
        world = w2;
        ctx = pud2;
        result = rw (eq-true pud2.lcl_chead pud2.cring_tail met) refl;
        delivered = subst (λ l. Delivered w pud (c ∷ l) w2 pud2) (sym e) (final c i refl);
        empty = met;
        soon = soon;
      }
  settle rounds w w1 pud pud1 c cs new (d ∷ ds) calm ih i e kept p soon enough =
      let (w2, pud2) = observe w1 (consumed pud1) in
      let apart : (pud2.lcl_chead == pud2.cring_tail) ≡ false =
        eq-false _ _ (λ z. omega (arith, p.chead_in, p.few, p.tail_at, z)) in
      let s = exeq_soon-Ran callback observe in_flight P w2 pud2 calm kept soon in
      let rest =
        ih s.world s.ctx d ds s.keeps (subst (λ r. Posted r (d ∷ ds)) s.ring p) s.soon
          (omega (arith, enough, s.fewer)) in
      let order : (d ∷ ds) ++ rest.extra ≡ cs ++ (new ++ rest.extra) =
        ap (λ l. l ++ rest.extra) (sym e) ∙ append_assoc cs new rest.extra in
      record {
        extra = new ++ rest.extra;
        world = rest.world;
        ctx = rest.ctx;
        result = rw (apart, s.result) rest.result;
        delivered =
            subst (λ l. Delivered w pud (c ∷ l) rest.world rest.ctx) order
              (onward c (d ∷ ds ++ rest.extra) i refl s.result rest.delivered);
        empty = rest.empty;
        soon = rest.soon;
      }

  -- Where completions are posted; the callbacks return, leave the completion ring alone, append
  -- to the queue of callbacks or not, complete no request and keep a condition `P` on the world
  -- and on the context but for that queue and the head of the ring; and the kernel keeps `P` and
  -- the queue, and posts one completion for a request in flight: the loop over the completions,
  -- on enough rounds for those posted and in flight, returns. It delivers each completion that
  -- was posted, in order and once, and those posted meanwhile, with the queued callbacks run
  -- between two of them, and leaves the ring empty.
  pub deliver-Emptied :
      (rounds : ℕ)
      → Calm callback observe in_flight P
      → Posts callback observe in_flight P
      → (w : W) (pud : Ctx) (c : Cqe) (cs : List Cqe) → P w pud
      → Posted (ring_of pud) (c ∷ cs)
      → SoonQue pud
      → length cs + in_flight w < rounds
      → Emptied w pud (c ∷ cs) (deliver callback observe rounds w pud)
  deliver-Emptied zero calm posts w pud c cs kept p soon enough = absurd (omega arith)
  deliver-Emptied (suc rounds) calm posts w pud c cs kept p soon enough =
      let i = invoke-Ran callback observe in_flight P c w pud calm kept soon in
      let p1 = consumed-Posted i.ctx c cs (subst (λ r. Posted r (c ∷ cs)) i.ring p) in
      let o = posts i.world (consumed i.ctx) cs (calm.any_chead i.world i.ctx i.keeps) p1 in
      let soon2 : SoonQue (observe i.world (consumed i.ctx)).1 = record {
        left = i.soon.left;
        rep = subst (λ q. Rep quep_chunk_bit q i.soon.left) (sym o.soon) i.soon.rep;
      } in
      let rest =
        settle rounds w i.world pud i.ctx c cs o.new (cs ++ o.new) calm
          (deliver-Emptied rounds calm posts) i.result refl o.keeps o.posted soon2
          (omega (arith, length-append {0} cs o.new, o.fewer, i.fewer, enough)) in
      rw (deliver_round rounds w i.world pud i.ctx c cs p i.result) rest
