-- ===== src/Iou/Turn/Posting.antt =====
-- What stands in the completion ring, what a callback and the kernel may do meanwhile, and what the
-- callbacks of one round leave.
use iel.Base.{
  ℕ, suc, ◌+◌, ◌^◌, ◌≤◌, ◌<◌, ◌≡◌, refl, ap, ◌∙◌, Option, some, List, ◌∷◌, ◌++◌, arith, length,
}
use iel.Base.{get_elem?, bit_and, add32, Bool-cases, inl, inr, ◌==◌}
use iel.Que.{Que}
use iel.Que.Rep.{Rep}
use iel.Iou.{Ctx, Cqe, Res, value, quep_chunk_bit}
use iel.Iou.Drain.Kept.{Ring, ring_of}
use iel.Iou.Turn.{run_soon, exeq_soon, invoke}
use iel.Iou.Turn.Keeps.{Keeps, exeq-Settled}

-- The completions `cs` stand between the head and the tail.
pub record Posted (r : Ring) (cs : List Cqe) : Type 0 where
  pub chead_in : r.chead < 2 ^ 32
  pub few : length cs < 2 ^ 32
  pub tail_at : add32 r.chead (length cs) ≡ r.tail
  pub entry :
      (j : ℕ) → j < length cs → get_elem? r.cqes (bit_and (add32 r.chead j) r.mask) ≡ get_elem? cs j

-- The queue of callbacks is well formed.
pub record SoonQue (pud : Ctx) : Type 0 where
  pub left : List ℕ
  pub rep : Rep quep_chunk_bit pud.soonque left

abbrev pub consumed : Ctx → Ctx
consumed pud = record pud { lcl_chead = add32 pud.lcl_chead 1 }

pub consumed-Posted :
    (pud : Ctx) (c : Cqe) (cs : List Cqe)
    → Posted (ring_of pud) (c ∷ cs)
    → Posted (ring_of (consumed pud)) cs
consumed-Posted pud c cs p = record {
  chead_in = omega arith;
  few = omega (arith, p.few);
  tail_at =
      ap (λ (t : ℕ). t) {x = add32 (add32 pud.lcl_chead 1) (length cs)}
        {y = add32 pud.lcl_chead (suc (length cs))} (omega arith)
      ∙ p.tail_at;
  entry = λ j h.
      ap (λ (t : ℕ). get_elem? pud.cqes (bit_and t pud.cring_mask))
        {x = add32 (add32 pud.lcl_chead 1) j} {y = add32 pud.lcl_chead (suc j)} (omega arith)
      ∙ p.entry (suc j) (omega arith);
}

pub first_entry :
    (pud : Ctx) (c : Cqe) (cs : List Cqe)
    → Posted (ring_of pud) (c ∷ cs)
    → get_elem? pud.cqes (bit_and pud.lcl_chead pud.cring_mask) ≡ some c
first_entry pud c cs p =
    ap (λ (t : ℕ). get_elem? pud.cqes (bit_and t pud.cring_mask)) {x = pud.lcl_chead}
      {y = add32 pud.lcl_chead 0} (omega (arith, p.chead_in))
    ∙ p.entry 0 (omega arith)

module _ {W : Type 0} (callback : ℕ → Res → W → Ctx → Option (W × Ctx))
    (observe : W → Ctx → W × Ctx) (in_flight : W → ℕ) (P : W → Ctx → Type 0) where
  -- A callback returns, leaves the completion ring alone, appends to the queue of callbacks or not,
  -- completes no request, and keeps `P`.
  pub record Called (w : W) (pud : Ctx) (xs : List ℕ) (o : Option (W × Ctx)) : Type 0 where
    pub world : W
    pub ctx : Ctx
    pub extra : List ℕ
    pub result : o ≡ some (world, ctx)
    pub ring : ring_of pud ≡ ring_of ctx
    pub rep : Rep quep_chunk_bit ctx.soonque (xs ++ extra)
    pub same_start :
        (ctx.soonque.chunk_s ≡ pud.soonque.chunk_s) × (ctx.soonque.os_s ≡ pud.soonque.os_s)
    pub fewer : in_flight world ≤ in_flight w
    pub keeps : P world ctx

  -- What is asked of the callbacks, in worlds and contexts with `P`, and that `P` does not look at the
  -- queue of callbacks and at the head of the completion ring
  pub record Calm : Type 0 where
    pub called :
        (task : ℕ) (res : Res) (w : W) (pud : Ctx) (xs : List ℕ)
        → P w pud
        → Rep quep_chunk_bit pud.soonque xs
        → Called w pud xs (callback task res w pud)
    pub any_soonque : (w : W) (pud : Ctx) (q : Que ℕ) → P w pud → P w (record pud { soonque = q })
    pub any_chead : (w : W) (pud : Ctx) → P w pud → P w (consumed pud)

  -- The kernel posts behind what stands in the ring, one completion for a request in flight.
  pub record Observed (w : W) (pud : Ctx) (cs : List Cqe) : Type 0 where
    pub new : List Cqe
    pub posted : Posted (ring_of (observe w pud).1) (cs ++ new)
    pub soon : (observe w pud).1.soonque ≡ pud.soonque
    pub fewer : in_flight (observe w pud).0 + length new ≤ in_flight w
    pub keeps : P (observe w pud).0 (observe w pud).1

  abbrev pub Posts : Type 0
  Posts =
      (w : W) (pud : Ctx) (cs : List Cqe) → P w pud → Posted (ring_of pud) cs → Observed w pud cs

  -- What the run of the queued callbacks leaves
  pub record Ran (w : W) (pud : Ctx) (o : Option (W × Ctx)) : Type 0 where
    pub world : W
    pub ctx : Ctx
    pub result : o ≡ some (world, ctx)
    pub ring : ring_of pud ≡ ring_of ctx
    pub soon : SoonQue ctx
    pub fewer : in_flight world ≤ in_flight w
    pub keeps : P world ctx

  abbrev Alike : W → Ctx → W × Ctx → Type 0
  Alike w pud (w', pud') = (ring_of pud ≡ ring_of pud') × (in_flight w' ≤ in_flight w) × P w' pud'

  run_soon-Keeps : (w : W) (pud : Ctx) → Calm → Keeps (Alike w pud) (run_soon callback)
  unfolding run_soon
  run_soon-Keeps w pud calm task (w1, pud1) q xs rep p =
      let c =
        calm.called task (value 0) w1 (record pud1 { soonque = q }) xs
          (calm.any_soonque w1 pud1 q p.2) rep in
      record {
        world = (c.world, c.ctx);
        que = c.ctx.soonque;
        extra = c.extra;
        result = rw (c.result) refl;
        rep = c.rep;
        same_start = c.same_start;
        keeps = (p.0 ∙ c.ring, omega (arith, c.fewer, p.1), c.keeps);
      }

  pub exeq_soon-Ran :
      (w : W) (pud : Ctx) → Calm → P w pud → SoonQue pud → Ran w pud (exeq_soon callback w pud)
  unfolding exeq_soon
  exeq_soon-Ran w pud calm p s =
      let e =
        exeq-Settled (Alike w pud) (run_soon callback) (w, pud) pud.soonque s.left
          (run_soon-Keeps w pud calm) s.rep (refl, omega arith, p) in
      record {
        world = e.world.0;
        ctx = record (e.world.1) { soonque = e.que };
        result = rw (e.result) refl;
        ring = e.keeps.0;
        soon = record { left = e.left; rep = e.rep };
        fewer = e.keeps.1;
        keeps = calm.any_soonque e.world.0 e.world.1 e.que e.keeps.2;
      }

  -- What invoking an entry leaves
  pub invoke-Ran :
      (c : Cqe) (w : W) (pud : Ctx)
      → Calm
      → P w pud
      → SoonQue pud
      → Ran w pud (invoke callback c w pud)
  unfolding invoke
  invoke-Ran c w pud calm p s = elim (Bool-cases (c.user_data == 0)) [
    | inl no_callback ↦ rw no_callback (record {
      world = w;
      ctx = pud;
      result = refl;
      ring = refl;
      soon = s;
      fewer = omega arith;
      keeps = p;
    })
    | inr some_callback ↦
        let k = calm.called c.user_data c.res w pud s.left p s.rep in
        rw some_callback (record {
          world = k.world;
          ctx = k.ctx;
          result = k.result;
          ring = k.ring;
          soon = record { left = s.left ++ k.extra; rep = k.rep };
          fewer = k.fewer;
          keeps = k.keeps;
        })
  ]
