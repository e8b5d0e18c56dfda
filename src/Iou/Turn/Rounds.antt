-- ===== src/Iou/Turn/Rounds.antt =====
-- One round of the loop of exeq: the task that it takes, and whether it is the last one.
use iel.Base.{ℕ, suc, ◌+◌, ◌*◌, ◌<◌, ◌≡◌, ap, ◌∙◌, Option, some, Bool, true, false, ◌&&◌}
use iel.Base.{List, [], ◌∷◌, arith, if◌then◌else◌, ◌==◌, Bool-cases, inl, inr}
use iel.Que.{Que, more, last, pop1, ents}
use iel.Que.Rep.{Rep, start, chunk-le}
use iel.Que.Pop.{pop1-nil, pop1-one, pop1-cons_moved}
use iel.Iou.{quep_chunk_bit}
use iel.Iou.Turn.{exeq_loop}

-- Two names of one position
one_position :
    (bits c o d k : ℕ)
    → o < ents bits
    → k < ents bits
    → c * ents bits + o ≡ d * ents bits + k
    → (c ≡ d) × (o ≡ k)
one_position bits c o d k ho hk e =
    let le = chunk-le bits c o d k ho hk (omega arith) in
    let ge = chunk-le bits d k c o hk ho (omega arith) in
    let same : c ≡ d = omega arith in (same, omega (arith, e, ap (λ (t : ℕ). t * ents bits) same))

-- `chunk_stop` and `os_stop` name a position past `n` elements of the queue.
abbrev pub StopsAfter : Que ℕ → ℕ → ℕ → ℕ → Type 0
StopsAfter q n chunk_stop os_stop =
    chunk_stop * ents quep_chunk_bit + os_stop ≡ start quep_chunk_bit q + n

module _ (chunk_stop os_stop : ℕ) where
  not_yet :
      (q r : Que ℕ) (n : ℕ)
      → StopsAfter q (suc (suc n)) chunk_stop os_stop
      → start quep_chunk_bit r ≡ start quep_chunk_bit q + 1
      → (chunk_stop == r.chunk_s && os_stop == r.os_s) ≡ false
  not_yet q r n stop moved = elim (Bool-cases (chunk_stop == r.chunk_s && os_stop == r.os_s)) [
    | inr e ↦ e
    | inl e ↦
        let c : chunk_stop ≡ r.chunk_s = ground (arith, e) in
        let o : os_stop ≡ r.os_s = ground (arith, e) in
        absurd (omega (arith, stop, moved, ap (λ (t : ℕ). t * ents quep_chunk_bit) c, o))
  ]

  -- The task before the stop is the last one.
  pub takes_last :
      (q : Que ℕ) (x : ℕ) (extra : List ℕ)
      → os_stop < ents quep_chunk_bit
      → Rep quep_chunk_bit q (x ∷ extra)
      → StopsAfter q 1 chunk_stop os_stop
      → (r : Que ℕ) × (pop1 quep_chunk_bit q chunk_stop os_stop ≡ some (last x, r))
        × Rep quep_chunk_bit r extra
  takes_last q x [] narrow rep stop =
      let (r, rep', e) = pop1-one quep_chunk_bit q x chunk_stop os_stop rep in (r, e, rep')
  takes_last q x (y ∷ extra) narrow rep stop =
      let (r, rep', moved, e) = pop1-cons_moved quep_chunk_bit q x y extra chunk_stop os_stop rep in
      let (c, o) =
        one_position quep_chunk_bit chunk_stop os_stop r.chunk_s r.os_s narrow rep'.os_s_in
          (omega (arith, stop, moved)) in
      let here : (chunk_stop == r.chunk_s && os_stop == r.os_s) ≡ true = ground (arith, c, o) in
      (r, e ∙ ap (λ (b : Bool). if b then some (last x, r) else some (more x, r)) here, rep')

  -- The tasks before it are not.
  pub takes_more :
      (q : Que ℕ) (x y : ℕ) (n : ℕ) (xs : List ℕ)
      → Rep quep_chunk_bit q (x ∷ y ∷ xs)
      → StopsAfter q (suc (suc n)) chunk_stop os_stop
      → (r : Que ℕ) × (pop1 quep_chunk_bit q chunk_stop os_stop ≡ some (more x, r))
        × Rep quep_chunk_bit r (y ∷ xs)
        × StopsAfter r (suc n) chunk_stop os_stop
  takes_more q x y n xs rep stop =
      let (r, rep', moved, e) = pop1-cons_moved quep_chunk_bit q x y xs chunk_stop os_stop rep in
      let there = not_yet q r n stop moved in
      (
        r,
        e ∙ ap (λ (b : Bool). if b then some (last x, r) else some (more x, r)) there,
        rep',
        omega (arith, stop, moved),
      )

  module _ {W : Type 0} (run : ℕ → W → Que ℕ → Option (W × Que ℕ)) where
    pub last_round :
        (rounds : ℕ) (w : W) (q r : Que ℕ) (x : ℕ)
        → pop1 quep_chunk_bit q chunk_stop os_stop ≡ some (last x, r)
        → exeq_loop run (suc rounds) w q chunk_stop os_stop ≡ run x w r
    unfolding exeq_loop
    last_round rounds w q r x e = rw e

    pub more_round :
        (rounds : ℕ) (w w' : W) (q r q' : Que ℕ) (x : ℕ)
        → pop1 quep_chunk_bit q chunk_stop os_stop ≡ some (more x, r)
        → run x w r ≡ some (w', q')
        → exeq_loop run (suc rounds) w q chunk_stop os_stop
          ≡ exeq_loop run rounds w' q' chunk_stop os_stop
    unfolding exeq_loop
    more_round rounds w w' q r q' x e ran = rw (e, ran)

pub empty_round :
    {W : Type 0} (run : ℕ → W → Que ℕ → Option (W × Que ℕ)) (rounds : ℕ) (w : W) (q : Que ℕ)
    → Rep quep_chunk_bit q []
    → exeq_loop run (suc rounds) w q q.chunk_e q.os_e ≡ some (w, q)
unfolding exeq_loop
empty_round run rounds w q rep = rw (pop1-nil quep_chunk_bit q q.chunk_e q.os_e rep)
