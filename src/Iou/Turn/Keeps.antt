-- ===== src/Iou/Turn/Keeps.antt =====
-- exeq runs the tasks that were queued when it was called, each once and in order, and leaves those
-- that their callbacks have queued; it keeps what every callback keeps.
use mathlib.Core.List.{append_assoc, append-nil}
use mathlib.Core.Path.{subst}
use iel.Base.{ℕ, zero, suc, ◌*◌, ◌<◌, ◌≡◌, ap, sym, ◌∙◌, Option, some, List, [], ◌∷◌, ◌++◌, arith}
use iel.Base.{length}
use iel.Que.{Que, ents}
use iel.Que.Rep.{Rep}
use iel.Iou.{quep_chunk_bit}
use iel.Iou.Turn.{exeq, exeq_loop}
use iel.Iou.Turn.Rounds.{StopsAfter, takes_last, takes_more, last_round, more_round, empty_round}

-- An empty queue runs nothing.
pub exeq-nil :
    {W : Type 0} (run : ℕ → W → Que ℕ → Option (W × Que ℕ)) (w : W) (q : Que ℕ)
    → Rep quep_chunk_bit q []
    → exeq run w q ≡ some (w, q)
unfolding exeq
exeq-nil run w q rep = empty_round run _ w q rep

-- The callbacks of the listed tasks are called, each once and in order, on a queue from which the
-- task is taken: it holds the tasks that are still to run and, behind them, those that were queued
-- meanwhile, to which the callback adds. At the end the queue holds the latter alone.
pub data Runs {W : Type 0} (run : ℕ → W → Que ℕ → Option (W × Que ℕ))
    : List ℕ → List ℕ → W → W → List ℕ → Type 0 where
  over : {w : W} {behind : List ℕ} → Runs run [] behind w w behind
  calls :
      {w w' w'' : W} {left : List ℕ} (task : ℕ) (xs behind extra : List ℕ) (q r : Que ℕ)
      → Rep quep_chunk_bit q (xs ++ behind)
      → run task w q ≡ some (w', r)
      → Rep quep_chunk_bit r (xs ++ (behind ++ extra))
      → Runs run xs (behind ++ extra) w' w'' left
      → Runs run (task ∷ xs) behind w w'' left

module _ {W : Type 0} (P : W → Type 0) where
  -- A callback returns with `P`, having appended to the queue, or not.
  pub record Kept (q : Que ℕ) (xs : List ℕ) (o : Option (W × Que ℕ)) : Type 0 where
    pub world : W
    pub que : Que ℕ
    pub extra : List ℕ
    pub result : o ≡ some (world, que)
    pub rep : Rep quep_chunk_bit que (xs ++ extra)
    pub same_start : (que.chunk_s ≡ q.chunk_s) × (que.os_s ≡ q.os_s)
    pub keeps : P world

  -- What the loop ends in
  pub record Settled (run : ℕ → W → Que ℕ → Option (W × Que ℕ)) (xs behind : List ℕ) (w : W)
      (o : Option (W × Que ℕ)) : Type 0 where
    pub world : W
    pub que : Que ℕ
    pub left : List ℕ
    pub result : o ≡ some (world, que)
    pub runs : Runs run xs behind w world left
    pub rep : Rep quep_chunk_bit que left
    pub keeps : P world

  abbrev pub Keeps : (ℕ → W → Que ℕ → Option (W × Que ℕ)) → Type 0
  Keeps run =
      (task : ℕ) (w : W) (q : Que ℕ) (xs : List ℕ)
      → Rep quep_chunk_bit q xs
      → P w
      → Kept q xs (run task w q)

  module _ (run : ℕ → W → Que ℕ → Option (W × Que ℕ)) (keeps : Keeps run) (chunk_stop os_stop : ℕ)
      (narrow : os_stop < ents quep_chunk_bit) where
    loop-Settled :
        (rounds : ℕ) (w : W) (q : Que ℕ) (x : ℕ) (xs behind : List ℕ)
        → length xs < rounds
        → P w
        → Rep quep_chunk_bit q (x ∷ xs ++ behind)
        → StopsAfter q (suc (length xs)) chunk_stop os_stop
        → Settled run (x ∷ xs) behind w (exeq_loop run rounds w q chunk_stop os_stop)
    loop-Settled zero w q x xs behind enough p rep stop = absurd (omega arith)
    loop-Settled (suc rounds) w q x [] behind enough p rep stop =
        let (r, e, rep') = takes_last chunk_stop os_stop q x behind narrow rep stop in
        let k = keeps x w r behind rep' p in
        record {
          world = k.world;
          que = k.que;
          left = behind ++ k.extra;
          result = last_round chunk_stop os_stop run rounds w q r x e ∙ k.result;
          runs = calls x [] behind k.extra r k.que rep' k.result k.rep over;
          rep = k.rep;
          keeps = k.keeps;
        }
    loop-Settled (suc rounds) w q x (y ∷ xs) behind enough p rep stop =
        let (r, e, rep', stop') =
          takes_more chunk_stop os_stop q x y (length xs) (xs ++ behind) rep stop in
        let k = keeps x w r (y ∷ xs ++ behind) rep' p in
        let (c, o) = k.same_start in
        let rep'' = subst (Rep quep_chunk_bit k.que) (append_assoc (y ∷ xs) behind k.extra) k.rep in
        let rest =
          loop-Settled rounds k.world k.que y xs (behind ++ k.extra) (omega arith) k.keeps rep''
            (omega (arith, stop', ap (λ (t : ℕ). t * ents quep_chunk_bit) c, o)) in
        record {
          world = rest.world;
          que = rest.que;
          left = rest.left;
          result =
              more_round chunk_stop os_stop run rounds w k.world q r k.que x e k.result
              ∙ rest.result;
          runs = calls x (y ∷ xs) behind k.extra r k.que rep' k.result rep'' rest.runs;
          rep = rest.rep;
          keeps = rest.keeps;
        }

  -- exeq on a queue that holds `xs`, where every callback that is called with `P` returns, leaves
  -- the front of the queue, appends to its end or not, and keeps `P`: it returns with `P`; it has
  -- called the callbacks of `xs`, each once and in order, and none of those that they have queued
  -- meanwhile, which are what the queue holds afterwards.
  pub exeq-Settled :
      (run : ℕ → W → Que ℕ → Option (W × Que ℕ)) (w : W) (q : Que ℕ) (xs : List ℕ)
      → Keeps run
      → Rep quep_chunk_bit q xs
      → P w
      → Settled run xs [] w (exeq run w q)
  unfolding exeq
  exeq-Settled run w q [] keeps rep p = record {
    world = w;
    que = q;
    left = [];
    result = empty_round run _ w q rep;
    runs = over;
    rep = rep;
    keeps = p;
  }
  exeq-Settled run w q (x ∷ xs) keeps rep p =
      loop-Settled run keeps q.chunk_e q.os_e rep.os_e_in _ w q x xs [] (omega (arith, rep.span)) p
        (subst (Rep quep_chunk_bit q) (sym (append-nil (x ∷ xs))) rep) (omega (arith, rep.span))
