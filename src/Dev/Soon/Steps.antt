-- ===== src/Dev/Soon/Steps.antt =====
-- The single tasks of the loop of `amain_s` and of its run.
use iel.Base.{
  ℕ, zero, suc, ◌+◌, ◌≤◌, ◌<◌, ◌≡◌, ◌≢◌, refl, ap, ◌∙◌, some, Bool, true, false, List, [], ◌∷◌,
  ◌++◌, ltb, arith, eq-false,
}
use mathlib.Core.List.{append-nil, append_assoc}
use iel.Dev.{Holding, block}
use iel.Dev.Soon.{
  SoonTask, Tasks, reach_block, free_block, queue_task, taskcb, soon_once, fill_soon, run_tasks,
}

-- `n` tasks of a block, with the tags from `tag` on
unfoldable pub tagged : ℕ → ℕ → ℕ → List SoonTask
tagged b tag zero = []
tagged b tag (suc n) = record { owner = b; tag = tag } ∷ tagged b (suc tag) n

-- A state by its parts
abbrev pub tasks : List Holding → List SoonTask → ℕ → ℕ → Tasks
tasks live waiting calls blocks = record {
  live = live;
  waiting = waiting;
  calls = calls;
  blocks = blocks;
}

module _ (refuses : ℕ → Bool) where
  pub soon_once-accepted :
      (task : SoonTask) (s : Tasks)
      → refuses s.calls ≡ false
      → soon_once refuses task s
        ≡ some (record s { calls = suc s.calls; waiting = s.waiting ++ task ∷ [] })
  unfolding soon_once queue_task
  soon_once-accepted task s good = ground (arith, good)

  -- A task that is accepted, with more to come for its block
  fill_soon-next :
      (grants : ℕ → Bool) (tagmax rounds b tag : ℕ) (s : Tasks)
      → refuses s.calls ≡ false
      → 0 < rounds
      → suc tag < tagmax
      → fill_soon refuses grants tagmax (suc rounds) b tag s
        ≡ fill_soon refuses grants tagmax rounds b (suc tag) (record s {
          calls = suc s.calls;
          waiting = s.waiting ++ record { owner = b; tag = tag } ∷ [];
        })
  unfolding fill_soon
  fill_soon-next grants tagmax rounds b tag s good some_more fits =
      let once = soon_once-accepted (record { owner = b; tag = tag }) s good in
      let rest = eq-false rounds 0 (omega (arith, some_more)) in
      let below : ltb (suc tag) tagmax ≡ true = ground (arith, fits) in
      rw (fill_soon, once, rest, below) refl

  -- Accepted tasks with tags below `tagmax`, and `more` that follow
  pub fill_soon-accepted :
      (grants : ℕ → Bool) (tagmax n m more b tag end c d : ℕ) (live : List Holding)
      (waiting : List SoonTask) (blocks : ℕ)
      → ((i : ℕ) → c ≤ i → i < d → refuses i ≡ false)
      → 0 < more
      → n + more ≡ m
      → tag + n ≡ end
      → c + n ≡ d
      → end < tagmax
      → fill_soon refuses grants tagmax m b tag (tasks live waiting c blocks)
        ≡ fill_soon refuses grants tagmax more b end
            (tasks live (waiting ++ tagged b tag n) d blocks)
  unfolding tagged
  fill_soon-accepted grants tagmax zero m more b tag end c d live waiting blocks good some_more
        total tags calls fits =
      let same_m : more ≡ m = omega (arith, total) in
      let same_tag : tag ≡ end = omega (arith, tags) in
      let same_calls : c ≡ d = omega (arith, calls) in
      let same = append-nil waiting in ground (arith, same_m, same_tag, same_calls, same)
  fill_soon-accepted grants tagmax (suc n) zero more b tag end c d live waiting blocks good
        some_more total tags calls fits =
      absurd (omega (arith, total))
  fill_soon-accepted grants tagmax (suc n) (suc m) more b tag end c d live waiting blocks good
        some_more total tags calls fits =
      fill_soon-next grants tagmax m b tag (tasks live waiting c blocks)
        (good c (omega arith) (omega (arith, calls))) (omega (arith, total, some_more))
        (omega (arith, tags, fits))
      ∙ fill_soon-accepted grants tagmax n m more b (suc tag) end (suc c) d live
          (waiting ++ record { owner = b; tag = tag } ∷ []) blocks
          (λ i le lt. good i (omega (arith, le)) lt) some_more (omega (arith, total))
          (omega (arith, tags)) (omega (arith, calls)) fits
      ∙ ap (λ ts. fill_soon refuses grants tagmax more b end (tasks live ts d blocks))
          (append_assoc waiting (record { owner = b; tag = tag } ∷ []) (tagged b (suc tag) n))

  -- A task whose tag has no meaning to `taskcb` goes, and its block stays.
  taskcb-plain :
      (task : SoonTask) (s : Tasks)
      → task.tag ≢ 0x33
      → task.tag ≢ 0x81
      → taskcb refuses task s ≡ some s
  unfolding taskcb
  taskcb-plain task s ne nf = ground (arith, ne, nf)

  reach_block-live :
      (b : ℕ) (rest : List Holding) (s : Tasks) → s.live ≡ block b ∷ rest → reach_block b s ≡ some s
  unfolding reach_block
  reach_block-live b rest s e = ground (arith, e)

  -- Such tasks of a live block at the front of the queue
  pub run_tasks-plain :
      (n k m b tag c blocks : ℕ) (rest : List Holding) (later : List SoonTask)
      → ((i : ℕ) → tag ≤ i → i < tag + n → (i ≢ 0x33) × (i ≢ 0x81))
      → n + k ≡ m
      → run_tasks refuses m (tasks (block b ∷ rest) (tagged b tag n ++ later) c blocks)
        ≡ run_tasks refuses k (tasks (block b ∷ rest) later c blocks)
  unfolding run_tasks tagged
  run_tasks-plain zero k m b tag c blocks rest later plain total =
      let same_m : k ≡ m = omega (arith, total) in ground (arith, same_m)
  run_tasks-plain (suc n) k zero b tag c blocks rest later plain total =
      absurd (omega (arith, total))
  run_tasks-plain (suc n) k (suc m) b tag c blocks rest later plain total =
      let left = tasks (block b ∷ rest) (tagged b (suc tag) n ++ later) c blocks in
      let here = plain tag (omega arith) (omega arith) in
      rw
        (
          run_tasks,
          reach_block-live b rest left refl,
          taskcb-plain (record { owner = b; tag = tag }) left here.0 here.1,
        )
        (run_tasks-plain n k m b (suc tag) c blocks rest later
          (λ i le lt. plain i (omega (arith, le)) (omega (arith, lt))) (omega (arith, total)))

  -- The task 0x33 asks for the task 0x81, and that one ends the block.
  pub run_tasks-asks :
      (k b c blocks : ℕ) (rest : List Holding) (later : List SoonTask)
      → refuses c ≡ false
      → run_tasks refuses
          (suc k)
          (tasks (block b ∷ rest) (record { owner = b; tag = 0x33 } ∷ later) c blocks)
        ≡ run_tasks refuses k
            (tasks (block b ∷ rest) (later ++ record { owner = b; tag = 0x81 } ∷ []) (suc c) blocks)
  unfolding run_tasks taskcb reach_block queue_task
  run_tasks-asks k b c blocks rest later good = ground (arith, good)

  pub run_tasks-frees :
      (k b c blocks : ℕ) (rest : List Holding) (later : List SoonTask)
      → run_tasks refuses
          (suc k)
          (tasks (block b ∷ rest) (record { owner = b; tag = 0x81 } ∷ later) c blocks)
        ≡ run_tasks refuses k (tasks rest later c blocks)
  unfolding run_tasks taskcb reach_block free_block
  run_tasks-frees k b c blocks rest later = ground arith
