-- ===== src/Dev/Soon/Freed.antt =====
-- The block of the tasks over its life: queued with 66 tags, run, and freed by the task 0x81.
use iel.Base.{
  ℕ, zero, suc, ◌+◌, ◌≤◌, ◌<◌, ◌≡◌, refl, ap, ◌∙◌, Option, none, some, Bool, true, false, List, [],
  ◌∷◌, ◌++◌, ◌>>=◌, ltb, arith,
}
use mathlib.Core.List.{append_assoc}
use iel.Dev.{Holding, block, take_from}
use iel.Dev.Soon.{
  SoonTask, Tasks, soon_once, taskcb, reach_block, free_block, queue_task, soon_tasks, fill_soon,
  run_tasks,
}
use iel.Dev.Soon.Steps.{
  tagged, tasks, soon_once-accepted, fill_soon-accepted, run_tasks-plain, run_tasks-asks,
  run_tasks-frees,
}

abbrev task_of : ℕ → ℕ → SoonTask
task_of b tag = record { owner = b; tag = tag }

-- The tags around that of the task that asks for another one
all_tags :
    (b : ℕ) → tagged b 0 65 ++ task_of b 65 ∷ [] ≡ tagged b 0 51 ++ task_of b 51 ∷ tagged b 52 14
unfolding tagged
all_tags b = refl

first_tag :
    (b : ℕ) (later : List SoonTask)
    → (rest : List SoonTask) × (tagged b 0 51 ++ later ≡ task_of b 0 ∷ rest)
unfolding tagged
first_tag b later = (_, refl)

module _ (refuses grants : ℕ → Bool) (tagmax : ℕ) where
  -- The last of the tasks ends the loop.
  fill_soon-last :
      (b tag d blocks : ℕ) (held : List Holding) (waiting : List SoonTask)
      → refuses d ≡ false
      → fill_soon refuses grants tagmax 1 b tag (tasks held waiting d blocks)
        ≡ some (tasks held (waiting ++ task_of b tag ∷ []) (suc d) blocks)
  unfolding fill_soon
  fill_soon-last b tag d blocks held waiting good =
      let once = soon_once-accepted refuses (task_of b tag) (tasks held waiting d blocks) good in
      ground (arith, once)

  run_tasks-none :
      (live : List Holding) (d blocks : ℕ)
      → run_tasks refuses 1 (tasks live [] d blocks) ≡ some (tasks live [] d blocks)
  unfolding run_tasks
  run_tasks-none live d blocks = refl

  -- The task 0x33 where neither it nor the task 0x81 is accepted
  soon_once-frees :
      (b d blocks : ℕ) (live : List Holding) (waiting : List SoonTask)
      → refuses d ≡ true
      → refuses (suc d) ≡ true
      → soon_once refuses (task_of b 0x33) (tasks (block b ∷ live) waiting d blocks)
        ≡ some (tasks live waiting (suc (suc d)) blocks)
  unfolding soon_once taskcb reach_block free_block queue_task
  soon_once-frees b d blocks live waiting bad worse = ground (arith, bad, worse)

  run_tasks-dead :
      (rounds b d blocks : ℕ) (live : List Holding) (waiting : List SoonTask)
      → take_from (block b) live ≡ none
      → run_tasks refuses rounds (tasks live (tagged b 0 51 ++ waiting) d blocks) ≡ none
  unfolding run_tasks reach_block
  run_tasks-dead zero b d blocks live waiting dead = refl
  run_tasks-dead (suc rounds) b d blocks live waiting dead =
      let (rest, first) = first_tag b waiting in rw (first, run_tasks, reach_block, dead) refl

  soon_tasks-first :
      (live : List Holding) (c blocks : ℕ)
      → grants blocks ≡ true
      → soon_tasks refuses grants tagmax (tasks live [] c blocks)
        ≡ fill_soon refuses grants tagmax 66 blocks 0
            (tasks (block blocks ∷ live) [] c (suc blocks))
  unfolding soon_tasks
  soon_tasks-first live c blocks granted = rw (soon_tasks, granted) refl

  module _ (live : List Holding) (c blocks : ℕ) (granted : grants blocks ≡ true)
      (enough : 0x81 < tagmax) where
    -- The loop of `amain_s` makes one block, whose 66 tasks wait.
    soon_tasks-queued :
        ((i : ℕ) → c ≤ i → i < c + 66 → refuses i ≡ false)
        → soon_tasks refuses grants tagmax (tasks live [] c blocks)
          ≡ some (
              tasks
                (block blocks ∷ live)
                (tagged blocks 0 51 ++ task_of blocks 51 ∷ tagged blocks 52 14)
                (suc (c + 65))
                (suc blocks))
    soon_tasks-queued good =
        soon_tasks-first live c blocks granted
        ∙ fill_soon-accepted refuses grants tagmax 65 66 1 blocks 0 65 c (c + 65)
            (block blocks ∷ live) [] (suc blocks) (λ i le lt. good i le (omega (arith, lt)))
            (omega arith) refl refl refl (omega (arith, enough))
        ∙ fill_soon-last blocks 65 (c + 65) (suc blocks) (block blocks ∷ live) (tagged blocks 0 65)
            (good (c + 65) (omega arith) (omega arith))
        ∙ ap (λ ts. some (tasks (block blocks ∷ live) ts (suc (c + 65)) (suc blocks)))
            (all_tags blocks)

    -- The run of these tasks
    run_tasks-queued :
        (d : ℕ)
        → refuses d ≡ false
        → run_tasks refuses 68 (
            tasks
              (block blocks ∷ live)
              (tagged blocks 0 51 ++ task_of blocks 51 ∷ tagged blocks 52 14)
              d
              (suc blocks))
          ≡ run_tasks refuses 1 (tasks live [] (suc d) (suc blocks))
    run_tasks-queued d good =
        run_tasks-plain refuses 51 17 68 blocks 0 d (suc blocks) live
          (task_of blocks 51 ∷ tagged blocks 52 14)
          (λ i le lt. (omega (arith, lt), omega (arith, lt))) refl
        ∙ run_tasks-asks refuses 16 blocks d (suc blocks) live (tagged blocks 52 14) good
        ∙ run_tasks-plain refuses 14 2 16 blocks 52 (suc d) (suc blocks) live
            (task_of blocks 0x81 ∷ []) (λ i le lt. (omega (arith, le), omega (arith, lt))) refl
        ∙ run_tasks-frees refuses 1 blocks (suc d) (suc blocks) live []

    fill_soon-frees :
        (waiting : List SoonTask)
        → refuses (c + 51) ≡ true
        → refuses (suc (c + 51)) ≡ true
        → fill_soon refuses grants tagmax 15 blocks 51
            (tasks (block blocks ∷ live) waiting (c + 51) (suc blocks))
          ≡ fill_soon refuses grants tagmax 14 blocks 52
              (tasks live waiting (suc (suc (c + 51))) (suc blocks))
    unfolding fill_soon
    fill_soon-frees waiting bad worse =
        let freed = soon_once-frees blocks (c + 51) (suc blocks) live waiting bad worse in
        let below : ltb 52 tagmax ≡ true = ground (arith, enough) in
        ap
          (λ (o : Option Tasks). o >>= λ r. elim (ltb 52 tagmax) [
            | true ↦ fill_soon refuses grants tagmax 14 blocks 52 r
            | false ↦ elim (grants r.blocks) [
              | true ↦
                  fill_soon refuses grants tagmax 14 r.blocks 0
                    (record r { live = block r.blocks ∷ r.live; blocks = suc r.blocks })
              | false ↦ some (record r { blocks = suc r.blocks })
            ]
          ])
          freed
        ∙ (rw below refl)

    -- Where tags reach past 0x81 and `malloc` and 67 calls of `esoon` are granted, the loop of
    -- `amain_s` and the run of its tasks end without a fault: each task finds its block live, the
    -- block is freed once, by the task 0x81 that the task 0x33 asks for, and no task is left.
    pub soon_tasks-Freed :
        ((i : ℕ) → c ≤ i → i < c + 67 → refuses i ≡ false)
        → (soon_tasks refuses grants tagmax (tasks live [] c blocks) >>= run_tasks refuses 68)
          ≡ some (tasks live [] (c + 67) (suc blocks))
    soon_tasks-Freed good =
        ap (λ (o : Option Tasks). o >>= run_tasks refuses 68)
          (soon_tasks-queued λ i le lt. good i le (omega (arith, lt)))
        ∙ run_tasks-queued (suc (c + 65)) (good (suc (c + 65)) (omega arith) (omega arith))
        ∙ run_tasks-none live (suc (suc (c + 65))) (suc blocks)
        ∙ ap (λ k. some (tasks live [] k (suc blocks))) {x = suc (suc (c + 65))} {y = c + 67}
            (omega arith)

    -- Where `esoon` refuses the task 0x33, and then the task 0x81 that `taskcb` asks for, `taskcb` frees
    -- the block while its 51 earlier tasks wait, and the loop goes on to queue tasks for it: the run
    -- faults at the first of them. This is for a block that is not among those that were live before,
    -- and where `malloc` and the other calls of `esoon` are granted.
    pub soon_tasks_dangle :
        (rounds : ℕ)
        → take_from (block blocks) live ≡ none
        → ((i : ℕ) → c ≤ i → i < c + 51 → refuses i ≡ false)
        → refuses (c + 51) ≡ true
        → refuses (suc (c + 51)) ≡ true
        → ((i : ℕ) → suc (suc (c + 51)) ≤ i → i < c + 67 → refuses i ≡ false)
        → (s : Tasks) × (soon_tasks refuses grants tagmax (tasks live [] c blocks) ≡ some s)
          × (run_tasks refuses rounds s ≡ none)
    soon_tasks_dangle rounds fresh good bad worse again =
        let d = suc (suc (c + 51)) in
        let early : List SoonTask = tagged blocks 0 51 in
        let late : List SoonTask = tagged blocks 52 13 in
        (
          tasks live ((early ++ late) ++ task_of blocks 65 ∷ []) (suc (d + 13)) (suc blocks),
          soon_tasks-first live c blocks granted
              ∙ fill_soon-accepted refuses grants tagmax 51 66 15 blocks 0 51 c (c + 51)
                  (block blocks ∷ live) [] (suc blocks) good (omega arith) refl refl refl
                  (omega (arith, enough))
              ∙ fill_soon-frees early bad worse
              ∙ fill_soon-accepted refuses grants tagmax 13 14 1 blocks 52 65 d (d + 13) live early
                  (suc blocks) (λ i le lt. again i le (omega (arith, lt))) (omega arith) refl refl
                  refl (omega (arith, enough))
              ∙ fill_soon-last blocks 65 (d + 13) (suc blocks) live (early ++ late)
                  (again (d + 13) (omega arith) (omega arith)),
          ap (λ ts. run_tasks refuses rounds (tasks live ts (suc (d + 13)) (suc blocks)))
                (append_assoc early late (task_of blocks 65 ∷ []))
              ∙ run_tasks-dead rounds blocks (suc (d + 13)) (suc blocks) live
                  (late ++ task_of blocks 65 ∷ []) fresh,
        )
