-- ===== src/Dev/Soon.antt =====
-- The tasks that dev/be/iou.c queues by `esoon`: the loop of `amain_s` that queues them, and `taskcb`. A
-- task is a tagged pointer, here the number of its block and the tag. The answers of `esoon` and of
-- `malloc` are parameters, by the number of the call.
pub mod Steps
pub mod Freed
mod Tests
use iel.Base.{ℕ, zero, suc, Option, none, some, Bool, true, false, List, [], ◌∷◌, ◌++◌, ◌==◌, ◌>>=◌}
use iel.Base.{ltb}
use iel.Dev.{Holding, block, take_from}

-- What `iel_tp_tag` makes of a block and a tag
pub record SoonTask : Type 0 where
  pub owner : ℕ
  pub tag : ℕ

-- The blocks of `struct soon_comp` that are live, the tasks that wait in the queue of the loop, and how
-- often `esoon` and `malloc` have been called; a new block has the number of its call.
pub record Tasks : Type 0 where
  pub live : List Holding
  pub waiting : List SoonTask
  pub calls : ℕ
  pub blocks : ℕ

-- An access to the block of a task: `none` is a fault.
pub reach_block : ℕ → Tasks → Option Tasks
reach_block b s = take_from (block b) s.live >>= λ left. some s

-- `free(out)`
pub free_block : ℕ → Tasks → Option Tasks
free_block b s = take_from (block b) s.live >>= λ left. some (record s { live = left })

-- `i` runs to this number.
abbrev pub most_tasks : ℕ
most_tasks = 66

module _ (refuses : ℕ → Bool) where
  -- `esoon` where it accepts the task, and where it does not
  abbrev pub soon_accepts : Tasks → Bool
  soon_accepts s = elim (refuses s.calls) [ true ↦ false | false ↦ true ]

  pub queue_task : SoonTask → Tasks → Tasks
  queue_task task s = elim (refuses s.calls) [
    | true ↦ record s { calls = suc s.calls }
    | false ↦ record s { calls = suc s.calls; waiting = s.waiting ++ task ∷ [] }
  ]

  -- `taskcb`
  pub taskcb : SoonTask → Tasks → Option Tasks
  taskcb task s =
      let next : SoonTask = record { owner = task.owner; tag = 0x81 } in
      elim (task.tag == 0x33) [
        | true ↦ reach_block task.owner s >>= λ r. elim (soon_accepts r) [
          | true ↦ some (queue_task next r)
          | false ↦ free_block task.owner (queue_task next r)
        ]
        | false ↦ some s
      ]
      >>= λ r. elim (task.tag == 0x81) [ true ↦ free_block task.owner r | false ↦ some r ]

  -- The body of the inner loop: the call of `esoon`, and of the callback where it is refused.
  pub soon_once : SoonTask → Tasks → Option Tasks
  soon_once task s = elim (soon_accepts s) [
    | true ↦ some (queue_task task s)
    | false ↦ reach_block task.owner (queue_task task s) >>= taskcb task
  ]

  -- The loops of `amain_s` from a tag of a block on, with `rounds` tasks to go: a block for each
  -- `tagmax` tags.
  pub fill_soon : (ℕ → Bool) → ℕ → ℕ → ℕ → ℕ → Tasks → Option Tasks
  fill_soon grants tagmax zero b tag s = some s
  fill_soon grants tagmax (suc rounds) b tag s =
      soon_once (record { owner = b; tag = tag }) s >>= λ r. elim (rounds == 0) [
        | true ↦ some r
        | false ↦ elim (ltb (suc tag) tagmax) [
          | true ↦ fill_soon grants tagmax rounds b (suc tag) r
          | false ↦ elim (grants r.blocks) [
            | true ↦
                fill_soon grants tagmax rounds r.blocks 0
                  (record r { live = block r.blocks ∷ r.live; blocks = suc r.blocks })
            | false ↦ some (record r { blocks = suc r.blocks })
          ]
        ]
      ]

  -- All of it, with the first block
  pub soon_tasks : (ℕ → Bool) → ℕ → Tasks → Option Tasks
  soon_tasks grants tagmax s = elim (grants s.blocks) [
    | true ↦
        fill_soon grants tagmax most_tasks s.blocks 0
          (record s { live = block s.blocks ∷ s.live; blocks = suc s.blocks })
    | false ↦ some (record s { blocks = suc s.blocks })
  ]

  -- The loop runs the tasks that wait, in order. To run out of rounds is `none` too.
  pub run_tasks : ℕ → Tasks → Option Tasks
  run_tasks zero s = none
  run_tasks (suc rounds) s = elim s.waiting [
    | [] ↦ some s
    | task ∷ rest ↦
        reach_block task.owner (record s { waiting = rest }) >>= taskcb task >>= run_tasks rounds
  ]
