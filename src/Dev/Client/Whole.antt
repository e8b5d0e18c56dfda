-- ===== src/Dev/Client/Whole.antt =====
-- The client from its start to its end.
use iel.Base.{true, ℕ, ◌+◌, ◌≤◌, ◌≡◌, Option, none, some, List, length, arith}
use mathlib.Core.Path.{subst}
use iel.Dev.{Call, Note, Env, World}
use iel.Dev.Client.{amain_c}
use iel.Dev.Client.Run.{Completion, run}
use iel.Dev.Client.Owned.{
  Owned, waiting, closed, ended, Stage, connecting, sending, receiving, left,
}
use iel.Dev.Client.Ends.{FitAll, run-Returns}
use iel.Dev.Client.Start.{idle, with_cbp, with_buf, connected, amain_c-Connected}

-- What the client leaves at its end
pub record Ended (r : Option World) : Type 0 where
  pub calls : List Call
  pub bytes : List ℕ
  pub notes : List Note
  pub returns : r ≡ some (ended calls bytes notes)

left_pos : (s : Stage) → left s ≤ 0 → ⊥
left_pos connecting few = omega arith
left_pos sending few = omega arith
left_pos receiving few = omega arith

Ended-Owned : (fd : ℕ) {w : World} {r : Option World} → r ≡ some w → Owned fd 0 w → Ended r
Ended-Owned fd e (waiting s calls bytes notes few size) = absurd (left_pos s few)
Ended-Owned fd e (closed calls bytes notes) = record {
  calls = calls;
  bytes = bytes;
  notes = notes;
  returns = e;
}

-- Where `amain_c` gets its blocks and its request, it returns 0, and three completions end the client,
-- whatever they are and whatever the backend answers from then on: no client_callback faults, the socket
-- and the blocks are given back, once each, and the loop is told to stop.
pub client-Ended :
    (env : Env) (size fd : ℕ) (calls : List Call) (bytes : List ℕ) (notes : List Note)
    (cs : List Completion)
    → length bytes ≡ 4100
    → env.grants (with_cbp size calls) ≡ true
    → env.grants (with_buf size calls) ≡ true
    → env.refuses (connected size fd calls) ≡ none
    → FitAll cs
    → length cs ≡ 3
    → (w : World) × (amain_c env size (some fd) (idle calls bytes notes) ≡ some (0, w))
      × Ended (run env fd cs w)
client-Ended env size fd calls bytes notes cs full granted granted' accepted fits three =
    let start = amain_c-Connected env size fd calls bytes notes full granted granted' accepted in
    let ends = run-Returns env fd 0 cs start.after fits (
      subst (λ (k : ℕ). Owned fd k start.after) {x = 3} {y = length cs + 0} (omega arith)
        start.owned) in
    (start.after, start.returns, Ended-Owned fd ends.returns ends.owned)
