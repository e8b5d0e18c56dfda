-- ===== src/Dev/Client/Ends.antt =====
-- Runs of the client, one completion after the other.
use iel.Base.{
  ℕ, suc, ◌+◌, ◌≤◌, ◌≡◌, refl, Option, none, some, List, [], ◌∷◌, drop, length, length-append,
  length-drop, arith,
}
use mathlib.Core.Path.{subst}
use iel.Dev.{Op, fr, fw, sr, sw, sa, sc, Env, World}
use iel.Dev.Client.Run.{Completion, received, complete, run}
use iel.Dev.Client.Owned.{connecting, sending, receiving, Owned, waiting, closed, Keeps, kept}
use iel.Dev.Client.Callbacks.{
  Within, onconnect_vfy-Keeps, onconnect_doread-Keeps, onconnect_dowrite-Keeps,
}

-- The kernel counts and stores at most the bytes that it was asked for.
pub record Fits (c : Completion) : Type 0 where
  pub counts : Within 4100 c.res
  pub stores : length c.got ≤ 4100

abbrev pub FitAll : List Completion → Type 0
FitAll [] = Unit
FitAll (c ∷ cs) = Fits c × FitAll cs

-- A step that returns a world in which the client owns what it should
pub record Returns (fd n : ℕ) (r : Option World) : Type 0 where
  pub after : World
  pub returns : r ≡ some after
  pub owned : Owned fd n after

length-received :
    (op : Op) (got bytes : List ℕ)
    → length got ≤ 4100
    → length bytes ≡ 4100
    → length (received op got bytes) ≡ 4100
length-received fr got bytes few size =
    omega (arith, length-append got (drop (length got) bytes), length-drop (length got) bytes)
length-received sr got bytes few size =
    omega (arith, length-append got (drop (length got) bytes), length-drop (length got) bytes)
length-received fw got bytes few size = size
length-received sw got bytes few size = size
length-received sa got bytes few size = size
length-received sc got bytes few size = size

Returns-Keeps :
    (fd n : ℕ) {r : Option (Unit {0} × World)}
    → Keeps fd n r
    → Returns fd n (elim r [ none ↦ none | some (_, w) ↦ some w ])
Returns-Keeps fd n (kept w owned) = record { after = w; returns = refl; owned = owned }

-- A completion of the request that the client waits for
complete-Returns :
    (env : Env) (fd n : ℕ) (c : Completion) (w : World)
    → Fits c
    → Owned fd (suc n) w
    → Returns fd n (complete env fd c w)
unfolding complete
complete-Returns env fd n c _ fits (waiting connecting calls bytes notes few size) =
    Returns-Keeps fd n (onconnect_dowrite-Keeps env fd n c.res calls bytes notes size (omega arith))
complete-Returns env fd n c _ fits (waiting sending calls bytes notes few size) =
    Returns-Keeps fd n (onconnect_doread-Keeps env fd n c.res calls bytes notes size (omega arith))
complete-Returns env fd n c _ fits (waiting receiving calls bytes notes few size) =
    Returns-Keeps fd n (
      onconnect_vfy-Keeps fd calls (received sr c.got bytes) notes
        (length-received sr c.got bytes fits.stores size) n c.res fits.counts)
complete-Returns env fd n c _ fits (closed calls bytes notes) = record {
  after = _;
  returns = refl;
  owned = closed calls bytes notes;
}

-- A run of the client.
pub run-Returns :
    (env : Env) (fd n : ℕ) (cs : List Completion) (w : World)
    → FitAll cs
    → Owned fd (length cs + n) w
    → Returns fd n (run env fd cs w)
unfolding run
run-Returns env fd n [] w fits owned = record {
  after = w;
  returns = refl;
  owned = subst (λ (k : ℕ). Owned fd k w) {x = 0 + n} {y = n} (omega arith) owned;
}
run-Returns env fd n (c ∷ cs) w fits owned =
    let step = complete-Returns env fd (length cs + n) c w fits.0 (
      subst (λ (k : ℕ). Owned fd k w) {x = suc (length cs) + n} {y = suc (length cs + n)}
        (omega arith) owned) in
    rw (step.returns, run) (run-Returns env fd n cs step.after fits.1 step.owned)
