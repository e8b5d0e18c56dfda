-- ===== src/Dev/Client/Tests.antt =====
-- The theorems on the client with a system that grants everything, and one that refuses the
-- connection.
use iel.Base.{
  ℕ, zero, suc, ◌≤◌, ◌≡◌, refl, sym, ap, ◌∙◌, none, some, true, List, [], ◌∷◌, length, arith,
}
use iel.Iou.{value}
use iel.Dev.{Env, World}
use iel.Dev.Client.{amain_c}
use iel.Dev.Client.Run.{Completion, run}
use iel.Dev.Client.Callbacks.{Within}
use mathlib.Core.Path.{subst}
use iel.Dev.Client.Ends.{Fits, FitAll}
use iel.Dev.Client.Start.{idle}
use iel.Dev.Client.Whole.{Ended, client-Ended}

abbrev granting : Env
granting = record { refuses = λ calls. none; grants = λ calls. true; registers = λ calls. some 0 }

abbrev refusing : Env
refusing = record { refuses = λ calls. some 12; grants = λ calls. true; registers = λ calls. none }

abbrev zeros : ℕ → List ℕ
zeros zero = []
zeros (suc n) = 0 ∷ zeros n

length-zeros : (n : ℕ) → length (zeros n) ≡ n
length-zeros zero = refl
length-zeros (suc n) = ap suc (length-zeros n) ∙ omega arith

abbrev sent : Completion
sent = record { res = value 4100; got = [] }

abbrev echo_of_three : List Completion
echo_of_three =
    record { res = value 0; got = [] } ∷ sent ∷ record { res = value 3; got = 0 ∷ 1 ∷ 2 ∷ [] } ∷ []

sent-Fits : (c : Completion) (n : ℕ) → c.res ≡ value n → n ≤ 4100 → length c.got ≤ 4100 → Fits c
sent-Fits c n e few size = record { counts = subst (Within 4100) (sym e) few; stores = size }

echo_of_three-FitAll : FitAll echo_of_three
echo_of_three-FitAll = (
  sent-Fits _ 0 refl (omega arith) (omega arith),
  (
    sent-Fits _ 4100 refl (omega arith) (omega arith),
    (sent-Fits _ 3 refl (omega arith) (omega arith), tt),
  ),
)

client-Ended_example :
    (w : World) × (amain_c granting 96 (some 5) (idle [] (zeros 4100) []) ≡ some (0, w))
    × Ended (run granting 5 echo_of_three w)
client-Ended_example =
    client-Ended granting 96 5 [] (zeros 4100) [] echo_of_three (length-zeros 4100) refl refl refl
      echo_of_three-FitAll refl
