-- ===== src/Que/Tests.antt =====
-- The theorems on the queue at a queue of two chunks of four elements, and at an empty one.
use iel.Base.{
  ℕ, zero, suc, ◌+◌, ◌≡◌, refl, none, some, List, [], ◌∷◌, arith, ltb, leb, ◌&&◌, is_some,
}
use iel.Que.{Que, Alloc, push, pop1, pop_to, trim, Map}
use iel.Que.Rep.{Rep, cell, element}
use iel.Que.Push.{Bounded, Appended, push-Appended}
use iel.Que.Pop.{Took, pop1-Took}
use iel.Que.PopTo.{Taken, pop_to-Taken}
use iel.Que.Trim.{Trimmed, trim-Trimmed}

abbrev two_chunks : Map ℕ
two_chunks zero = some (λ o. 10 + o)
two_chunks (suc zero) = some (λ o. 20 + o)
two_chunks (suc (suc c)) = none

abbrev five_in : Que ℕ
five_in = record { map = two_chunks; mapcap = 4; chunk_s = 0; chunk_e = 1; os_s = 1; os_e = 2 }

abbrev five : List ℕ
five = 11 ∷ 12 ∷ 13 ∷ 20 ∷ 21 ∷ []

five_in-Rep : Rep 2 five_in five
unfolding cell element
five_in-Rep = record {
  os_s_in = omega arith;
  os_e_in = omega arith;
  span = refl;
  holds = (refl, (refl, (refl, (refl, (refl, tt)))));
  owned = owned;
  room = omega arith;
  some_room = omega arith;
  fits = omega arith;
}
  where
    owned : (c : ℕ) → is_some (five_in.map c) ≡ (leb 0 c && ltb c 2)
    owned zero = refl
    owned (suc zero) = refl
    owned (suc (suc c)) = ground arith

abbrev none_in : Que ℕ
none_in = record { map = λ c. none; mapcap = 4; chunk_s = 0; chunk_e = 0; os_s = 0; os_e = 0 }

none_in-Rep : Rep 2 none_in []
none_in-Rep = record {
  os_s_in = omega arith;
  os_e_in = omega arith;
  span = refl;
  holds = tt;
  owned = λ c. ground arith;
  room = omega arith;
  some_room = omega arith;
  fits = omega arith;
}

abbrev mem : Alloc ℕ
mem = record { grants = λ n. ltb n 1000; chunk = some (λ o. 0) }

mem-Bounded : Bounded mem
mem-Bounded n granted = ground (arith, granted)

push-Appended_example : Appended 2 mem five_in five 22 (push 2 mem five_in 22)
push-Appended_example = push-Appended 2 mem five_in five 22 mem-Bounded five_in-Rep

pop1-Took_example : Took 2 11 (12 ∷ 13 ∷ 20 ∷ 21 ∷ []) 1 0 (pop1 2 five_in 1 0)
pop1-Took_example = pop1-Took 2 five_in 11 (12 ∷ 13 ∷ 20 ∷ 21 ∷ []) 1 0 five_in-Rep

pop_to-Taken_example : Taken 2 five_in five 4 [] (pop_to 2 five_in 4)
pop_to-Taken_example = pop_to-Taken 2 five_in five 4 (omega arith) five_in-Rep (omega arith)

trim-Trimmed_example : Trimmed 2 five (trim 2 mem five_in)
trim-Trimmed_example = trim-Trimmed 2 2 mem five_in five (omega arith) (omega arith) five_in-Rep
