-- ===== src/Dev/QueTest/Loops.antt =====
-- The loops of dev/que.c that are not about one element: only the number of elements matters.
use iel.Base.{
  ℕ, zero, suc, ◌+◌, ◌*◌, ◌≤◌, ◌<◌, ◌≡◌, ◌≢◌, refl, sym, ap, length-append, Option, none, some,
  List, [], ◌∷◌, ◌++◌, arith, length,
}
use mathlib.Core.List.{append-nil, append_assoc}
use mathlib.Core.Path.{subst}
use iel.Que.{Que, Alloc, Popped, empty, more, last, pop1}
use iel.Que.Push.{Bounded}
use iel.Que.Pop.{Took, took_last, took_more, pop1-Took, pop1-nil}
use iel.Que.PopTo.{pop_to-all}
use iel.Dev.QueTest.{
  chunk_ents_bit, Test, Outcome, go, ◌~>◌, pop_one, pop_loop, pop_rest, pop_array, rsv, rsv_loop,
  trim_que, fill_and_pop,
}
use iel.Que.Reach.{pop1-reach, pop_to-reach}
use iel.Dev.QueTest.Steps.{
  At, Sized, At-pop, At-calls, Sized-as, Reach-pop, all_calls, Passes, passes, follow, weaken,
  rsv-Passes, trim_que-Passes, pop_one-Passes,
}

-- What the loop stores
unfoldable pub values : (ℕ → ℕ) → ℕ → ℕ → List ℕ
values f i zero = []
values f i (suc rounds) = f i ∷ values f (suc i) rounds

pub length-values : (f : ℕ → ℕ) (i rounds : ℕ) → length (values f i rounds) ≡ rounds
unfolding values
length-values f i zero = refl
length-values f i (suc rounds) = ap suc (length-values f (suc i) rounds)

module _ (mems : ℕ → Alloc ℕ) (ok : (k : ℕ) → Bounded (mems k)) where
  pub rsv_loop-Passes :
      (xs : List ℕ) (code : ℕ) (f : ℕ → ℕ) (rounds i n c : ℕ) (t : Test)
      → code ≢ 0
      → code ≢ 3
      → c + rounds ≤ all_calls
      → At xs n c t
      → Passes mems (At (xs ++ values f i rounds) n (c + rounds)) (rsv_loop mems code f rounds i t)
  unfolding rsv_loop values
  rsv_loop-Passes xs code f zero i n c t nz nt early at =
      passes (At-calls (omega arith) (subst (λ ys. At ys n c t) (sym (append-nil xs)) at))
  rsv_loop-Passes xs code f (suc rounds) i n c t nz nt early at =
      subst
        (λ ys.
          Passes mems (At ys n (c + suc rounds))
            (rsv mems code (f i) t ~> rsv_loop mems code f rounds (suc i)))
        (append_assoc xs (f i ∷ []) (values f (suc i) rounds))
        (follow mems (rsv-Passes mems ok xs code (f i) n c t nz nt (omega (arith, early)) at)
          λ u held.
            weaken mems
              (rsv_loop-Passes (xs ++ f i ∷ []) code f rounds (suc i) n (c + 1) u nz nt
                (omega (arith, early)) held)
              λ w. At-calls (omega arith))

  pub rsv-Sized :
      (k code v n c : ℕ) (t : Test)
      → code ≢ 0
      → code ≢ 3
      → c < all_calls
      → Sized k n c t
      → Passes mems (Sized (k + 1) n (c + 1)) (rsv mems code v t)
  rsv-Sized k code v n c t nz nt early s =
      weaken mems (rsv-Passes mems ok s.held code v n c t nz nt early s.at) λ u at. record {
        held = s.held ++ v ∷ [];
        at = at;
        many = omega (arith, s.many, length-append s.held (v ∷ []));
      }

  -- The same, by the number of elements
  pub rsv_loop-Sized :
      (k code : ℕ) (f : ℕ → ℕ) (rounds i n c : ℕ) (t : Test)
      → code ≢ 0
      → code ≢ 3
      → c + rounds ≤ all_calls
      → Sized k n c t
      → Passes mems (Sized (k + rounds) n (c + rounds)) (rsv_loop mems code f rounds i t)
  rsv_loop-Sized k code f rounds i n c t nz nt early s =
      weaken mems (rsv_loop-Passes s.held code f rounds i n c t nz nt early s.at) λ u at. record {
        held = s.held ++ values f i rounds;
        at = at;
        many =
            omega
              (arith, s.many, length-append s.held (values f i rounds), length-values f i rounds);
      }

  pub trim_que-Sized :
      (k n c : ℕ) (t : Test) → Sized k n c t → Passes mems (Sized k n (c + 1)) (trim_que mems t)
  trim_que-Sized k n c t s =
      weaken mems (trim_que-Passes mems ok s.held n c t s.at)
        λ u at. record { held = s.held; at = at; many = s.many }

  pub pop_one-Sized :
      (k code n c : ℕ) (t : Test) → Sized (suc k) n c t → Passes mems (Sized k n c) (pop_one code t)
  pop_one-Sized k code n c t s = by_list s.held s.at s.many
    where
      by_list :
          (xs : List ℕ)
          → At xs n c t
          → length xs ≡ suc k
          → Passes mems (Sized k n c) (pop_one code t)
      by_list [] at many = absurd (omega (arith, many))
      by_list (x ∷ xs) at many =
          weaken mems (pop_one-Passes mems x xs code n c t at)
            λ u left. record { held = xs; at = left; many = omega (arith, many) }

  pub pop_loop-Sized :
      (j k code rounds n c : ℕ) (t : Test)
      → j ≡ k + rounds
      → Sized j n c t
      → Passes mems (Sized k n c) (pop_loop code rounds t)
  unfolding pop_loop
  pop_loop-Sized j k code zero n c t e s = passes (Sized-as (omega (arith, e)) refl s)
  pop_loop-Sized j k code (suc rounds) n c t e s =
      follow mems (pop_one-Sized (k + rounds) code n c t (Sized-as (omega (arith, e)) refl s))
        λ u. pop_loop-Sized (k + rounds) k code rounds n c u refl

  -- A turn of the loop over `j` leaves one element more.
  pub fill_and_pop-Sized :
      (j k rounds n c d : ℕ) (t : Test)
      → k + rounds ≡ j
      → c + 34 * rounds ≡ d
      → d ≤ all_calls
      → Sized k n c t
      → Passes mems (Sized j n d) (fill_and_pop mems rounds t)
  unfolding fill_and_pop
  fill_and_pop-Sized j k zero n c d t e calls early s =
      passes (Sized-as (omega (arith, e)) (omega (arith, calls)) s)
  fill_and_pop-Sized j k (suc rounds) n c d t e calls early s =
      follow mems
        (follow mems
          (follow mems
            (rsv_loop-Sized k 2 (λ i. i) 33 0 n c t (omega arith) (omega arith)
              (omega (arith, calls, early)) s)
            λ u. pop_loop-Sized (k + 33) (suc k) 3 32 n (c + 33) u (omega arith))
          (trim_que-Sized (suc k) n (c + 33)))
        λ u.
          fill_and_pop-Sized j (suc k) rounds n (c + 33 + 1) d u (omega (arith, e))
            (omega (arith, calls)) early

  -- With a round for each element and one more, the loop ends, with the queue empty.
  pop_rest-At :
      (rounds : ℕ) (xs : List ℕ) (n c : ℕ) (t : Test)
      → At xs n c t
      → length xs < rounds
      → Passes mems (Sized 0 n c) (pop_rest rounds t)
  unfolding pop_rest
  pop_rest-At zero xs n c t at lt = absurd (omega (arith, lt))
  pop_rest-At (suc rounds) [] n c t at lt =
      rw (pop_rest, pop1-nil chunk_ents_bit t.que 0 0 at.rep)
        (passes (record {
          held = [];
          at = record { rep = at.rep; count = at.count; reach = at.reach };
          many = refl;
        }))
  pop_rest-At (suc rounds) (x ∷ xs) n c t at lt =
      turn (λ u left. pop_rest-At rounds xs n c u left (omega (arith, lt))) refl
        (pop1-Took chunk_ents_bit t.que x xs 0 0 at.rep)
    where
      turn :
          ((u : Test) → At xs n c u → Passes mems (Sized 0 n c) (pop_rest rounds u))
          → {o : Option (Popped ℕ × Que ℕ)} → pop1 chunk_ents_bit t.que 0 0 ≡ o
          → Took chunk_ents_bit x xs 0 0 o
          → Passes mems (Sized 0 n c) (elim o [
            | none ↦ none
            | some (out, q) ↦ elim out [
              | empty ↦ some (go (record t { que = q }))
              | more v ↦ pop_rest rounds (record t { que = q })
              | last v ↦ pop_rest rounds (record t { que = q })
            ]
          ])
      turn again e (took_last {r = q} rep why) =
          again _ (At-pop x xs n c t q at rep (pop1-reach chunk_ents_bit t.que 0 0 e))
      turn again e (took_more {r = q} rep left go_on) =
          again _ (At-pop x xs n c t q at rep (pop1-reach chunk_ents_bit t.que 0 0 e))

  pub pop_rest-Sized :
      (k rounds n c : ℕ) (t : Test)
      → k < rounds
      → Sized k n c t
      → Passes mems (Sized 0 n c) (pop_rest rounds t)
  pop_rest-Sized k rounds n c t lt s =
      pop_rest-At rounds s.held n c t s.at (omega (arith, s.many, lt))

  -- An array with room for all elements empties the queue, and their number is what follows is told.
  pub pop_array-Sized :
      {P : Test → Type 0} (k blk n c : ℕ) (after : ℕ → Test → Option Outcome) (t : Test)
      → k ≤ blk
      → 0 < blk
      → Sized k n c t
      → ((u : Test) → Sized 0 n c u → Passes mems P (after k u))
      → Passes mems P (pop_array blk after t)
  unfolding pop_array
  pop_array-Sized {P} k blk n c after t le pos s next =
      let (r, all, rep) =
        pop_to-all chunk_ents_bit t.que s.held blk (omega arith) s.at.rep
          (omega (arith, le, s.many)) pos in
      let u = record t { que = r } in
      let told = next u (record {
        held = [];
        at = record {
          rep = rep;
          count = s.at.count;
          reach = Reach-pop c t u refl (pop_to-reach chunk_ents_bit t.que blk all) s.at.reach;
        };
        many = refl;
      }) in
      rw (pop_array, all) (subst (λ j. Passes mems P (after j u)) (sym s.many) told)
