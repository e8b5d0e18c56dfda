-- ===== src/Dev/QueTest/Whole.antt =====
-- All of `main` of dev/que.c.
use iel.Base.{
  ℕ, suc, ◌-◌, ◌<◌, ◌^◌, ◌≡◌, ◌≢◌, inl, inr, refl, sym, ap, ◌∙◌, Option, none, some, List, [], ◌∷◌,
  arith, length, Option-cases,
}
use mathlib.Core.List.{append-nil}
use mathlib.Core.Path.{subst}
use iel.Que.{Que, Map, Alloc, init, size, mapsz4}
use iel.Que.Push.{Bounded}
use iel.Que.Pop.{init-Rep, init-refused, size-length}
use iel.Que.Reach.{init-ends}
use iel.Que.Del.{del-frees}
use iel.Dev.QueTest.{
  chunk_ents_bit, min_chunks, Test, Outcome, exit, ◌~>◌, assert_eq, assert_size, pop_rest, trim_que,
  fill_and_pop, arrays, check_loop, mixed, stops, leave, main,
}
use iel.Dev.QueTest.Steps.{At, Sized, Reach, all_calls, Refuses, Passes, passes, returns, follow}
use iel.Dev.QueTest.Loops.{
  values, length-values, rsv_loop-Passes, rsv_loop-Sized, rsv-Sized, trim_que-Sized,
  fill_and_pop-Sized, pop_rest-Sized, pop_array-Sized,
}
use iel.Dev.QueTest.Stops.{assert_eq-passes, check_loop-Passes}

module _ (mems : ℕ → Alloc ℕ) where
  -- What the program may end in: 0 with all assertions passed and no chunk left, or, where the
  -- allocator refused a call, another result than 0 and than the 3 of an empty queue.
  pub data Ended : Option Outcome → Type 0 where
    all_passed : {m : Map ℕ} → ((c : ℕ) → m c ≡ none) → Ended (some (exit 0 2051 m))
    refused :
        {code n : ℕ} {m : Map ℕ} (k : ℕ)
        → k < all_calls
        → Refuses (mems k)
        → code ≢ 0
        → code ≢ 3
        → Ended (some (exit code n m))

  end :
      {P : Test → Type 0} {s : Option Outcome} {f : Test → Option Outcome}
      → Passes mems P s
      → ((t : Test) → P t → Ended (f t))
      → Ended (s ~> f)
  end (passes {t} p) next = next t p
  end (returns k early why nz nt) next = refused k early why nz nt

  assert_eq-Passes :
      (a b k n c : ℕ) (t : Test)
      → a ≡ b
      → Sized k n c t
      → Passes mems (Sized k (suc n) c) (assert_eq a b t)
  assert_eq-Passes a b k n c t e s = rw (assert_eq-passes a b t e) (
      passes (record {
        held = s.held;
        at = record { rep = s.at.rep; count = ap suc s.at.count; reach = same };
        many = s.many;
      }))
    where
      same : Reach c (record t { passed = suc t.passed })
      same = record { called = s.at.reach.called; near = s.at.reach.near; cap = s.at.reach.cap }

  Sized-size : (k n c : ℕ) (t : Test) → k < 2 ^ 64 → Sized k n c t → size chunk_ents_bit t.que ≡ k
  Sized-size k n c t small s =
      size-length chunk_ents_bit t.que s.held (omega arith) s.at.rep (omega (arith, small, s.many))
      ∙ s.many

  leave-Ended : (k c : ℕ) (t : Test) → Sized k 2051 c t → Ended (leave t)
  unfolding leave
  leave-Ended k c t s =
      let (m, freed, none_left) = del-frees chunk_ents_bit t.que s.held s.at.rep in
      rw (leave, freed, s.at.count) (all_passed none_left)

  module _ (ok : (k : ℕ) → Bounded (mems k)) where
    arrays-Passes : (t : Test) → Sized 0 0 104 t → Passes mems (Sized 0 1 1387) (arrays mems t)
    unfolding arrays
    arrays-Passes t s =
        follow mems
          (follow mems
            (follow mems
              (follow mems
                (follow mems
                  (rsv-Sized mems ok 0 4 42 0 104 t (omega arith) (omega arith) (omega arith) s)
                  λ u.
                    rsv_loop-Sized mems ok 1 6 (λ i. i) 1024 0 0 105 u (omega arith) (omega arith)
                      (omega arith))
                λ u full.
                  pop_array-Sized mems ok 1025 1030 0 1129 (λ out. trim_que mems) u (omega arith)
                    (omega arith) full λ w. trim_que-Sized mems ok 0 0 1129 w)
              λ u.
                rsv_loop-Sized mems ok 0 7 (λ i. 256 - i) 256 0 0 1130 u (omega arith) (omega arith)
                  (omega arith))
            λ u full.
              pop_array-Sized mems ok 256 256 0 1386 (λ out. assert_eq out 256) u (omega arith)
                (omega arith) full λ w. assert_eq-Passes 256 256 0 0 1386 w refl)
          (trim_que-Sized mems ok 0 1 1386)

    abbrev mixed_values : List ℕ
    mixed_values = values mixed 0 1024

    -- The elements of the last loop, counted before it
    counted :
        (t : Test) → At mixed_values 1 2411 t → Passes mems (At mixed_values 2 2411) (assert_size t)
    counted t at =
        let all : Sized 1024 1 2411 t = record {
          held = mixed_values;
          at = at;
          many = length-values mixed 0 1024;
        } in
        rw (assert_eq-passes _ _ t (Sized-size 1024 1 2411 t (omega arith) all)) (
          passes (record {
            rep = at.rep;
            count = ap suc at.count;
            reach = record { called = at.reach.called; near = at.reach.near; cap = at.reach.cap };
          }))

    -- The stop position is where the queue ends at the start of the loop.
    last_loop :
        (t : Test)
        → At mixed_values 2 2411 t
        → Passes mems (Sized 1024 2050 3435) (check_loop mems t.que.chunk_e t.que.os_e 1024 0 t)
    last_loop t at =
        check_loop-Passes mems ok t.que.chunk_e t.que.os_e 1024 0 2 2050 2411 3435 [] t
          at.rep.os_e_in refl refl (omega (arith, at.rep.span, length-values mixed 0 1024)) refl
          refl (omega arith) (subst (λ xs. At xs 2 2411 t) (sym (append-nil mixed_values)) at)

    stops-Passes : (t : Test) → At [] 1 1387 t → Passes mems (Sized 1024 2051 3435) (stops mems t)
    unfolding stops
    stops-Passes t at =
        follow mems
          (follow mems
            (follow mems
              (rsv_loop-Passes mems ok [] 8 mixed 1024 0 1 1387 t (omega arith) (omega arith)
                (omega arith) at)
              counted)
            last_loop)
          λ u s.
            assert_eq-Passes (size chunk_ents_bit u.que) 1024 1024 2050 3435 u
              (Sized-size 1024 2050 3435 u (omega arith) s) s

    emptied : (t : Test) → Sized 0 1 1387 t → At [] 1 1387 t
    emptied t s = by_list s.held s.at s.many
      where
        by_list : (xs : List ℕ) → At xs 1 1387 t → length xs ≡ 0 → At [] 1 1387 t
        by_list [] at many = at
        by_list (x ∷ xs) at many = absurd (omega (arith, many))

    after_init :
        (t : Test)
        → Sized 0 0 1 t
        → Ended (
            trim_que mems t
            ~> fill_and_pop mems 3
            ~> (λ u. pop_rest (suc (size chunk_ents_bit u.que)) u)
            ~> arrays mems
            ~> stops mems
            ~> leave)
    after_init t s =
        end
          (follow mems
            (follow mems
              (follow mems
                (follow mems (trim_que-Sized mems ok 0 0 1 t s)
                  λ u. fill_and_pop-Sized mems ok 3 0 3 0 2 104 u refl refl (omega arith))
                λ u three.
                  pop_rest-Sized mems ok 3 (suc (size chunk_ents_bit u.que)) 0 104 u
                    (omega (arith, Sized-size 3 0 104 u (omega arith) three)) three)
              arrays-Passes)
            λ u none_left. stops-Passes u (emptied u none_left))
          (leave-Ended 1024 3435)

    -- The queue that `init` makes
    made-Sized :
        (q : Que ℕ)
        → init min_chunks (mems 0) 0 ≡ some q
        → Sized 0 0 1 (record { que = q; calls = 1; passed = 0 })
    made-Sized q made =
        let ends = init-ends min_chunks 0 (mems 0) made in
        record {
          held = [];
          at = record {
            rep =
                init-Rep chunk_ents_bit min_chunks 0 (mems 0) (ok 0) (omega arith) (omega arith)
                  (omega arith) made;
            count = refl;
            reach = record { called = refl; near = omega (arith, ends); cap = omega (arith, ends) };
          };
          many = refl;
        }

    -- The program never faults, never aborts and never finds the queue empty where it pops with a
    -- return of 3. It returns 0 with its 2051 assertions passed and every chunk freed, or another
    -- result, and then one of the first 3435 calls of the allocator refused a chunk or a map of at
    -- most 1114 bytes. This is for an allocator that grants no size above `PTRDIFF_MAX`.
    pub main-Ended : Ended (main mems)
    unfolding main
    main-Ended = elim (Option-cases (init min_chunks (mems 0) 0)) [
      | inl no_map ↦
          rw (main, no_map)
            (refused 0 (omega arith)
              (inr (
                mapsz4 min_chunks,
                omega arith,
                init-refused chunk_ents_bit min_chunks 0 (mems 0) no_map,
              ))
              (omega arith) (omega arith))
      | inr (q, made) ↦
          rw (main, made)
            (after_init (record { que = q; calls = 1; passed = 0 }) (made-Sized q made))
    ]
