-- ===== src/Dev/QueTest/Stops.antt =====
-- The last loop of dev/que.c: each pop is told where the queue ended before it, and returns 1 there.
use iel.Base.{
  ℕ, zero, suc, ◌+◌, ◌-◌, ◌*◌, ◌≤◌, ◌<◌, ◌≡◌, inl, inr, refl, ◌∙◌, true, false, some, List, [], ◌∷◌,
  ◌++◌, arith, length, length-append, ◌==◌, ◌&&◌, Option-cases, eq-true, eq-false,
}
use native.Mathlib.Decide.{ℕ_discrete}
use mathlib.Core.List.{append_assoc}
use mathlib.Core.Path.{subst}
use iel.Que.{Que, Alloc, more, last, push}
use iel.Que.Rep.{Rep, start}
use iel.Que.Push.{Bounded}
use iel.Que.Pop.{pop1-cons_moved}
use iel.Que.Reach.{NotFarther, push-reach, pop1-reach}
use iel.Dev.QueTest.{chunk_ents_bit, Test, go, ◌~>◌, rsv, assert_eq, check, check_loop, mixed}
use iel.Dev.QueTest.Steps.{
  At, Sized, At-calls, Reach-pop, all_calls, Passes, passes, follow, also, rsv-Passes,
}
use iel.Dev.QueTest.Loops.{values, length-values}

place-eq : (c o d k : ℕ) → o < 128 → k < 128 → (c == d && o == k) ≡ (c * 128 + o == d * 128 + k)
place-eq c o d k ho hk = ground arith

pub assert_eq-passes :
    (a b : ℕ) (t : Test) → a ≡ b → assert_eq a b t ≡ some (go (record t { passed = suc t.passed }))
assert_eq-passes a b t e = ground (arith, e)

-- The queue starts at the position `p`.
abbrev StartsAt : ℕ → Test → Type 0
StartsAt p t = start chunk_ents_bit t.que ≡ p

module _ (mems : ℕ → Alloc ℕ) (ok : (k : ℕ) → Bounded (mems k)) where
  -- A statement that stores leaves the start of the queue.
  rsv-StartsAt :
      (p code v : ℕ) (t : Test) {u : Test}
      → StartsAt p t
      → rsv mems code v t ≡ some (go u)
      → StartsAt p u
  unfolding rsv
  rsv-StartsAt p code v t at e = elim (Option-cases (push chunk_ents_bit (mems t.calls) t.que v)) [
    | inl fault ↦ absurd (ground (arith, e, fault))
    | inr ((false, q), pushed) ↦ absurd (ground (arith, e, pushed))
    | inr ((true, q), pushed) ↦
        let same = push-reach chunk_ents_bit (mems t.calls) t.que v pushed in
        ground (arith, e, pushed, same.0, at)
  ]

  -- What a pop and the two assertions leave
  checked :
      (x : ℕ) (xs : List ℕ) (n c : ℕ) (t : Test) (q : Que ℕ)
      → At (x ∷ xs) n c t
      → Rep chunk_ents_bit q xs
      → NotFarther t.que q
      → At xs (n + 2) c (record { que = q; calls = t.calls; passed = suc (suc t.passed) })
  checked x xs n c t q at rep down = record {
    rep = rep;
    count = omega (arith, at.count);
    reach = Reach-pop c t _ refl down at.reach;
  }

  -- The round's pop, and its assertions: 1 is returned in the last round alone.
  check-Passes :
      (chunk_stop os_stop i n c y : ℕ) (ys : List ℕ) (t : Test)
      → os_stop < 128
      → i < 1024
      → chunk_stop * 128 + os_stop ≡ start chunk_ents_bit t.que + (1024 - i)
      → At (mixed i ∷ y ∷ ys) n c t
      → Passes mems
          (λ u. At (y ∷ ys) (n + 2) c u × StartsAt (start chunk_ents_bit t.que + 1) u)
          (check chunk_stop os_stop i t)
  unfolding check
  check-Passes chunk_stop os_stop i n c y ys t small below stop at =
      let (r, rep, moved, popped) =
        pop1-cons_moved chunk_ents_bit t.que (mixed i) y ys chunk_stop os_stop at.rep in
      let here = place-eq chunk_stop os_stop r.chunk_s r.os_s small rep.os_s_in in
      let self = assert_eq-passes (mixed i) (mixed i) (record t { que = r }) refl in
      elim (ℕ_discrete i 1023) [
        | yes final ↦
            let reached : (chunk_stop == r.chunk_s && os_stop == r.os_s) ≡ true =
              here ∙ eq-true _ _ (omega (arith, stop, moved, final)) in
            let down =
              pop1-reach chunk_ents_bit t.que chunk_stop os_stop {p = last (mixed i)}
                (rw reached at popped) in
            rw (check, popped, reached, self, eq-true i 1023 final)
              (passes (checked (mixed i) (y ∷ ys) n c t r at rep down, moved))
        | no before ↦
            let not_yet : (chunk_stop == r.chunk_s && os_stop == r.os_s) ≡ false =
              here ∙ eq-false _ _ λ e. omega (arith, stop, moved, before, e) in
            let down =
              pop1-reach chunk_ents_bit t.que chunk_stop os_stop {p = more (mixed i)}
                (rw not_yet at popped) in
            rw (check, popped, not_yet, self, eq-false i 1023 before)
              (passes (checked (mixed i) (y ∷ ys) n c t r at rep down, moved))
      ]

  -- A round: the element is taken, and a null pointer stored.
  round-Passes :
      (chunk_stop os_stop i n c : ℕ) (xs : List ℕ) (t : Test)
      → os_stop < 128
      → i < 1024
      → chunk_stop * 128 + os_stop ≡ start chunk_ents_bit t.que + (1024 - i)
      → length xs ≡ 1023
      → c < all_calls
      → At (mixed i ∷ xs) n c t
      → Passes mems
          (λ u. At (xs ++ 0 ∷ []) (n + 2) (c + 1) u × StartsAt (start chunk_ents_bit t.que + 1) u)
          (check chunk_stop os_stop i t ~> rsv mems 9 0)
  round-Passes chunk_stop os_stop i n c [] t small below stop many early at =
      absurd (omega (arith, many))
  round-Passes chunk_stop os_stop i n c (y ∷ ys) t small below stop many early at =
      follow mems (check-Passes chunk_stop os_stop i n c y ys t small below stop at) λ u popped.
        also mems
          (rsv-Passes mems ok (y ∷ ys) 9 0 (n + 2) c u (omega arith) (omega arith) early popped.0)
          λ w e held. (held, rsv-StartsAt _ 9 0 u popped.1 e)

  -- The loop, with the elements to come and the null pointers `zs` that stand for those it took.
  pub check_loop-Passes :
      (chunk_stop os_stop rounds i n m c d : ℕ) (zs : List ℕ) (t : Test)
      → os_stop < 128
      → i + rounds ≡ 1024
      → length zs ≡ i
      → chunk_stop * 128 + os_stop ≡ start chunk_ents_bit t.que + rounds
      → n + 2 * rounds ≡ m
      → c + rounds ≡ d
      → d ≤ all_calls
      → At (values mixed i rounds ++ zs) n c t
      → Passes mems (Sized 1024 m d) (check_loop mems chunk_stop os_stop rounds i t)
  unfolding check_loop values
  check_loop-Passes chunk_stop os_stop zero i n m c d zs t small sum many stop count calls early
        at =
      passes (record {
        held = zs;
        at =
            At-calls (omega (arith, calls))
              (record { rep = at.rep; count = omega (arith, at.count, count); reach = at.reach });
        many = omega (arith, many, sum);
      })
  check_loop-Passes chunk_stop os_stop (suc rounds) i n m c d zs t small sum many stop count calls
        early at =
      let later = values mixed (suc i) rounds in
      let tail : length (later ++ zs) ≡ 1023 =
        omega (arith, length-append later zs, length-values mixed (suc i) rounds, many, sum) in
      follow mems
        (round-Passes chunk_stop os_stop i n c (later ++ zs) t small (omega (arith, sum))
          (omega (arith, stop, sum)) tail (omega (arith, calls, early)) at)
        λ u round.
          check_loop-Passes chunk_stop os_stop rounds (suc i) (n + 2) m (c + 1) d (zs ++ 0 ∷ []) u
            small (omega (arith, sum)) (omega (arith, length-append zs (0 ∷ []), many))
            (omega (arith, stop, round.1)) (omega (arith, count)) (omega (arith, calls)) early
            (subst (λ xs. At xs (n + 2) (c + 1) u) (append_assoc later zs (0 ∷ [])) round.0)
