-- ===== src/Que/PopTo.antt =====
-- `pop_to`: taking a block of elements off the front.
mod Round
use iel.Base.{
  ℕ, zero, suc, ◌+◌, ◌-◌, ◌*◌, ◌/◌, ◌%◌, ◌^◌, ◌≤◌, ◌<◌, ◌≡◌, ◌≢◌, ◌⊎◌, refl, sym, ap, ◌∙◌,
}
use iel.Base.{Bool, true, false, ◌&&◌, Option, none, some, is_some, List, [], ◌∷◌, ◌++◌, ◌>>=◌}
use iel.Base.{
  arith, ltb, leb, ◌==◌, if◌then◌else◌, length, take, drop, Bool-cases, inl, inr, eq-true, eq-false,
}
use iel.Base.{
  length-drop, >>=-some, drop-nil, drop-all, take-all, drop-drop, take-append_take, sub32, add64,
  not,
}
use iel.Base.Bits.{pow_pos, mod-field}
use native.Mathlib.Nat.{mul-le-mul_right, pow-le-pow_right, mod-eq_of_lt, mod_self, mod-lt}
use native.Mathlib.Nat.{add_assoc}
use native.Mathlib.Decide.{dec_lt, dec_le, ℕ_discrete}
use mathlib.Core.Path.{subst, ap₂}
use mathlib.Core.List.{append-nil, append_assoc}
use mathlib.Core.Option.{some-injective}
use iel.Que.{Que, Map, Chunk, ents, pop_to, pop_to_loop, copy, block, chunk_at, free_chunk}
use iel.Que.{leave_chunk, trim_empty}
use iel.Que.Rep.{Rep, Holds, cell, element, top, start, finish, chunk-le, cell-field}
use iel.Que.Front.{first_chunk, Left, leave-Left, ends_meet, trim_empty-Rep}
use Round.{
  round-empty, round-exhausted, round-partial, round-next, waste-to_end, leave_chunk-stays,
  chunk_left, copy-take, span_of, moved,
}
pub use Round.{Taken, waste}

module _ {ℓ} {A : Type ℓ} (bits : ℕ) where
  Taken-nil :
      (rounds : ℕ) (q : Que A) (blk : ℕ) (out : List A)
      → 0 < blk
      → Rep bits q []
      → Taken bits q [] blk out (pop_to_loop bits (suc rounds) q blk out)
  Taken-nil rounds q (suc blk) out pos rep =
      let (r, t, rep', a, b) = trim_empty-Rep bits q rep in
      let meet = ends_meet bits q rep in
      let none_left : sub32 q.os_e q.os_s ≡ 0 = omega (arith, meet) in
      record {
        left = r;
        result =
            round-empty bits rounds q r (suc blk) out (sym meet.0) none_left t
            ∙ ap (λ ys. some (ys, r)) (sym (append-nil out));
        rep = subst (Rep bits r) (sym (drop-nil (suc blk + waste bits q (suc blk)))) rep';
      }
  Taken-nil rounds q zero out pos rep = absurd (omega arith)

  -- The last chunk.
  Taken-last :
      (rounds : ℕ) (q : Que A) (xs : List A) (blk : ℕ) (out : List A)
      → bits ≤ 32
      → 0 < blk
      → 0 < length xs
      → Rep bits q xs
      → q.chunk_e ≡ q.chunk_s
      → Taken bits q xs blk out (pop_to_loop bits (suc rounds) q blk out)
  Taken-last rounds q xs blk out width pos some_left rep same =
      let len = length xs in
      let narrow = pow-le-pow_right {n = 2} (omega arith) {i = bits} {j = 32} width in
      let meet : q.os_s + len ≡ q.os_e =
        omega (arith, rep.span, ap (λ (t : ℕ). t * ents bits) same) in
      let s : span_of bits q ≡ len =
        rw (eq-true _ _ same) (omega (arith, meet, narrow, rep.os_e_in)) in
      let (r, l, left) =
        leave-Left bits q xs len rep some_left (omega arith) (omega (arith, meet, rep.os_e_in)) in
      let here : (q.os_s + len) % ents bits ≢ 0 = λ z. omega (
        arith,
        mod-eq_of_lt {n = q.os_s + len} {m = ents bits} (omega (arith, meet, rep.os_e_in)),
        z,
      ) in
      let used_up : drop len xs ≡ [] = drop-all len xs (omega arith) in
      elim (dec_le blk len) [
        | yes le ↦
            let to_end = waste-to_end bits q blk pos (omega (arith, meet, rep.os_e_in)) in
            let none_left =
              drop-all (blk + waste bits q blk) xs (omega (arith, to_end, meet, rep.os_e_in)) in
            let c = copy-take bits q xs blk rep pos le (omega (arith, meet, rep.os_e_in)) in
            record {
              left = r;
              result = round-exhausted bits rounds q r blk len out (take blk xs) s some_left le c l;
              rep = subst (Rep bits r) (used_up ∙ sym none_left) left.rep;
            }
        | no gt ↦
            let unmoved =
              some-injective _ _ (sym (leave_chunk-stays bits (moved bits q len) here) ∙ l) in
            let emptied =
              subst (λ m. Rep bits m []) (sym unmoved) (subst (Rep bits r) used_up left.rep) in
            let (r', t, rep', a, b) = trim_empty-Rep bits (moved bits q len) emptied in
            let c =
              copy-take bits q xs len rep some_left (omega arith)
                (omega (arith, meet, rep.os_e_in)) in
            let all = take-all len xs (omega arith) ∙ sym (take-all blk xs (omega arith)) in
            let none_left = drop-all (blk + waste bits q blk) xs (omega arith) in
            record {
              left = r';
              result =
                  round-partial bits rounds q r' blk len out (take len xs) s some_left (omega arith)
                    here c t
                  ∙ ap (λ ys. some (out ++ ys, r')) all;
              rep = subst (Rep bits r') (sym none_left) rep';
            }
      ]

  -- A chunk before the last, where the block ends in it.
  Taken-chunk :
      (rounds : ℕ) (q : Que A) (xs : List A) (blk : ℕ) (out : List A)
      → 0 < blk
      → Rep bits q xs
      → q.chunk_s < q.chunk_e
      → q.os_s + blk ≤ ents bits
      → Taken bits q xs blk out (pop_to_loop bits (suc rounds) q blk out)
  Taken-chunk rounds q xs blk out pos rep apart fits =
      let n = ents bits - q.os_s in
      let s : span_of bits q ≡ n = rw (eq-false q.chunk_e q.chunk_s (omega arith)) refl in
      let enough = chunk_left bits q xs rep apart in
      let (r, l, left) = leave-Left bits q xs n rep (omega arith) enough (omega arith) in
      let c = copy-take bits q xs blk rep pos (omega arith) fits in
      let to_end : blk + waste bits q blk ≡ n = omega (arith, waste-to_end bits q blk pos fits) in
      record {
        left = r;
        result =
            round-exhausted bits rounds q r blk n out (take blk xs) s (omega arith) (omega arith) c
              l;
        rep = subst (λ k. Rep bits r (drop k xs)) (sym to_end) left.rep;
      }

  -- A chunk before the last that the block goes past: the loop's next state.
  Taken-next :
      (rounds : ℕ) (q : Que A) (xs : List A) (blk : ℕ) (out : List A)
      → Rep bits q xs
      → q.chunk_s < q.chunk_e
      → ents bits < q.os_s + blk
      → q.chunk_e < q.chunk_s + suc rounds
      → ((r : Que A)
          → Rep bits r (drop (ents bits - q.os_s) xs)
          → r.chunk_e < r.chunk_s + rounds
          → Taken bits r
              (drop (ents bits - q.os_s) xs)
              (blk - (ents bits - q.os_s))
              (out ++ take (ents bits - q.os_s) xs)
              (pop_to_loop bits rounds r
                (blk - (ents bits - q.os_s))
                (out ++ take (ents bits - q.os_s) xs)))
      → Taken bits q xs blk out (pop_to_loop bits (suc rounds) q blk out)
  Taken-next rounds q xs blk out rep apart past enough again =
      let n = ents bits - q.os_s in
      let s : span_of bits q ≡ n = rw (eq-false q.chunk_e q.chunk_s (omega arith)) refl in
      let (r, l, left) =
        leave-Left bits q xs n rep (omega arith) (chunk_left bits q xs rep apart) (omega arith) in
      let c =
        copy-take bits q xs n rep (omega arith) (chunk_left bits q xs rep apart) (omega arith) in
      let z : (q.os_s + n) % ents bits ≡ 0 =
        ap (λ (t : ℕ). t % ents bits) {x = q.os_s + n} {y = ents bits} (omega arith)
        ∙ mod_self (ents bits) in
      let further =
        chunk-le bits (suc q.chunk_s) 0 r.chunk_s r.os_s (pow_pos bits) left.rep.os_s_in
          (omega (arith, left.moved)) in
      let rest = again r left.rep (omega (arith, left.same_end, further)) in
      let step =
        round-next bits rounds q r blk n out (take n xs) s (omega arith) (omega arith) z c l in
      let blk_end : start bits r + (blk - n) ≡ start bits q + blk = omega (arith, left.moved) in
      let same_waste : waste bits r (blk - n) ≡ waste bits q blk =
        ap (λ (t : ℕ). (ents bits - t % ents bits) % ents bits) blk_end in
      let dropped =
        drop-drop n (blk - n + waste bits r (blk - n)) (blk + waste bits q blk) xs
          (omega (arith, same_waste)) in
      record {
        left = rest.left;
        result =
            step
            ∙ rest.result
            ∙ ap (λ ys. some (ys, rest.left))
                (append_assoc out (take n xs) (take (blk - n) (drop n xs))
                  ∙ ap (◌++◌ out) (take-append_take n (blk - n) blk xs (omega arith)));
        rep = subst (Rep bits rest.left) dropped rest.rep;
      }

  -- The loop, from any state that it is in.
  loop-Taken :
      (rounds : ℕ) (q : Que A) (xs : List A) (blk : ℕ) (out : List A)
      → bits ≤ 32
      → Rep bits q xs
      → 0 < blk
      → q.chunk_e < q.chunk_s + rounds
      → Taken bits q xs blk out (pop_to_loop bits rounds q blk out)
  loop-Taken zero q xs blk out width rep pos enough = absurd (
      omega (
        arith,
        chunk-le bits q.chunk_s q.os_s q.chunk_e q.os_e rep.os_s_in rep.os_e_in
            (omega (arith, rep.span)),
      ))
  loop-Taken (suc rounds) q [] blk out width rep pos enough = Taken-nil rounds q blk out pos rep
  loop-Taken (suc rounds) q (x ∷ xs) blk out width rep pos enough =
      let order =
        chunk-le bits q.chunk_s q.os_s q.chunk_e q.os_e rep.os_s_in rep.os_e_in
          (omega (arith, rep.span)) in
      elim (ℕ_discrete q.chunk_e q.chunk_s) [
        | yes same ↦ Taken-last rounds q (x ∷ xs) blk out width pos (omega arith) rep same
        | no ne ↦ elim (dec_le (q.os_s + blk) (ents bits)) [
          | yes fits ↦ Taken-chunk rounds q (x ∷ xs) blk out pos rep (omega arith) fits
          | no past ↦
              Taken-next rounds q (x ∷ xs) blk out rep (omega arith) (omega arith) enough
                λ r rep' enough'.
                  loop-Taken rounds r _ (blk - (ents bits - q.os_s)) _ width rep' (omega arith)
                    enough'
        ]
      ]

  -- `pop_to` on a queue that holds `xs`, with room for `blk` elements: it never faults, writes the
  -- first `blk` elements (all, if there are fewer) in order, and leaves the queue with what stands
  -- past them and past the rest of the chunk in which the block ends.
  pub pop_to-Taken :
      (q : Que A) (xs : List A) (blk : ℕ)
      → bits ≤ 32
      → Rep bits q xs
      → 0 < blk
      → Taken bits q xs blk [] (pop_to bits q blk)
  unfolding pop_to
  pop_to-Taken q xs blk width rep pos =
      rw (eq-false blk 0 (omega arith))
        (loop-Taken (q.chunk_e - q.chunk_s + 1) q xs blk [] width rep pos (omega arith))

  -- A block with room for all elements empties the queue.
  pub pop_to-all :
      (q : Que A) (xs : List A) (blk : ℕ)
      → bits ≤ 32
      → Rep bits q xs
      → length xs ≤ blk
      → 0 < blk
      → (r : Que A) × (pop_to bits q blk ≡ some (xs, r)) × Rep bits r []
  pop_to-all q xs blk width rep room pos =
      let t = pop_to-Taken q xs blk width rep pos in
      (
        t.left,
        t.result ∙ ap (λ ys. some (ys, t.left)) (take-all blk xs room),
        subst (Rep bits t.left) (drop-all (blk + waste bits q blk) xs (omega arith)) t.rep,
      )

  pub pop_to-zero : (q : Que A) → pop_to bits q 0 ≡ some ([], q)
  unfolding pop_to
  pop_to-zero q = refl

  -- A smaller block that does not end where its chunk ends loses elements: the queue afterwards
  -- holds fewer than `length xs - blk`.
  pop_to_loses :
      (q : Que A) (xs : List A) (blk : ℕ)
      → bits ≤ 32
      → Rep bits q xs
      → 0 < blk
      → blk < length xs
      → (start bits q + blk) % ents bits ≢ 0
      → (r : Que A) × (ys : List A) × (pop_to bits q blk ≡ some (take blk xs, r))
        × Rep bits r ys
        × (length ys + blk < length xs)
  pop_to_loses q xs blk width rep pos less off =
      let t = pop_to-Taken q xs blk width rep pos in
      let m = mod-lt (start bits q + blk) (pow_pos bits) in
      let some_waste : waste bits q blk ≡ ents bits - (start bits q + blk) % ents bits =
        mod-eq_of_lt (omega arith) in
      (
        t.left,
        drop (blk + waste bits q blk) xs,
        t.result,
        t.rep,
        omega (arith, some_waste, length-drop (blk + waste bits q blk) xs, m),
      )
