-- ===== src/Dev/QueTest/Steps.antt =====
-- The statements of dev/que.c one by one: what each does to a queue that holds a list.
use iel.Base.{
  ℕ, suc, ◌+◌, ◌*◌, ◌≤◌, ◌<◌, ◌≡◌, ◌≢◌, ◌⊎◌, inl, inr, refl, Bool, true, false, Option, none, some,
  List, [], ◌∷◌, ◌++◌, arith, length, length-append, u64,
}
use mathlib.Core.Path.{subst}
use iel.Que.{Que, Map, Alloc, Popped, empty, more, last, mapsz4, push, pop1}
use iel.Que.Rep.{Rep, finish}
use iel.Que.Push.{Bounded, Appended, appended, refused, push-Appended}
use iel.Que.Pop.{Took, took_last, took_more, pop1-Took}
use iel.Que.Trim.{trim-Trimmed, start-le-end}
use iel.Que.Reach.{SameStart, Grown, NotFarther, push-reach, pop1-reach, trim-reach}
use iel.Dev.QueTest.{
  chunk_ents_bit, min_chunks, Test, Outcome, go, exit, ◌~>◌, pop_one, rsv, trim_que,
}

-- After `c` calls of the allocator the queue ends at the position `c` or before, and the map is no
-- larger than that needs.
pub record Reach (c : ℕ) (t : Test) : Type 0 where
  pub called : t.calls ≡ c
  pub near : finish chunk_ents_bit t.que ≤ c
  pub cap : 64 * t.que.mapcap ≤ 1024 + c

-- The queue of the program holds `xs`, `n` assertions have passed, and the program has called the
-- allocator `c` times.
pub record At (xs : List ℕ) (n c : ℕ) (t : Test) : Type 0 where
  pub rep : Rep chunk_ents_bit t.que xs
  pub count : t.passed ≡ n
  pub reach : Reach c t

-- The queue holds `k` elements.
pub record Sized (k n c : ℕ) (t : Test) : Type 0 where
  pub held : List ℕ
  pub at : At held n c t
  pub many : length held ≡ k

-- How often the program calls the allocator if nothing is refused
abbrev pub all_calls : ℕ
all_calls = 3435

-- A call that the allocator refuses: for a chunk, or for a map of at most 1114 bytes.
abbrev pub Refuses : Alloc ℕ → Type 0
Refuses mem = (mem.chunk ≡ none) ⊎ ((n : ℕ) × (n ≤ 1114) × (mem.grants n ≡ false))

pub Reach-pop :
    (c : ℕ) (t u : Test) → u.calls ≡ t.calls → NotFarther t.que u.que → Reach c t → Reach c u
Reach-pop c t u same not_farther reach = record {
  called = omega (arith, same, reach.called);
  near = omega (arith, not_farther, reach.near);
  cap = omega (arith, not_farther, reach.cap);
}

pub At-pop :
    (x : ℕ) (xs : List ℕ) (n c : ℕ) (t : Test) (q : Que ℕ)
    → At (x ∷ xs) n c t
    → Rep chunk_ents_bit q xs
    → NotFarther t.que q
    → At xs n c (record t { que = q })
At-pop x xs n c t q at rep down = record {
  rep = rep;
  count = at.count;
  reach = Reach-pop c t (record t { que = q }) refl down at.reach;
}

pub At-calls : {xs : List ℕ} {n c d : ℕ} {t : Test} → c ≡ d → At xs n c t → At xs n d t
At-calls {xs} {n} {c} {d} {t} e at = subst (λ k. At xs n k t) e at

pub Sized-as : {j k n c d : ℕ} {t : Test} → j ≡ k → c ≡ d → Sized j n c t → Sized k n d t
Sized-as many calls s = record {
  held = s.held;
  at = At-calls calls s.at;
  many = omega (arith, s.many, many);
}

Reach-push :
    (c : ℕ) (xs : List ℕ) (v : ℕ) (t : Test) (q : Que ℕ)
    → Reach c t
    → Rep chunk_ents_bit t.que xs
    → Rep chunk_ents_bit q (xs ++ v ∷ [])
    → SameStart t.que q × Grown t.que q
    → Reach (c + 1) (record t { que = q; calls = suc t.calls })
Reach-push c xs v t q reach before after step = record {
  called = omega (arith, reach.called);
  near = omega (arith, before.span, after.span, length-append xs (v ∷ []), step.0, reach.near);
  cap = omega (arith, step.1, reach.cap, reach.near);
}

module _ (mems : ℕ → Alloc ℕ) where
  -- The statement is passed, in a state as P says, or `main` returns there because the allocator
  -- refused a call: not with 0, nor with the 3 of an empty queue. No fault, no `abort`.
  pub data Passes (P : Test → Type 0) : Option Outcome → Type 0 where
    passes : {t : Test} → P t → Passes P (some (go t))
    returns :
        {code n : ℕ} {m : Map ℕ} (k : ℕ)
        → k < all_calls
        → Refuses (mems k)
        → code ≢ 0
        → code ≢ 3
        → Passes P (some (exit code n m))

  pub follow :
      {P Q : Test → Type 0} {s : Option Outcome} {f : Test → Option Outcome}
      → Passes P s
      → ((t : Test) → P t → Passes Q (f t))
      → Passes Q (s ~> f)
  follow (passes {t} p) next = next t p
  follow (returns k early why nz nt) next = returns k early why nz nt

  -- What the state behind the statement is known for besides
  pub also :
      {P Q : Test → Type 0} {s : Option Outcome}
      → Passes P s
      → ((t : Test) → s ≡ some (go t) → P t → Q t)
      → Passes Q s
  also (passes {t} p) next = passes (next t refl p)
  also (returns k early why nz nt) next = returns k early why nz nt

  pub weaken :
      {P Q : Test → Type 0} {s : Option Outcome}
      → Passes P s
      → ((t : Test) → P t → Q t)
      → Passes Q s
  weaken p next = also p λ t e. next t

  module _ (ok : (k : ℕ) → Bounded (mems k)) where
    pub rsv-Passes :
        (xs : List ℕ) (code v n c : ℕ) (t : Test)
        → code ≢ 0
        → code ≢ 3
        → c < all_calls
        → At xs n c t
        → Passes (At (xs ++ v ∷ []) n (c + 1)) (rsv mems code v t)
    unfolding rsv
    rsv-Passes xs code v n c t nz nt early at =
        ends refl (push-Appended chunk_ents_bit (mems t.calls) t.que xs v (ok t.calls) at.rep)
      where
        ends :
            {o : Option (Bool × Que ℕ)}
            → push chunk_ents_bit (mems t.calls) t.que v ≡ o
            → Appended chunk_ents_bit (mems t.calls) t.que xs v o
            → Passes (At (xs ++ v ∷ []) n (c + 1)) (elim o [
              | none ↦ none
              | some (stored, q) ↦ elim stored [
                | true ↦ some (go (record t { que = q; calls = suc t.calls }))
                | false ↦ some (exit code t.passed q.map)
              ]
            ])
        ends e (appended {r = q} rep) = passes (record {
          rep = rep;
          count = at.count;
          reach =
              Reach-push c xs v t q at.reach at.rep rep
                (push-reach chunk_ents_bit (mems t.calls) t.que v e);
        })
        ends e (refused rep (inl no_chunk)) =
            returns t.calls (omega (arith, at.reach.called, early)) (inl no_chunk) nz nt
        ends e (refused rep (inr denied)) =
            returns t.calls (omega (arith, at.reach.called, early))
              (inr (mapsz4 (u64 (t.que.mapcap * 2)), omega (arith, at.reach.cap, early), denied)) nz
              nt

    pub trim_que-Passes :
        (xs : List ℕ) (n c : ℕ) (t : Test)
        → At xs n c t
        → Passes (At xs n (c + 1)) (trim_que mems t)
    unfolding trim_que
    trim_que-Passes xs n c t at =
        let trimmed =
          trim-Trimmed chunk_ents_bit min_chunks (mems t.calls) t.que xs (omega arith) (omega arith)
            at.rep in
        let down =
          trim-reach min_chunks (mems t.calls) t.que (start-le-end chunk_ents_bit t.que xs at.rep)
            trimmed.result in
        rw (trim_que, trimmed.result)
          (passes (record {
            rep = trimmed.rep;
            count = at.count;
            reach = record {
              called = omega (arith, at.reach.called);
              near = omega (arith, down, at.reach.near);
              cap = omega (arith, down, at.reach.cap);
            };
          }))

  pub pop_one-Passes :
      (x : ℕ) (xs : List ℕ) (code n c : ℕ) (t : Test)
      → At (x ∷ xs) n c t
      → Passes (At xs n c) (pop_one code t)
  unfolding pop_one
  pop_one-Passes x xs code n c t at = ends refl (pop1-Took chunk_ents_bit t.que x xs 0 0 at.rep)
    where
      ends :
          {o : Option (Popped ℕ × Que ℕ)}
          → pop1 chunk_ents_bit t.que 0 0 ≡ o
          → Took chunk_ents_bit x xs 0 0 o
          → Passes (At xs n c) (elim o [
            | none ↦ none
            | some (out, q) ↦ elim out [
              | empty ↦ some (exit code t.passed q.map)
              | more v ↦ some (go (record t { que = q }))
              | last v ↦ some (go (record t { que = q }))
            ]
          ])
      ends e (took_last {r = q} rep why) =
          passes (At-pop x xs n c t q at rep (pop1-reach chunk_ents_bit t.que 0 0 e))
      ends e (took_more {r = q} rep some_left go_on) =
          passes (At-pop x xs n c t q at rep (pop1-reach chunk_ents_bit t.que 0 0 e))
