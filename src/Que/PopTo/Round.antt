-- ===== src/Que/PopTo/Round.antt =====
-- One round of the loop of `pop_to`, and where the block that it fills ends.
use iel.Base.{ℕ, zero, suc, ◌+◌, ◌-◌, ◌*◌, ◌%◌, ◌≤◌, ◌<◌, ◌≡◌, ◌≢◌, refl, sym, ap, ◌∙◌}
use iel.Base.{true, false, ◌&&◌, Option, some, List, [], ◌∷◌, ◌++◌}
use iel.Base.{arith, leb, ◌==◌, if◌then◌else◌, length, take, drop, eq-true, eq-false}
use iel.Base.{>>=-some, sub32, add64}
use iel.Base.Bits.{pow_pos, mod-field}
use native.Mathlib.Nat.{mul-le-mul_right, mod-eq_of_lt, mod_self}
use native.Mathlib.Nat.{add_assoc}
use native.Mathlib.Decide.{dec_lt}
use mathlib.Core.Path.{ap₂}
use mathlib.Core.Option.{some-injective}
use iel.Que.{Que, Map, Chunk, ents, pop_to_loop, copy, block, chunk_at, free_chunk}
use iel.Que.{leave_chunk, trim_empty}
use iel.Que.Rep.{Rep, Holds, cell, element, start, cell-field}
use iel.Que.Front.{first_chunk}

module _ {ℓ} {A : Type ℓ} (bits : ℕ) where
  -- The elements of one chunk that `memcpy` reads are those of the list.
  Holds-block :
      (m : Map A) (c : ℕ) (ch : Chunk A)
      → m c ≡ some ch
      → (n o p : ℕ) (xs : List A) → p ≡ c * ents bits + o
      → o + n ≤ ents bits
      → n ≤ length xs
      → Holds bits m p xs
      → block ch o n ≡ take n xs
  Holds-block m c ch live zero o p xs e fits len h = refl
  Holds-block m c ch live (suc n) o p [] e fits len h = absurd (omega arith)
  Holds-block m c ch live (suc n) o p (x ∷ xs) e fits len h =
      let here : some (ch o) ≡ some x =
        sym
          (ap (cell bits m) e ∙ cell-field bits m c o (omega arith) ∙ element-live (m c) ch o live)
        ∙ h.0 in
      ap₂ ◌∷◌ (some-injective _ _ here)
        (Holds-block m c ch live n (suc o) (suc p) xs (omega arith) (omega arith) (omega arith) h.1)
    where
      element-live :
          (s : Option (Chunk A)) (ch : Chunk A) (o : ℕ) → s ≡ some ch → element s o ≡ some (ch o)
      element-live s ch o e = unfold element in rw e

  pub copy-take :
      (q : Que A) (xs : List A) (n : ℕ)
      → Rep bits q xs
      → 0 < n
      → n ≤ length xs
      → q.os_s + n ≤ ents bits
      → copy bits q n ≡ some (take n xs)
  unfolding copy chunk_at
  copy-take q xs n rep pos len fits =
      let (ch, live, in_map, order) = first_chunk bits q xs rep (omega arith) in
      let read =
        Holds-block q.map q.chunk_s ch live n q.os_s (start bits q) xs refl fits len rep.holds in
      ground (arith, live, in_map, fits, read)

  -- The elements that lie between the end of a block of `blk` elements and the end of its chunk.
  abbrev pub waste : Que A → ℕ → ℕ
  waste q blk = (ents bits - (start bits q + blk) % ents bits) % ents bits

  -- What the loop ends in: the block's elements in order, and the queue past that chunk.
  pub record Taken (q : Que A) (xs : List A) (blk : ℕ) (out : List A)
      (res : Option (List A × Que A)) : Type ℓ where
    pub left : Que A
    pub result : res ≡ some (out ++ take blk xs, left)
    pub rep : Rep bits left (drop (blk + waste q blk) xs)

  -- The number of elements from `os_s` on that a round finds in the first chunk.
  abbrev pub span_of : Que A → ℕ
  span_of q = if q.chunk_e == q.chunk_s then sub32 q.os_e q.os_s else ents bits - q.os_s

  abbrev pub moved : Que A → ℕ → Que A
  moved q span = record q { os_s = (q.os_s + span) % ents bits }

  -- The four ways through a round of the loop.
  pub round-empty :
      (rounds : ℕ) (q r : Que A) (blk : ℕ) (out : List A)
      → q.chunk_e ≡ q.chunk_s
      → sub32 q.os_e q.os_s ≡ 0
      → trim_empty q ≡ some r
      → pop_to_loop bits (suc rounds) q blk out ≡ some (out, r)
  unfolding pop_to_loop
  round-empty rounds q r blk out e z t = rw (eq-true _ _ e, z, t)

  module _ (rounds : ℕ) (q r : Que A) (blk span : ℕ) (out ys : List A) (s : span_of q ≡ span)
      (pos : 0 < span) where
    pub busy : (q.chunk_e == q.chunk_s && span == 0) ≡ false
    busy = ground arith

    pub round-exhausted :
        blk ≤ span
        → copy bits q blk ≡ some ys
        → leave_chunk bits (moved q span) ≡ some r
        → pop_to_loop bits (suc rounds) q blk out ≡ some (out ++ ys, r)
    unfolding pop_to_loop
    round-exhausted le c l =
        let enough : leb blk span ≡ true = ground arith in rw (s, busy, enough, c, l)

    pub round-partial :
        span < blk
        → (q.os_s + span) % ents bits ≢ 0
        → copy bits q span ≡ some ys
        → trim_empty (moved q span) ≡ some r
        → pop_to_loop bits (suc rounds) q blk out ≡ some (out ++ ys, r)
    unfolding pop_to_loop
    round-partial lt nz c t =
        let short : leb blk span ≡ false = ground arith in
        rw (s, busy, short, eq-false _ 0 nz, c, t)

    pub round-next :
        span < blk
        → (q.os_s + span) % ents bits ≡ 0
        → copy bits q span ≡ some ys
        → leave_chunk bits (moved q span) ≡ some r
        → pop_to_loop bits (suc rounds) q blk out
          ≡ pop_to_loop bits rounds r (blk - span) (out ++ ys)
    unfolding pop_to_loop leave_chunk
    round-next lt z c l =
        let short : leb blk span ≡ false = ground arith in
        rw (s, busy, short, eq-true _ 0 z, c)
          (>>=-some (free_chunk (moved q span) q.chunk_s)
            (λ q'. record q' { chunk_s = add64 q'.chunk_s 1 })
            (λ q'. pop_to_loop bits rounds q' (blk - span) (out ++ ys)) (rw (eq-true _ 0 z) at l))

  -- A block that ends in the first chunk: its waste reaches to the end of that chunk.
  pub waste-to_end :
      (q : Que A) (blk : ℕ)
      → 0 < blk
      → q.os_s + blk ≤ ents bits
      → q.os_s + (blk + waste q blk) ≡ ents bits
  waste-to_end q blk pos fits = elim (dec_lt (q.os_s + blk) (ents bits)) [
    | yes inside ↦
        let m : (start bits q + blk) % ents bits ≡ q.os_s + blk =
          ap (λ (t : ℕ). t % ents bits) (add_assoc (q.chunk_s * ents bits) q.os_s blk)
          ∙ mod-field bits q.chunk_s (q.os_s + blk) inside in
        let w : waste q blk ≡ ents bits - (q.os_s + blk) =
          ap (λ (t : ℕ). (ents bits - t) % ents bits) m ∙ mod-eq_of_lt (omega arith) in
        omega (arith, w)
    | no end ↦
        let full : q.os_s + blk ≡ ents bits = omega arith in
        let m : (start bits q + blk) % ents bits ≡ 0 =
          ap (λ (t : ℕ). t % ents bits) {y = suc q.chunk_s * ents bits + 0} (omega (arith, full))
          ∙ mod-field bits (suc q.chunk_s) 0 (pow_pos bits) in
        let whole : (ents bits - 0) % ents bits ≡ 0 =
          ap (λ (t : ℕ). t % ents bits) {x = ents bits - 0} {y = ents bits} (omega arith)
          ∙ mod_self (ents bits) in
        let w : waste q blk ≡ 0 = ap (λ (t : ℕ). (ents bits - t) % ents bits) m ∙ whole in
        omega (arith, w)
  ]

  pub leave_chunk-stays : (q : Que A) → q.os_s ≢ 0 → leave_chunk bits q ≡ some q
  unfolding leave_chunk
  leave_chunk-stays q h = rw (eq-false _ 0 h)

  -- Before the last chunk, the rest of the chunk is full.
  pub chunk_left :
      (q : Que A) (xs : List A)
      → Rep bits q xs
      → q.chunk_s < q.chunk_e
      → ents bits - q.os_s ≤ length xs
  chunk_left q xs rep apart = omega (arith, rep.span, mul-le-mul_right (ents bits) apart)
