-- ===== src/Iou/Drain/Behind.antt =====
-- The batch that a drain moves stands behind the last entry, whatever is pending, and what is pending
-- stays where there is room for both.
use iel.Base.{
  ℕ, zero, suc, ◌+◌, ◌%◌, ◌^◌, ◌≤◌, ◌<◌, ◌≡◌, refl, ap, sym, ◌∙◌, Option, ◌⊎◌, inl, inr, Bool-cases,
  ltb,
}
use iel.Base.{List, [], ◌∷◌, arith, length, take, get_elem?, sub32, ◌>>=◌}
use iel.Que.{Que}
use iel.Iou.{Ctx, Sqe}
use iel.Iou.Submit.Ring.{RingInv, pending, ring_at}
use iel.Iou.Drain.Refill.{refilled, length-take}
use iel.Iou.Drain.Arrays.{Written, Filled}

pub get_elem?-take :
    {A : Type 0} (n j : ℕ) (xs : List A) → j < n → get_elem? (take n xs) j ≡ get_elem? xs j
get_elem?-take zero j xs h = absurd (omega arith)
get_elem?-take (suc n) j [] h = refl
get_elem?-take (suc n) zero (x ∷ xs) h = refl
get_elem?-take (suc n) (suc j) (x ∷ xs) h = get_elem?-take n j xs (omega arith)

module _ (pud : Ctx) (xs : List Sqe) (n : ℕ) (inv : RingInv pud) (array : List ℕ)
    (filled : Filled pud.sring_array pud.lcl_stail n array) (sqes : List Sqe)
    (written : Written pud.sqes (pud.lcl_stail % 64) (take n xs) sqes) (r : Que Sqe)
    (all : n ≤ length xs) (fits : pud.lcl_stail % 64 + n ≤ 64) where
  pub entry_behind :
      (j : ℕ) → j < n → ring_at (refilled pud n array sqes r) (pud.lcl_stail + j) ≡ get_elem? xs j
  unfolding refilled
  entry_behind j h =
      let place : (pud.lcl_stail + j) % 64 ≡ pud.lcl_stail % 64 + j = omega (arith, fits, h) in
      ap (λ (o : Option ℕ). o >>= λ i. get_elem? sqes i) (filled.here j h)
      ∙ ap (get_elem? sqes) place
      ∙ written.here j (omega (arith, length-take n xs all))
      ∙ get_elem?-take n j xs h

  entry_apart :
      (k : ℕ)
      → (k < pud.lcl_stail % 64) ⊎ (pud.lcl_stail % 64 + n ≤ k)
      → get_elem? sqes k ≡ get_elem? pud.sqes k
  entry_apart k (inl lt) = written.before k lt
  entry_apart k (inr ge) = written.beyond k (omega (arith, length-take n xs all, ge))

  apart_slot :
      (h t j : ℕ)
      → t < 2 ^ 32
      → h < 2 ^ 32
      → j < sub32 t h
      → sub32 t h + n ≤ 64
      → t % 64 + n ≤ 64
      → ((h + j) % 64 < t % 64) ⊎ (t % 64 + n ≤ (h + j) % 64)
  apart_slot h t j ht hh hj room fit = elim (Bool-cases (ltb ((h + j) % 64) (t % 64))) [
    | inl lt ↦ inl (ground (arith, lt))
    | inr ge ↦
        let past : t % 64 ≤ (h + j) % 64 = ground (arith, ge) in
        inr (omega (arith, past, hj, room, fit))
  ]

  pub pending_kept :
      pending pud + n ≤ 64
      → (j : ℕ) → j < pending pud
      → ring_at (refilled pud n array sqes r) (pud.sring_head + j)
        ≡ ring_at pud (pud.sring_head + j)
  unfolding refilled
  pending_kept room j h =
      let own = inv.direct j h in
      let k = (pud.sring_head + j) % 64 in
      ap (λ (o : Option ℕ). o >>= λ i. get_elem? sqes i) (filled.kept k own)
      ∙ entry_apart k
          (apart_slot pud.sring_head pud.lcl_stail j inv.tail_in inv.head_in h room fits)
      ∙ ap (λ (o : Option ℕ). o >>= λ i. get_elem? pud.sqes i) (sym own)
