-- ===== src/Iou/Files/Loop.antt =====
-- The loop of ielb_ioux_regfiles over several descriptors, and the ways it ends.
use iel.Base.{
  get_elem?-inside, ℕ, zero, suc, ◌+◌, ◌/◌, ◌≤◌, ◌<◌, ◌≡◌, sym, ◌∙◌, ◌⊎◌, Option, some, Bool-cases,
  true, false, List,
}
use iel.Base.{arith, ◌==◌, ltb, length, eq-false, eq-true, inl, inr, sub64}
use mathlib.Core.Path.{subst}
use iel.Bitmap.{Scan, scan_clear, npos}
use iel.Bitmap.Free.{free_at}
use iel.Bitmap.Search.{Scanned, found, none_left, scan_clear-Scanned}
use iel.Iou.{Ctx}
use iel.Iou.Files.{RegFd, Looped, bmsz, reg_loop}
use iel.Iou.Files.Round.{round_of, put_slot, take_slot-inside, Slots}
use iel.Iou.Files.Many.{HeldTo, FreeTo, same_words, free_here, HeldTo-suc}

-- The first `m` descriptors get a slot: all of them, or the free slots end before word `m`.
pub data Stops (pud : Ctx) (nr_args m : ℕ) : Type 0 where
  every_arg : m ≡ nr_args → m ≤ bmsz pud → Stops pud nr_args m
  words_end :
      m < nr_args
      → m < bmsz pud
      → ((k : ℕ) → m ≤ k / 64 → free_at pud.filetable_bitmap k ≡ 0)
      → Stops pud nr_args m

-- What the loop ends in
pub data LoopEnd (before : Ctx) (fds : List RegFd) (nr_args m : ℕ) : Option Looped → Type 0 where
  all_held :
      (after : Ctx) (out : List RegFd)
      → m ≡ nr_args
      → HeldTo before after fds out nr_args nr_args
      → LoopEnd before fds nr_args m
          (some (record { full = false; i = nr_args; pud = after; out = out }))
  no_slot :
      (after : Ctx) (out : List RegFd)
      → m < nr_args
      → HeldTo before after fds out nr_args m
      → LoopEnd before fds nr_args m
          (some (record { full = true; i = sub64 m 1; pud = after; out = out }))

Stops-cases :
    (pud : Ctx) (nr_args m : ℕ)
    → Stops pud nr_args m
    → (m ≤ nr_args) × (m ≤ bmsz pud) × ((m ≡ nr_args) ⊎ ((m < nr_args) × (m < bmsz pud)))
Stops-cases pud nr_args m (every_arg e words) = (omega arith, words, inl e)
Stops-cases pud nr_args m (words_end some_left words none_free) =
    (omega arith, omega arith, inr (some_left, words))

module _ (before : Ctx) (fds : List RegFd) (nr_args m : ℕ) (slots : Slots before)
    (args : length fds ≡ nr_args) (stops : Stops before nr_args m) (free : FreeTo before m) where
  -- A round that gets a slot
  round-got :
      (rounds i : ℕ) (pud : Ctx) (out : List RegFd)
      → HeldTo before pud fds out nr_args i
      → i < m
      → ((next : Ctx) (shown : List RegFd) (it : ℕ)
          → it ≡ i + 1
          → HeldTo before next fds shown nr_args (i + 1)
          → i + 1 < nr_args
          → LoopEnd before fds nr_args m (reg_loop rounds next fds shown nr_args (i + 1) it))
      → {scan : Option Scan} → Scanned pud.filetable_bitmap i scan
      → LoopEnd before fds nr_args m (round_of rounds pud fds out nr_args i scan)
  unfolding round_of
  round-got rounds i pud out so_far more again (none_left s e same none_free) =
      let (k, at, one) = free_here before pud fds out nr_args i slots so_far m free more in
      absurd (omega (arith, one, none_free k (omega (arith, at))))
  round-got rounds i pud out so_far more again
        (found s was cleared earlier next below from size wide) =
      let (few, words, last_one) = Stops-cases before nr_args m stops in
      let (k, at, one) = free_here before pud fds out nr_args i slots so_far m free more in
      let (fd, given) = get_elem?-inside fds i (omega arith) in
      let sizes = same_words before pud fds out nr_args i slots so_far in
      let here : s.ret / 64 ≡ i = elim (Bool-cases (s.ret / 64 == i)) [
        | inl e ↦ ground (arith, e)
        | inr e ↦
            absurd (omega (arith, one, earlier k (omega (arith, at)) (ground (arith, at, from, e))))
      ] in
      let original = so_far.ahead s.ret (omega (arith, here)) in
      let inside : s.ret < before.filetable_len =
        slots.inside s.ret (omega (arith, original, was)) in
      let stored : s.ret < length pud.filetable = omega (arith, inside, so_far.entries) in
      let real = eq-false s.ret npos (omega (arith, slots.bounded, inside)) in
      let got =
        take_slot-inside pud fd fds out i s given stored (omega (arith, slots.bounded, inside))
          (omega (arith, more, so_far.outs)) in
      let held =
        HeldTo-suc before pud fds out nr_args i slots so_far s fd (omega (arith, few, more)) given
          here stored was cleared size wide in
      let next_pud = (put_slot pud out i fd s).pud in
      let shown = (put_slot pud out i fd s).out in
      elim (Bool-cases (ltb (i + 1) nr_args)) [
        | inl left ↦
            let inside_words : ltb s.it (bmsz pud) ≡ true = elim last_one [
              | inl e ↦ ground (arith, left, sizes, next, here, words, e)
              | inr h ↦ ground (arith, more, sizes, next, here, h.1)
            ] in
            let at_next : s.it ≡ i + 1 = omega (arith, next, here) in
            rw (real, got, left, inside_words)
              (again next_pud shown s.it at_next held (ground (arith, left)))
        | inr last ↦
            let end : i + 1 ≡ nr_args = ground (arith, last, more) in
            let found_all = subst (HeldTo before next_pud fds shown nr_args) end held in
            rw (real, got, last)
              (subst
                (λ (n : ℕ).
                  LoopEnd before fds nr_args m (some (record (put_slot pud out i fd s) { i = n })))
                (sym end) (all_held next_pud shown (omega (arith, few, more, end)) found_all))
      ]

  -- The round that looks past the last free slot
  round-full :
      (rounds : ℕ) (pud : Ctx) (out : List RegFd)
      → HeldTo before pud fds out nr_args m
      → m < nr_args
      → {scan : Option Scan} → Scanned pud.filetable_bitmap m scan
      → LoopEnd before fds nr_args m (round_of rounds pud fds out nr_args m scan)
  unfolding round_of
  round-full rounds pud out so_far more (none_left s e same none_free) = rw (eq-true s.ret npos e) (
      subst
        (λ b. LoopEnd before fds nr_args m (
          some (record {
            full = true;
            i = sub64 m 1;
            pud = record pud { filetable_bitmap = b };
            out = out;
          })))
        (sym same) (no_slot pud out more so_far))
  round-full rounds pud out so_far more (found s was cleared earlier next below from size wide) =
      elim stops [
        | every_arg e words ↦ absurd (omega arith)
        | words_end fewer words none_free ↦
            absurd (omega (arith, none_free s.ret from, so_far.ahead s.ret from, was))
      ]

  pub reg_loop-LoopEnd :
      (rounds i : ℕ) (pud : Ctx) (out : List RegFd)
      → HeldTo before pud fds out nr_args i
      → i ≤ m
      → i < nr_args
      → bmsz before ≤ i + rounds
      → LoopEnd before fds nr_args m (reg_loop rounds pud fds out nr_args i i)
  unfolding reg_loop round_of
  reg_loop-LoopEnd zero i pud out so_far upto more enough =
      let (few, words, last_one) = Stops-cases before nr_args m stops in
      absurd (elim last_one [ inl e ↦ omega arith | inr h ↦ omega (arith, h.1) ])
  reg_loop-LoopEnd (suc rounds) i pud out so_far upto more enough =
      let sizes = same_words before pud fds out nr_args i slots so_far in
      let (few, words, last_one) = Stops-cases before nr_args m stops in
      let inside : i < bmsz before = elim last_one [
        | inl e ↦ omega arith
        | inr h ↦ omega (arith, h.1)
      ] in
      let scanned =
        scan_clear-Scanned pud.filetable_bitmap (bmsz pud) i (so_far.words ∙ sym sizes)
          (omega (arith, sizes, inside)) so_far.wide in
      elim (Bool-cases (i == m)) [
        | inl end ↦
            subst
              (λ (k : ℕ). LoopEnd before fds nr_args m (
                round_of rounds pud fds out nr_args k
                  (scan_clear pud.filetable_bitmap (bmsz pud) k)))
              {x = m} {y = i} (ground (arith, end))
              (round-full rounds pud out
                (subst (HeldTo before pud fds out nr_args) {x = i} {y = m} (ground (arith, end))
                  so_far)
                (ground (arith, end, more))
                (subst
                  (λ (k : ℕ).
                    Scanned pud.filetable_bitmap k (scan_clear pud.filetable_bitmap (bmsz pud) k))
                  {x = i} {y = m} (ground (arith, end)) scanned))
        | inr on ↦
            round-got rounds i pud out so_far (ground (arith, on, upto))
              (λ next shown it at held left.
                subst
                  (λ (k : ℕ).
                    LoopEnd before fds nr_args m (reg_loop rounds next fds shown nr_args (i + 1) k))
                  (sym at)
                  (reg_loop-LoopEnd rounds (i + 1) next shown held (ground (arith, on, upto)) left
                    (omega arith)))
              scanned
      ]
