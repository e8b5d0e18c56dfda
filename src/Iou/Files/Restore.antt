-- ===== src/Iou/Files/Restore.antt =====
-- The loop at `nobufs` of ielb_ioux_regfiles, which gives slots back.
use iel.Base.{
  put_elem?-inside, get_elem?-set_same, get_elem?-set_other, length-set, ℕ, zero, suc, ◌+◌, ◌^◌,
  ◌≤◌, ◌<◌, ◌≡◌, ◌≢◌, refl, ap, sym, ◌∙◌, Option, none, true, some, Bool, Bool-cases, List,
}
use iel.Base.{
  arith, if◌then◌else◌, ◌==◌, ltb, get_elem?, set, length, eq-false, inl, inr, sub64, max64,
}
use mathlib.Core.Path.{subst}
use iel.Bitmap.{bm_set}
use iel.Bitmap.Free.{Wide, free_at, bm_set-frees}
use iel.Iou.{Ctx}
use iel.Iou.Files.{RegFd, bmsz, inval, widen, give_back}
use iel.Iou.Files.Round.{Slots, filled}
use iel.Iou.Files.Many.{Held, HeldTo, same_words}

-- The table holds -1 in every free slot.
abbrev pub Vacant : Ctx → Type 0
Vacant pud = (k : ℕ) → free_at pud.filetable_bitmap k ≡ 1 → get_elem? pud.filetable k ≡ some inval

-- Entry `j` of `out` shows descriptor `j` without a slot.
abbrev pub Invalid : List RegFd → List RegFd → ℕ → Type 0
Invalid fds out j =
    (fd : RegFd) × (get_elem? fds j ≡ some fd)
    × (get_elem? out j ≡ some (record { raw = fd.raw; reg = inval }))

shown_reg :
    (before pud : Ctx) (fds out : List RegFd) (j : ℕ) (o : RegFd)
    → (held : Held before pud fds out j) → get_elem? out j ≡ some o
    → o.reg ≡ held.slot
shown_reg before pud fds out j o held shown =
    ap (λ (r : Option RegFd). elim r [ none ↦ 0 | some entry ↦ entry.reg ]) (sym shown ∙ held.shown)

module _ (before pud : Ctx) (fds out : List RegFd) (nr_args i : ℕ) (vacant : Vacant before)
    (so_far : HeldTo before pud fds out nr_args (i + 1)) (last : Held before pud fds out i)
    (bm : List ℕ) (size : length bm ≡ length pud.filetable_bitmap) (wide : Wide bm)
    (freed : (k : ℕ)
      → free_at bm k ≡ (if k == last.slot then 1 else free_at pud.filetable_bitmap k))
    (inside : last.slot < length pud.filetable) where
  abbrev entry : RegFd
  entry = record { raw = last.fd.raw; reg = inval }

  back_kept :
      (k : ℕ)
      → ((j : ℕ) (o : RegFd) → j < i → get_elem? out j ≡ some o → o.reg ≢ k)
      → (free_at bm k ≡ free_at before.filetable_bitmap k)
        × (get_elem? (set pud.filetable last.slot inval) k ≡ get_elem? before.filetable k)
  back_kept k unused = elim (Bool-cases (k == last.slot)) [
    | inl here ↦
        let e : last.slot ≡ k = ground (arith, here) in
        let was = ap (free_at before.filetable_bitmap) (sym e) ∙ last.was_free in
        (
          freed k
              ∙ ap (λ (t : Bool). if t then 1 else free_at pud.filetable_bitmap k) here
              ∙ sym was,
          ap (get_elem? (set pud.filetable last.slot inval)) (sym e)
              ∙ get_elem?-set_same pud.filetable last.slot inval inside
              ∙ sym (vacant k was),
        )
    | inr there ↦
        let old = so_far.kept k (λ j o h shown e. elim (Bool-cases (j == i)) [
          | inl same ↦
              let at : i ≡ j = ground (arith, same) in
              let reg = shown_reg before pud fds out i o last (ap (get_elem? out) at ∙ shown) in
              ground (arith, there, e, reg)
          | inr other ↦ unused j o (ground (arith, other, h)) shown e
        ]) in
        (
          freed k
              ∙ ap (λ (t : Bool). if t then 1 else free_at pud.filetable_bitmap k) there
              ∙ old.0,
          get_elem?-set_other pud.filetable last.slot k inval (λ e. ground (arith, there, e))
              ∙ old.1,
        )
  ]

  Held-back : (j : ℕ) → j < i → Held before (filled pud last.slot inval bm) fds (set out i entry) j
  Held-back j h =
      let old = so_far.held j (omega arith) in
      let apart = eq-false old.slot last.slot (λ e. omega (arith, e, old.in_word, last.in_word)) in
      record {
        fd = old.fd;
        slot = old.slot;
        given = old.given;
        shown = get_elem?-set_other out i j entry (λ e. omega (arith, e)) ∙ old.shown;
        in_word = old.in_word;
        was_free = old.was_free;
        taken =
            freed old.slot
            ∙ ap (λ (t : Bool). if t then 1 else free_at pud.filetable_bitmap old.slot) apart
            ∙ old.taken;
        stored =
            get_elem?-set_other pud.filetable last.slot old.slot inval
              (λ e. omega (arith, e, old.in_word, last.in_word))
            ∙ old.stored;
      }

  pub HeldTo-back : HeldTo before (filled pud last.slot inval bm) fds (set out i entry) nr_args i
  HeldTo-back = record {
    held = Held-back;
    ahead = λ k h.
        (back_kept k (λ j o less shown e.
          let old = so_far.held j (omega arith) in
          omega (arith, h, e, old.in_word, less, shown_reg before pud fds out j o old shown))).0;
    kept = λ k unused. back_kept k (λ j o less shown.
        unused j o less (get_elem?-set_other out i j entry (λ e. omega (arith, e, less)) ∙ shown));
    others = ap (λ (p : Ctx). filled p last.slot inval bm) so_far.others;
    words = size ∙ so_far.words;
    wide = wide;
    entries = length-set pud.filetable last.slot inval ∙ so_far.entries;
    outs = length-set out i entry ∙ so_far.outs;
  }

-- What the loop leaves, from `i` slots on
pub record Restored (before : Ctx) (fds out : List RegFd) (nr_args i : ℕ)
    (r : Option (Ctx × List RegFd)) : Type 0 where
  pub after : Ctx
  pub shown : List RegFd
  pub returns : r ≡ some (after, shown)
  pub kept : HeldTo before after fds shown nr_args 0
  pub invalid : (j : ℕ) → j < i → Invalid fds shown j
  pub above : (j : ℕ) → i ≤ j → get_elem? shown j ≡ get_elem? out j

give_back-step :
    (rounds : ℕ) (pud : Ctx) (out : List RegFd) (i : ℕ) (o : RegFd) (bm : List ℕ)
    → i < max64
    → get_elem? out i ≡ some o
    → o.reg < 2 ^ 20
    → o.reg < length pud.filetable
    → i < length out
    → bm_set pud.filetable_bitmap (bmsz pud) o.reg ≡ some bm
    → give_back (suc rounds) pud out i
      ≡ give_back rounds
          (filled pud o.reg inval bm)
          (set out i (record { raw = o.raw; reg = inval }))
          (sub64 i 1)
unfolding give_back widen
give_back-step rounds pud out i o bm small shown low inside room e =
    let real = eq-false i max64 (λ e. omega (arith, e)) in
    let positive : ltb o.reg (2 ^ 31) ≡ true = ground (arith, low) in
    rw
      (
        real,
        shown,
        positive,
        e,
        put_elem?-inside pud.filetable o.reg inval inside,
        put_elem?-inside out i (record { raw = o.raw; reg = inval }) room,
      )
      refl

module _ (before : Ctx) (fds : List RegFd) (nr_args : ℕ) (slots : Slots before)
    (vacant : Vacant before) (few : nr_args < max64) where
  -- Enough rounds give back every slot.
  pub give_back-Restored :
      (i rounds : ℕ) (pud : Ctx) (out : List RegFd)
      → HeldTo before pud fds out nr_args i
      → i ≤ nr_args
      → i < rounds
      → Restored before fds out nr_args i (give_back rounds pud out (sub64 i 1))
  unfolding give_back
  give_back-Restored i zero pud out so_far upto enough = absurd (omega arith)
  give_back-Restored zero (suc rounds) pud out so_far upto enough = record {
    after = pud;
    shown = out;
    returns = refl;
    kept = so_far;
    invalid = λ j h. absurd (omega arith);
    above = λ j h. refl;
  }
  give_back-Restored (suc i) (suc rounds) pud out so_far upto enough =
      let last = so_far.held i (omega arith) in
      let inside : last.slot < before.filetable_len = slots.inside last.slot last.was_free in
      let sizes = same_words before pud fds out nr_args (suc i) slots so_far in
      let (bm, e, size, wide, freed) =
        bm_set-frees pud.filetable_bitmap (bmsz pud) last.slot (so_far.words ∙ sym sizes)
          (omega (arith, inside, sizes)) so_far.wide in
      let stored : last.slot < length pud.filetable = omega (arith, inside, so_far.entries) in
      let back =
        HeldTo-back before pud fds out nr_args i vacant
          (subst (HeldTo before pud fds out nr_args) {x = suc i} {y = i + 1} (omega arith) so_far)
          last bm size wide freed stored in
      let rest =
        give_back-Restored i rounds (filled pud last.slot inval bm)
          (set out i (record { raw = last.fd.raw; reg = inval })) back (omega arith)
          (omega arith) in
      let step =
        give_back-step rounds pud out i (record { raw = last.fd.raw; reg = last.slot }) bm
          (omega arith) last.shown (omega (arith, inside, slots.bounded)) stored
          (omega (arith, so_far.outs)) e in
      record {
        after = rest.after;
        shown = rest.shown;
        returns = ap (give_back (suc rounds) pud out) (omega arith) ∙ step ∙ rest.returns;
        kept = rest.kept;
        invalid = λ j h. elim (Bool-cases (j == i)) [
          | inl here ↦ subst (Invalid fds rest.shown) {x = i} {y = j} (ground (arith, here)) (
            last.fd,
            last.given,
            rest.above i (omega arith)
                ∙ get_elem?-set_same out i (record { raw = last.fd.raw; reg = inval })
                    (omega (arith, so_far.outs)),
          )
          | inr there ↦ rest.invalid j (ground (arith, h, there))
        ];
        above = λ j h.
            rest.above j (omega arith)
            ∙ get_elem?-set_other out i j (record { raw = last.fd.raw; reg = inval })
                (λ e. omega (arith, e, h));
      }
