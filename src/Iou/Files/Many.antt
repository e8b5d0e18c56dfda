-- ===== src/Iou/Files/Many.antt =====
-- The state of the loop of ielb_ioux_regfiles after some descriptors have got their slots, each in a word of
-- its own.
use iel.Base.{
  get_elem?-set_same, get_elem?-set_other, length-set, ℕ, ◌+◌, ◌/◌, ◌≤◌, ◌<◌, ◌≡◌, ◌≢◌, refl, ap,
  sym, ◌∙◌, some, Bool, Bool-cases, List,
}
use iel.Base.{arith, if◌then◌else◌, ◌==◌, get_elem?, set, length, eq-false, eq-true, inl, inr}
use mathlib.Core.Path.{subst}
use iel.Bitmap.{Scan}
use iel.Bitmap.Free.{Wide, free_at}
use iel.Iou.{Ctx}
use iel.Iou.Files.{RegFd, bmsz}
use iel.Iou.Files.Round.{put_slot, Slots, filled}

-- Descriptor `j` has the slot that entry `j` of `out` shows: one of word `j` that was free.
pub record Held (before pud : Ctx) (fds out : List RegFd) (j : ℕ) : Type 0 where
  pub fd : RegFd
  pub slot : ℕ
  pub given : get_elem? fds j ≡ some fd
  pub shown : get_elem? out j ≡ some (record { raw = fd.raw; reg = slot })
  pub in_word : slot / 64 ≡ j
  pub was_free : free_at before.filetable_bitmap slot ≡ 1
  pub taken : free_at pud.filetable_bitmap slot ≡ 0
  pub stored : get_elem? pud.filetable slot ≡ some fd.raw

-- After `i` rounds
pub record HeldTo (before pud : Ctx) (fds out : List RegFd) (nr_args i : ℕ) : Type 0 where
  pub held : (j : ℕ) → j < i → Held before pud fds out j
  pub ahead :
      (k : ℕ) → i ≤ k / 64 → free_at pud.filetable_bitmap k ≡ free_at before.filetable_bitmap k
  pub kept :
      (k : ℕ)
      → ((j : ℕ) (o : RegFd) → j < i → get_elem? out j ≡ some o → o.reg ≢ k)
      → (free_at pud.filetable_bitmap k ≡ free_at before.filetable_bitmap k)
        × (get_elem? pud.filetable k ≡ get_elem? before.filetable k)
  pub others :
      pud ≡ record before { filetable = pud.filetable; filetable_bitmap = pud.filetable_bitmap }
  pub words : length pud.filetable_bitmap ≡ bmsz before
  pub wide : Wide pud.filetable_bitmap
  pub entries : length pud.filetable ≡ before.filetable_len
  pub outs : length out ≡ nr_args

-- Every one of the first `n` words has a free slot.
abbrev pub FreeTo : Ctx → ℕ → Type 0
FreeTo pud n = (c : ℕ) → c < n → (k : ℕ) × (k / 64 ≡ c) × (free_at pud.filetable_bitmap k ≡ 1)

module _ (before pud : Ctx) (fds out : List RegFd) (nr_args i : ℕ) (slots : Slots before)
    (so_far : HeldTo before pud fds out nr_args i) where
  pub same_words : bmsz pud ≡ bmsz before
  same_words = ap (λ (p : Ctx). bmsz p) so_far.others

  -- A slot of a later word changes nothing for an earlier descriptor.
  Held-later :
      (s : Scan) (fd : RegFd)
      → s.ret / 64 ≡ i
      → ((k : ℕ) → free_at s.bm k ≡ (if k == s.ret then 0 else free_at pud.filetable_bitmap k))
      → (j : ℕ) → j < i
      → Held before (put_slot pud out i fd s).pud fds (put_slot pud out i fd s).out j
  Held-later s fd at cleared j h =
      let old = so_far.held j h in
      let apart : old.slot ≢ s.ret = λ e. omega (arith, e, at, old.in_word) in
      let not_it = eq-false old.slot s.ret apart in
      record {
        fd = old.fd;
        slot = old.slot;
        given = old.given;
        shown =
            get_elem?-set_other out i j (record { raw = fd.raw; reg = s.ret })
              (λ e. omega (arith, e))
            ∙ old.shown;
        in_word = old.in_word;
        was_free = old.was_free;
        taken =
            cleared old.slot
            ∙ ap (λ (t : Bool). if t then 0 else free_at pud.filetable_bitmap old.slot) not_it
            ∙ old.taken;
        stored =
            get_elem?-set_other pud.filetable s.ret old.slot fd.raw
              (λ e. omega (arith, e, at, old.in_word))
            ∙ old.stored;
      }

  pub free_here :
      (m : ℕ)
      → FreeTo before m
      → i < m
      → (k : ℕ) × (k / 64 ≡ i) × (free_at pud.filetable_bitmap k ≡ 1)
  free_here m free more =
      let (k, at, one) = free i more in (k, at, so_far.ahead k (omega (arith, at)) ∙ one)

  -- A slot that no entry of `out` shows
  kept-later :
      (s : Scan) (fd : RegFd)
      → s.ret / 64 ≡ i
      → i < nr_args
      → ((k : ℕ) → free_at s.bm k ≡ (if k == s.ret then 0 else free_at pud.filetable_bitmap k))
      → (k : ℕ)
      → ((j : ℕ) (o : RegFd)
          → j < i + 1
          → get_elem? (put_slot pud out i fd s).out j ≡ some o
          → o.reg ≢ k)
      → (free_at s.bm k ≡ free_at before.filetable_bitmap k)
        × (get_elem? (set pud.filetable s.ret fd.raw) k ≡ get_elem? before.filetable k)
  kept-later s fd at more cleared k unused =
      let entry : RegFd = record { raw = fd.raw; reg = s.ret } in
      let apart : s.ret ≢ k =
        unused i entry (omega arith)
          (get_elem?-set_same out i entry (omega (arith, so_far.outs))) in
      let old = so_far.kept k (λ j o h shown.
        unused j o (omega arith)
          (get_elem?-set_other out i j entry (λ e. omega (arith, e)) ∙ shown)) in
      (
        cleared k
            ∙ ap (λ (t : Bool). if t then 0 else free_at pud.filetable_bitmap k)
                (eq-false k s.ret (λ e. apart (sym e)))
            ∙ old.0,
        get_elem?-set_other pud.filetable s.ret k fd.raw apart ∙ old.1,
      )

  pub HeldTo-suc :
      (s : Scan) (fd : RegFd)
      → i < nr_args
      → get_elem? fds i ≡ some fd
      → s.ret / 64 ≡ i
      → s.ret < length pud.filetable
      → free_at pud.filetable_bitmap s.ret ≡ 1
      → ((k : ℕ) → free_at s.bm k ≡ (if k == s.ret then 0 else free_at pud.filetable_bitmap k))
      → length s.bm ≡ length pud.filetable_bitmap
      → Wide s.bm
      → HeldTo before
          (put_slot pud out i fd s).pud
          fds
          (put_slot pud out i fd s).out
          nr_args
          (i + 1)
  HeldTo-suc s fd more given at inside was cleared size wide =
      let entry : RegFd = record { raw = fd.raw; reg = s.ret } in
      let self = eq-true s.ret s.ret refl in
      record {
        held = λ j h. elim (Bool-cases (j == i)) [
          | inl here ↦
              subst (Held before (put_slot pud out i fd s).pud fds (put_slot pud out i fd s).out)
                {x = i} {y = j} (ground (arith, here))
                (record {
                  fd = fd;
                  slot = s.ret;
                  given = given;
                  shown = get_elem?-set_same out i entry (omega (arith, so_far.outs));
                  in_word = at;
                  was_free = omega (arith, so_far.ahead s.ret (omega (arith, at)), was);
                  taken =
                      cleared s.ret
                      ∙ ap (λ (t : Bool). if t then 0 else free_at pud.filetable_bitmap s.ret) self;
                  stored = get_elem?-set_same pud.filetable s.ret fd.raw inside;
                })
          | inr there ↦ Held-later s fd at cleared j (ground (arith, there, h))
        ];
        ahead = λ k h.
            cleared k
            ∙ ap (λ (t : Bool). if t then 0 else free_at pud.filetable_bitmap k)
                (eq-false k s.ret (λ e. omega (arith, e, at)))
            ∙ so_far.ahead k (omega (arith, h));
        kept = λ k unused. kept-later s fd at more cleared k unused;
        others = ap (λ (p : Ctx). filled p s.ret fd.raw s.bm) so_far.others;
        words = size ∙ so_far.words;
        wide = wide;
        entries = length-set pud.filetable s.ret fd.raw ∙ so_far.entries;
        outs = length-set out i entry ∙ so_far.outs;
      }
