-- ===== src/Iou/Files/All.antt =====
-- Calls of ielb_ioux_regfiles for several descriptors, with a slot for each of them or for the first ones.
use iel.Base.{
  get_elem?-past, none, max64, ℕ, suc, ◌+◌, ◌/◌, ◌≤◌, ◌<◌, ◌≡◌, refl, sym, Option, some, Bool,
  Bool-cases, true, false, ◌>>=◌, List, arith, length, eq-false, inl, inr,
}
use mathlib.Core.Path.{subst}
use iel.Bitmap.Free.{free_at}
use iel.Iou.{Ctx}
use iel.Iou.Files.{
  RegFd, Looped, Done, bmsz, noimpl, enobufs, reg_loop, register, regfiles, nobufs, give_back,
}
use iel.Iou.Files.Round.{Slots}
use iel.Iou.Files.Many.{HeldTo, FreeTo}
use iel.Iou.Files.Loop.{LoopEnd, all_held, no_slot, every_arg, words_end, reg_loop-LoopEnd}
use iel.Iou.Files.Restore.{Vacant, Invalid, give_back-Restored}

-- What a call for several descriptors does.
pub data RegisteredAll (update : List ℕ → Bool) (before : Ctx) (fds : List RegFd) (nr_args : ℕ)
    : Option Done → Type 0 where
  registered_all :
      (after : Ctx) (out : List RegFd)
      → HeldTo before after fds out nr_args nr_args
      → update after.filetable ≡ true
      → RegisteredAll update before fds nr_args
          (some (record { ret = nr_args; errno = noimpl; pud = after; out = out }))
  overrun_all :
      (after : Ctx) (out : List RegFd)
      → HeldTo before after fds out nr_args nr_args
      → update after.filetable ≡ false
      → RegisteredAll update before fds nr_args none

nobufs-past :
    (errno : ℕ) (pud : Ctx) (out : List RegFd) (i : ℕ)
    → length out ≤ i
    → i < max64
    → nobufs (i + 2) errno pud out i ≡ none
unfolding nobufs give_back
nobufs-past errno pud out i past small =
    let real = eq-false i max64 (λ e. omega (arith, e)) in
    subst (λ (rounds : ℕ). nobufs rounds errno pud out i ≡ none) {x = suc (i + 1)} {y = i + 2}
      (omega arith) (rw (real, get_elem?-past out i past) refl)

register-RegisteredAll :
    (update : List ℕ → Bool) (before : Ctx) (fds : List RegFd) (nr_args : ℕ) {r : Option Looped}
    → Slots before
    → nr_args ≤ bmsz before
    → LoopEnd before fds nr_args nr_args r
    → RegisteredAll update before fds nr_args (r >>= register update nr_args)
unfolding register
register-RegisteredAll update before fds nr_args slots words (no_slot after out less held) =
    absurd (omega arith)
register-RegisteredAll update before fds nr_args slots words (all_held after out e held) =
    elim (Bool-cases (update after.filetable)) [
      | inl accepts ↦ rw accepts (registered_all after out held accepts)
      | inr refuses ↦
          rw
            (
              refuses,
              nobufs-past noimpl after out nr_args (omega (arith, held.outs))
                  (omega (arith, slots.bounded, words)),
            )
            (overrun_all after out held refuses)
    ]

HeldTo-start :
    (pud : Ctx) (fds out : List RegFd) (nr_args : ℕ)
    → Slots pud
    → length out ≡ nr_args
    → HeldTo pud pud fds out nr_args 0
HeldTo-start pud fds out nr_args slots outs = record {
  held = λ j h. absurd (omega arith);
  ahead = λ k h. refl;
  kept = λ k h. (refl, refl);
  others = refl;
  words = slots.words;
  wide = slots.wide;
  entries = slots.entries;
  outs = outs;
}

-- The call is its loop and what follows.
regfiles-loop :
    (update : List ℕ → Bool) (pud : Ctx) (fds out : List RegFd) (nr_args : ℕ)
    → Slots pud
    → 0 < nr_args
    → regfiles update pud fds out nr_args
      ≡ (reg_loop (bmsz pud + 1) pud fds out nr_args 0 0 >>= register update nr_args)
unfolding regfiles
regfiles-loop update pud fds out nr_args slots some_args =
    rw
      (
        eq-false pud.filetable_len 0 (omega (arith, slots.nonempty)),
        eq-false nr_args 0 (λ e. omega (arith, e)),
      )
      refl

-- A call for `nr_args` descriptors where every one of the first `nr_args` words of the bitmap has a
-- free slot. Descriptor `j` gets a free slot of word `j`: the table holds the descriptor there, `out`
-- shows it, and the slot is no longer free; other slots and the rest of the context are as before. If the
-- kernel accepts the update the call returns `nr_args`; if not, it reads past the end of `out`.
pub regfiles-RegisteredAll :
    (update : List ℕ → Bool) (pud : Ctx) (fds out : List RegFd) (nr_args : ℕ)
    → Slots pud
    → 0 < nr_args
    → nr_args ≤ bmsz pud
    → length fds ≡ nr_args
    → length out ≡ nr_args
    → FreeTo pud nr_args
    → RegisteredAll update pud fds nr_args (regfiles update pud fds out nr_args)
regfiles-RegisteredAll update pud fds out nr_args slots some_args words args outs free =
    let start = HeldTo-start pud fds out nr_args slots outs in
    let stops = every_arg refl words in
    let looped =
      reg_loop-LoopEnd pud fds nr_args nr_args slots args stops free (bmsz pud + 1) 0 pud out start
        (omega arith) some_args (omega arith) in
    subst (RegisteredAll update pud fds nr_args)
      (sym (regfiles-loop update pud fds out nr_args slots some_args))
      (register-RegisteredAll update pud fds nr_args slots words looped)

-- What a call leaves that has found no slot for one of its descriptors.
pub record GivenBack (pud : Ctx) (fds : List RegFd) (nr_args m : ℕ) (r : Option Done) : Type 0 where
  pub after : Ctx
  pub out : List RegFd
  pub returns : r ≡ some (record { ret = 0; errno = enobufs; pud = after; out = out })
  pub restored : HeldTo pud after fds out nr_args 0
  pub invalid : (j : ℕ) → j < m → Invalid fds out j

register-GivenBack :
    (update : List ℕ → Bool) (before : Ctx) (fds : List RegFd) (nr_args m : ℕ) {r : Option Looped}
    → Slots before
    → Vacant before
    → m < nr_args
    → nr_args < max64
    → LoopEnd before fds nr_args m r
    → GivenBack before fds nr_args m (r >>= register update nr_args)
unfolding register nobufs
register-GivenBack update before fds nr_args m slots vacant less few (all_held after out e held) =
    absurd (omega arith)
register-GivenBack update before fds nr_args m slots vacant less few
      (no_slot after out fewer held) =
    let back =
      give_back-Restored before fds nr_args slots vacant few m (nr_args + 2) after out held
        (omega arith) (omega arith) in
    record {
      after = back.after;
      out = back.shown;
      returns = rw back.returns refl;
      restored = back.kept;
      invalid = back.invalid;
    }

-- A call for `nr_args` descriptors where the first `m` words of the bitmap, fewer than `nr_args` and not
-- all of its words, have a
-- free slot and the words from `m` on have none; the table holds -1 in every free slot. The call
-- returns 0 with IEL_ENOBUFS. The free slots, the table and the rest of the context are as
-- before, and the first `m` entries of `out` show the descriptors with no slot.
pub regfiles-GivenBack :
    (update : List ℕ → Bool) (pud : Ctx) (fds out : List RegFd) (nr_args m : ℕ)
    → Slots pud
    → Vacant pud
    → m < nr_args
    → nr_args < max64
    → m < bmsz pud
    → length fds ≡ nr_args
    → length out ≡ nr_args
    → FreeTo pud m
    → ((k : ℕ) → m ≤ k / 64 → free_at pud.filetable_bitmap k ≡ 0)
    → GivenBack pud fds nr_args m (regfiles update pud fds out nr_args)
regfiles-GivenBack update pud fds out nr_args m slots vacant less few words args outs free
      none_free =
    let start = HeldTo-start pud fds out nr_args slots outs in
    let stops = words_end less words none_free in
    let looped =
      reg_loop-LoopEnd pud fds nr_args m slots args stops free (bmsz pud + 1) 0 pud out start
        (omega arith) (omega arith) (omega arith) in
    subst (GivenBack pud fds nr_args m)
      (sym (regfiles-loop update pud fds out nr_args slots (omega arith)))
      (register-GivenBack update pud fds nr_args m slots vacant less few looped)
