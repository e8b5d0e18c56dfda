-- ===== src/Dev/TagTest.antt =====
-- The program of dev/tagptr.c, which tests src/tagptr.c. The processor's CPUID and what `malloc` returns
-- are parameters, and so are the two alignments, IEL_CB_ALIGN and that of `max_align_t`.
pub mod Kept
mod Tests
use iel.Base.{ℕ, zero, suc, ◌+◌, ◌&&◌, Option, none, some, true, false, ◌==◌, add64}
use iel.TagPtr.{Untagged, Globals, tp_init, tp_tag, tp_untag, tp_max}

-- What a run ends in: the return of 1, `abort` with what was expected and what came back, or the end
-- with the tag at which the loop stopped.
pub data TagRun : Type 0 where
  no_block : TagRun
  differs : ℕ → Untagged → TagRun
  all_kept : ℕ → TagRun

-- The loop from a tag on. To run out of rounds is `none`.
pub tag_loop : Globals → ℕ → ℕ → ℕ → ℕ → ℕ → ℕ → Option TagRun
tag_loop g p al untag_al maxtag zero tag = none
tag_loop g p al untag_al maxtag (suc rounds) tag =
    let ut = tp_untag g (tp_tag g p al tag) untag_al in
    elim (tag == maxtag) [
      | true ↦ some (all_kept tag)
      | false ↦ elim (ut.ptr == p && ut.tag == tag) [
        | false ↦ some (differs tag ut)
        | true ↦ tag_loop g p al untag_al maxtag rounds (add64 tag 1)
      ]
    ]

-- `main`
pub tag_main : (ℕ → ℕ) → Globals → Option ℕ → ℕ → ℕ → Option TagRun
tag_main cpuid statics malloc al untag_al =
    let g = tp_init cpuid statics in
    let maxtag = tp_max g al in
    elim malloc [ none ↦ some no_block | some p ↦ tag_loop g p al untag_al maxtag (suc maxtag) 0 ]
