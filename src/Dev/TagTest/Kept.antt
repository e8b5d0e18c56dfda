-- ===== src/Dev/TagTest/Kept.antt =====
-- The run of dev/tagptr.c.
use iel.Base.{
  ℕ, zero, suc, ◌+◌, ◌%◌, ◌^◌, ◌≤◌, ◌<◌, ◌≡◌, ◌≢◌, refl, ap, ◌∙◌, ◌&&◌, some, true, ◌==◌, add64,
  arith, eq-true, eq-false,
}
use iel.TagPtr.{Globals, tp_init, tp_tag, tp_untag, tp_max}
use iel.TagPtr.Init.{tp_untag_wider-tp_tag, tp_max-small}
use iel.Dev.TagTest.{all_kept, tag_loop, tag_main}

-- A round whose tag comes back
tag_loop-next :
    (g : Globals) (p al untag_al maxtag rounds tag : ℕ)
    → tag ≢ maxtag
    → tp_untag g (tp_tag g p al tag) untag_al ≡ record { ptr = p; tag = tag }
    → tag_loop g p al untag_al maxtag (suc rounds) tag
      ≡ tag_loop g p al untag_al maxtag rounds (add64 tag 1)
unfolding tag_loop
tag_loop-next g p al untag_al maxtag rounds tag more back =
    let same : (p == p && tag == tag) ≡ true = ground arith in
    rw (tag_loop, eq-false tag maxtag more, back, same) refl

tag_loop-end :
    (g : Globals) (p al untag_al maxtag rounds : ℕ)
    → tag_loop g p al untag_al maxtag (suc rounds) maxtag ≡ some (all_kept maxtag)
unfolding tag_loop
tag_loop-end g p al untag_al maxtag rounds = rw (tag_loop, eq-true maxtag maxtag refl) refl

tag_loop-Kept :
    (g : Globals) (p al untag_al maxtag rounds tag : ℕ)
    → maxtag < 2 ^ 64
    → tag + rounds ≡ maxtag
    → ((i : ℕ) → i < maxtag → tp_untag g (tp_tag g p al i) untag_al ≡ record { ptr = p; tag = i })
    → tag_loop g p al untag_al maxtag (suc rounds) tag ≡ some (all_kept maxtag)
tag_loop-Kept g p al untag_al maxtag zero tag small sum back =
    ap (tag_loop g p al untag_al maxtag 1) {x = tag} {y = maxtag} (omega (arith, sum))
    ∙ tag_loop-end g p al untag_al maxtag 0
tag_loop-Kept g p al untag_al maxtag (suc rounds) tag small sum back =
    tag_loop-next g p al untag_al maxtag (suc rounds) tag (λ e. omega (arith, sum, e))
      (back tag (omega (arith, sum)))
    ∙ ap (tag_loop g p al untag_al maxtag (suc rounds)) {x = add64 tag 1} {y = suc tag}
        (omega (arith, sum, small))
    ∙ tag_loop-Kept g p al untag_al maxtag rounds (suc tag) small (omega (arith, sum)) back

-- On any processor the program ends, and does not abort: each tag below `iel_tp_max` of the alignment
-- `2 ^ a` comes back with the pointer, though the program untags with the alignment `2 ^ b`. This is
-- for a block in user space (below 2 ^ 47) that `malloc` has aligned to `2 ^ b`, with a at most b and b
-- below 47.
pub tag_main-Kept :
    (cpuid : ℕ → ℕ) (statics : Globals) (a b p : ℕ)
    → statics.maxtag_shl ≡ 0
    → a ≤ b
    → b < 47
    → p < 2 ^ 47
    → p % 2 ^ b ≡ 0
    → tag_main cpuid statics (some p) (2 ^ a) (2 ^ b)
      ≡ some (all_kept (tp_max (tp_init cpuid statics) (2 ^ a)))
unfolding tag_main
tag_main-Kept cpuid statics a b p z le hb hp al =
    let g = tp_init cpuid statics in
    tag_loop-Kept g p (2 ^ a) (2 ^ b) (tp_max g (2 ^ a)) (tp_max g (2 ^ a)) 0
      (tp_max-small g (2 ^ a)) (omega arith)
      λ i lt. tp_untag_wider-tp_tag cpuid statics a b p i z le hb hp al lt
