-- ===== src/Iou/Setup/Clean.antt =====
-- A call of lnew that fails gives everything back: the invariant of the list of resources along the
-- function.
use iel.Base.{ℕ, ◌^◌, ◌≡◌, Option, none, some, Bool, true, false, Bool-cases, List, [], ◌∷◌}
use iel.Base.{if◌then◌else◌, ◌==◌, ltb, not, inl, inr}
use iel.Iou.Setup.{
  Resource, ring_fd, map_sq, map_cq, map_sqes, soonque, prepque, sqofq, ring_slot, filetable,
  bitmap, files,
}
use iel.Iou.Setup.{
  Answers, MaxFiles, unlimited, invalid, at_most, Made, failed, made, release, fail,
}
use iel.Iou.Setup.{
  fail_closefd, fail_unmapsq, fail_unmapcq, fail_unmapsqes, fail_delsoonque, fail_delprepque,
  fail_delxsq, fail_unregring, fail_freeft, fail_freeftbm,
}
use iel.Iou.Setup.{
  prealloc_files, limit_files, register_ring, init_queues, map_entries, map_rings, with_ring,
  lnew_base, lnew, lnew_us,
}

-- The ring's mappings and descriptor, as they stand on the list
abbrev pub mapped : Answers → List Resource
mapped env = if env.single_mmap then map_sq ∷ ring_fd ∷ [] else map_cq ∷ map_sq ∷ ring_fd ∷ []

-- What a context without a file table holds
abbrev pub base : List Resource → List Resource
base maps = ring_slot ∷ sqofq ∷ prepque ∷ soonque ∷ map_sqes ∷ maps

-- A call fails and holds nothing, or succeeds and holds what a context has.
pub data Clean (maps : List Resource) : Option Made → Type 0 where
  nothing : Clean maps (some (failed []))
  with_files : (len : ℕ) → Clean maps (some (made len (files ∷ bitmap ∷ filetable ∷ base maps)))
  without_files : Clean maps (some (made 0 (base maps)))

-- Both ways on of a test, the failure first
either :
    {maps : List Resource} (b : Bool) {x y : Option Made}
    → Clean maps x
    → Clean maps y
    → Clean maps (if not b then x else y)
either true c d = d
either false c d = c

module _ (env : Answers) (maps : List Resource)
    (undo : fail_unmapcq env maps ≡ some (failed [])) where
  undone : {o : Option Made} → o ≡ some (failed []) → Clean maps o
  undone e = rw e nothing

  undo_slot : fail_unregring env (base maps) ≡ some (failed [])
  unfolding fail_unregring fail_delxsq fail_delprepque fail_delsoonque fail_unmapsqes release
  undo_slot = undo

  prealloc_files-Clean : (len : ℕ) → Clean maps (prealloc_files env len (base maps))
  unfolding prealloc_files fail_freeftbm fail_freeft release
  prealloc_files-Clean len = either env.malloc_table (undone undo_slot) (
      either env.malloc_bitmap (undone undo_slot)
        (either env.reg_files (undone undo_slot) (with_files len)))

  limit_files-Clean : (max_files : MaxFiles) → Clean maps (limit_files env max_files (base maps))
  unfolding limit_files
  limit_files-Clean max_files =
      elim env.nofile
        as (λ nofile. Clean maps (elim nofile [
          | none ↦ fail_unregring env (base maps)
          | some rlim_cur ↦
              let max_allowed = if ltb rlim_cur (2 ^ 20) then rlim_cur else 2 ^ 20 in
              elim max_files [
                | unlimited ↦ prealloc_files env max_allowed (base maps)
                | invalid ↦ fail_unregring env (base maps)
                | at_most n ↦
                    let len = if ltb max_allowed n then max_allowed else n in
                    if n == 0 then some (made 0 (base maps)) else prealloc_files env len (base maps)
              ]
        ])) [
          | none ↦ undone undo_slot
          | some rlim_cur ↦ chosen max_files (if ltb rlim_cur (2 ^ 20) then rlim_cur else 2 ^ 20)
        ]
    where
      at_most-Clean :
          (b : Bool) (len : ℕ)
          → Clean maps (if b then some (made 0 (base maps)) else prealloc_files env len (base maps))
      at_most-Clean true len = without_files
      at_most-Clean false len = prealloc_files-Clean len

      chosen :
          (max_files : MaxFiles) (max_allowed : ℕ)
          → Clean maps (elim max_files [
            | unlimited ↦ prealloc_files env max_allowed (base maps)
            | invalid ↦ fail_unregring env (base maps)
            | at_most n ↦
                let len = if ltb max_allowed n then max_allowed else n in
                if n == 0 then some (made 0 (base maps)) else prealloc_files env len (base maps)
          ])
      chosen unlimited max_allowed = prealloc_files-Clean max_allowed
      chosen invalid max_allowed = undone undo_slot
      chosen (at_most n) max_allowed =
          at_most-Clean (n == 0) (if ltb max_allowed n then max_allowed else n)

  init_queues-Clean :
      (max_files : MaxFiles) → Clean maps (init_queues env max_files (map_sqes ∷ maps))
  unfolding init_queues register_ring fail_delxsq fail_delprepque fail_delsoonque fail_unmapsqes
      release
  init_queues-Clean max_files = either env.soon_init (undone undo) (
      either env.prep_init (undone undo) (
        either env.xsq_init (undone undo) (
          either env.reg_ring (undone undo)
            (either env.slot_changed (undone undo) (limit_files-Clean max_files)))))

  map_entries-Clean : (max_files : MaxFiles) → Clean maps (map_entries env max_files maps)
  unfolding map_entries
  map_entries-Clean max_files = either env.mmap_sqes (undone undo) (init_queues-Clean max_files)

undo_mapped : (env : Answers) → fail_unmapcq env (mapped env) ≡ some (failed [])
unfolding fail_unmapcq fail_unmapsq fail_closefd fail release
undo_mapped env = elim (Bool-cases env.single_mmap) [ inl s ↦ rw s | inr s ↦ rw s ]

map_rings-Clean :
    (env : Answers) (max_files : MaxFiles)
    → Clean (mapped env) (map_rings env max_files (ring_fd ∷ []))
unfolding map_rings fail_unmapsq fail_closefd fail release
map_rings-Clean env max_files = either env.mmap_sq nothing (by_kernel env.single_mmap entries)
  where
    entries : Clean (mapped env) (map_entries env max_files (mapped env))
    entries = map_entries-Clean env (mapped env) (undo_mapped env) max_files

    by_kernel :
        (single : Bool)
        → Clean (mapped env) (
            map_entries env max_files
              (if single then map_sq ∷ ring_fd ∷ [] else map_cq ∷ map_sq ∷ ring_fd ∷ []))
        → Clean (mapped env) (
            if single
            then map_entries env max_files (map_sq ∷ ring_fd ∷ [])
            else if not env.mmap_cq
            then some (failed [])
            else map_entries env max_files (map_cq ∷ map_sq ∷ ring_fd ∷ []))
    by_kernel true c = c
    by_kernel false c = either env.mmap_cq nothing c

with_ring-Clean :
    (env : Answers) (max_files : MaxFiles) → Clean (mapped env) (with_ring env max_files)
unfolding with_ring fail_closefd fail release
with_ring-Clean env max_files =
    either env.setup nothing (either env.features nothing (map_rings-Clean env max_files))

-- A call of lnew_us returns, whatever the kernel and the allocator answer. If it fails, it holds nothing;
-- if it succeeds, it holds the descriptor, the mappings, the queues and the ring's slot, and
-- with a file table also the table, its bitmap and their registration. It gives nothing back twice.
pub lnew_us-Clean :
    (env : Answers) (max_files : MaxFiles) (flags : ℕ)
    → Clean (mapped env) (lnew_us env max_files flags)
unfolding lnew_us lnew_base fail
lnew_us-Clean env max_files flags = either (flags == 0) nothing (with_ring-Clean env max_files)

-- A call of lnew, whose setup thread is joined and restores the signal's action, returns. If it
-- fails, it holds nothing; if it succeeds, it holds what lnew_us holds, and it gives nothing
-- back twice.
lnew-Clean :
    (env : Answers) (max_files : MaxFiles) (flags : ℕ)
    → env.thread.joined ≡ true
    → env.thread.restored ≡ true
    → Clean (mapped env) (lnew env max_files flags)
unfolding lnew lnew_base fail
lnew-Clean env max_files flags joined restored = either (flags == 0) nothing (
    either env.thread.created nothing (
      either env.thread.sigset nothing (
        tested env.thread.joined _ joined
          (tested env.thread.restored _ restored (with_ring-Clean env max_files)))))
  where
    tested :
        (b : Bool) (x : Option Made) {y : Option Made}
        → b ≡ true
        → Clean (mapped env) y
        → Clean (mapped env) (if not b then x else y)
    tested true x e c = c
    tested false x e c = absurd cc
