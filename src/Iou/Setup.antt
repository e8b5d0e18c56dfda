-- ===== src/Iou/Setup.antt =====
-- A context from its construction to its end: ielb_ioux_lnew_base, ielb_iou_ldel and the functions
-- that call them. What the kernel and the allocator answer is a parameter, and the state is the
-- list of resources that the context holds; giving back one that is not held is a fault.
pub mod Clean
pub mod Released
pub mod Mapping
mod Tests
use iel.Base.{
  ℕ, zero, suc, ◌+◌, ◌-◌, ◌*◌, ◌/◌, ◌^◌, Option, none, some, Bool, true, false, ◌>>=◌, List, [],
  ◌∷◌,
}
use iel.Base.{if◌then◌else◌, ◌==◌, ltb, not, max64, is_some}

pub data Resource : Type 0 where
  ring_fd map_sq map_cq map_sqes soonque prepque sqofq ring_slot filetable bitmap files : Resource

-- A number for each
abbrev index : Resource → ℕ
index ring_fd = 0
index map_sq = 1
index map_cq = 2
index map_sqes = 3
index soonque = 4
index prepque = 5
index sqofq = 6
index ring_slot = 7
index filetable = 8
index bitmap = 9
index files = 10

-- What the setup thread of `ielb_ioux_thsetup_cb` comes to: `sigset` if the first `sigaction` (and
-- `sigemptyset`) succeed, `restored` if the last does.
pub record Thread : Type 0 where
  pub created : Bool
  pub joined : Bool
  pub sigset : Bool
  pub restored : Bool

-- The answers that a call of lnew gets. `nofile` is the limit that getrlimit reports.
pub record Answers : Type 0 where
  pub thread : Thread
  pub setup : Bool
  pub features : Bool
  pub single_mmap : Bool
  pub mmap_sq : Bool
  pub mmap_cq : Bool
  pub mmap_sqes : Bool
  pub soon_init : Bool
  pub prep_init : Bool
  pub xsq_init : Bool
  pub reg_ring : Bool
  pub slot_changed : Bool
  pub nofile : Option ℕ
  pub malloc_table : Bool
  pub malloc_bitmap : Bool
  pub reg_files : Bool

-- `max_files`, a `long`: -1, another negative number, or not negative
pub data MaxFiles : Type 0 where
  unlimited invalid : MaxFiles
  at_most : ℕ → MaxFiles

-- What a call leaves: -1, or 0 with the length of the file table.
pub data Made : Type 0 where
  failed : List Resource → Made
  made : ℕ → List Resource → Made

-- Giving a resource back
release : Resource → List Resource → Option (List Resource)
release r [] = none
release r (x ∷ held) =
    let rest = release r held in
    if index r == index x then some held else (rest >>= λ left. some (x ∷ left))

-- The labels at the end of `ielb_ioux_lnew_base`, each falling through to the next
fail : List Resource → Option Made
fail held = some (failed held)

fail_closefd : List Resource → Option Made
fail_closefd held = release ring_fd held >>= fail

fail_unmapsq : List Resource → Option Made
fail_unmapsq held = release map_sq held >>= fail_closefd

module _ (env : Answers) where
  fail_unmapcq : List Resource → Option Made
  fail_unmapcq held =
      if env.single_mmap then fail_unmapsq held else (release map_cq held >>= fail_unmapsq)

  fail_unmapsqes : List Resource → Option Made
  fail_unmapsqes held = release map_sqes held >>= fail_unmapcq

  fail_delsoonque : List Resource → Option Made
  fail_delsoonque held = release soonque held >>= fail_unmapsqes

  fail_delprepque : List Resource → Option Made
  fail_delprepque held = release prepque held >>= fail_delsoonque

  fail_delxsq : List Resource → Option Made
  fail_delxsq held = release sqofq held >>= fail_delprepque

  fail_unregring : List Resource → Option Made
  fail_unregring held = release ring_slot held >>= fail_delxsq

  fail_freeft : List Resource → Option Made
  fail_freeft held = release filetable held >>= fail_unregring

  fail_freeftbm : List Resource → Option Made
  fail_freeftbm held = release bitmap held >>= fail_freeft

  -- The file table of `len` entries and its bitmap
  prealloc_files : ℕ → List Resource → Option Made
  prealloc_files len held =
      if not env.malloc_table
      then fail_unregring held
      else if not env.malloc_bitmap
      then fail_freeft (filetable ∷ held)
      else if not env.reg_files
      then fail_freeftbm (bitmap ∷ filetable ∷ held)
      else some (made len (files ∷ bitmap ∷ filetable ∷ held))

  -- The limit on the number of files, and the branches on `max_files`
  limit_files : MaxFiles → List Resource → Option Made
  limit_files max_files held = elim env.nofile [
    | none ↦ fail_unregring held
    | some rlim_cur ↦
        let max_allowed = if ltb rlim_cur (2 ^ 20) then rlim_cur else 2 ^ 20 in
        elim max_files [
          | unlimited ↦ prealloc_files max_allowed held
          | invalid ↦ fail_unregring held
          | at_most n ↦
              let len = if ltb max_allowed n then max_allowed else n in
              if n == 0 then some (made 0 held) else prealloc_files len held
        ]
  ]

  -- IORING_REGISTER_RING_FDS
  register_ring : MaxFiles → List Resource → Option Made
  register_ring max_files held =
      if not env.reg_ring
      then fail_delxsq held
      else if not env.slot_changed
      then fail_delxsq held
      else limit_files max_files (ring_slot ∷ held)

  init_queues : MaxFiles → List Resource → Option Made
  init_queues max_files held =
      if not env.soon_init
      then fail_unmapsqes held
      else if not env.prep_init
      then fail_delsoonque (soonque ∷ held)
      else if not env.xsq_init
      then fail_delprepque (prepque ∷ soonque ∷ held)
      else register_ring max_files (sqofq ∷ prepque ∷ soonque ∷ held)

  map_entries : MaxFiles → List Resource → Option Made
  map_entries max_files held =
      if not env.mmap_sqes then fail_unmapcq held else init_queues max_files (map_sqes ∷ held)

  map_rings : MaxFiles → List Resource → Option Made
  map_rings max_files held =
      if not env.mmap_sq
      then fail_closefd held
      else if env.single_mmap
      then map_entries max_files (map_sq ∷ held)
      else if not env.mmap_cq
      then fail_unmapsq (map_sq ∷ held)
      else map_entries max_files (map_cq ∷ map_sq ∷ held)

  -- From the result of `io_uring_setup` on
  with_ring : MaxFiles → Option Made
  with_ring max_files =
      if not env.setup
      then fail []
      else if not env.features
      then fail_closefd (ring_fd ∷ [])
      else map_rings max_files (ring_fd ∷ [])

  -- The descriptor that a setup thread has opened
  opened : List Resource
  opened = if env.setup then ring_fd ∷ [] else []

  -- `ielb_ioux_lnew_base`; the flags are the word `flags`.
  pub lnew_base : MaxFiles → ℕ → Bool → Option Made
  lnew_base max_files flags do_thread =
      let t = env.thread in
      if not (flags == 0)
      then fail []
      else if not do_thread
      then with_ring max_files
      else if not t.created
      then fail []
      else if not t.sigset
      then fail []
      else if not t.joined
      then fail opened
      else if not t.restored
      then fail opened
      else with_ring max_files

  pub lnew : MaxFiles → ℕ → Option Made
  lnew max_files flags = lnew_base max_files flags true

  pub lnew_us : MaxFiles → ℕ → Option Made
  lnew_us max_files flags = lnew_base max_files flags false

-- `ielb_iou_ldel`: the registered files go with the ring. `separate` says that the completion ring
-- has a mapping of its own.
pub ldel : Bool → ℕ → List Resource → Option (List Resource)
ldel separate filetable_len held =
    (if filetable_len == 0 then some held else release files held)
    >>= release bitmap
    >>= release filetable
    >>= release ring_slot
    >>= release sqofq
    >>= release prepque
    >>= release soonque
    >>= release map_sqes
    >>= release map_sq
    >>= (λ held. if separate then release map_cq held else some held)
    >>= release ring_fd
