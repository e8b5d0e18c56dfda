-- ===== src/Iou/Setup/Released.antt =====
-- What ldel makes of the resources that lnew leaves.
use iel.Base.{ℕ, ◌<◌, ◌≡◌, ap, sym, Option, none, some, Bool, true, false, List, [], ◌∷◌}
use iel.Base.{if◌then◌else◌, not, arith, eq-false}
use iel.Iou.Setup.{Resource, ring_fd, map_sq, map_cq}
use iel.Iou.Setup.{Answers, MaxFiles, Made, failed, made, release}
use iel.Iou.Setup.{lnew_us, ldel}
use iel.Iou.Setup.Clean.{Clean, nothing, with_files, without_files, lnew_us-Clean}

len_of : Option Made → ℕ
len_of none = 0
len_of (some (failed held)) = 0
len_of (some (made len held)) = len

held_of : Option Made → List Resource
held_of none = []
held_of (some (failed held)) = held
held_of (some (made len held)) = held

-- The contexts that ldel gives back
after_ldel :
    (single : Bool) (len : ℕ) {o : Option Made} (held : List Resource)
    → Clean (if single then map_sq ∷ ring_fd ∷ [] else map_cq ∷ map_sq ∷ ring_fd ∷ []) o
    → 0 < len
    → o ≡ some (made len held)
    → ldel (not single) len held ≡ some []
unfolding ldel release len_of held_of
after_ldel single len held nothing pos e = absurd cc
after_ldel single len held without_files pos e = absurd (omega (arith, ap len_of e))
after_ldel true len held (with_files n) pos e =
    rw (sym (ap held_of e), eq-false len 0 (omega arith))
after_ldel false len held (with_files n) pos e =
    rw (sym (ap held_of e), eq-false len 0 (omega arith))

-- After a call of lnew_us that makes a file table of a positive length, ldel gives everything back,
-- each resource once.
pub ldel-releases :
    (env : Answers) (max_files : MaxFiles) (flags len : ℕ) (held : List Resource)
    → 0 < len
    → lnew_us env max_files flags ≡ some (made len held)
    → ldel (not env.single_mmap) len held ≡ some []
ldel-releases env max_files flags len held pos e =
    after_ldel env.single_mmap len held (lnew_us-Clean env max_files flags) pos e

-- A kernel and an allocator that grant everything
abbrev pub willing : Bool → ℕ → Answers
willing single nofile = record {
  thread = record { created = true; joined = true; sigset = true; restored = true };
  setup = true;
  features = true;
  single_mmap = single;
  mmap_sq = true;
  mmap_cq = true;
  mmap_sqes = true;
  soon_init = true;
  prep_init = true;
  xsq_init = true;
  reg_ring = true;
  slot_changed = true;
  nofile = some nofile;
  malloc_table = true;
  malloc_bitmap = true;
  reg_files = true;
}
