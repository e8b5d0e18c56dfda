-- ===== src/Iou/Setup/Tests.antt =====
-- The theorems on construction and deletion at kernels that grant everything.
use iel.Base.{◌≡◌, refl, some, true, false, List, [], ◌∷◌, arith}
use iel.Iou.Setup.{
  Resource, unlimited, lnew_base, lnew_us, ldel, with_ring, map_rings, map_entries, init_queues,
  register_ring, limit_files, prealloc_files,
}
use iel.Base.{◌+◌, ◌*◌, ◌≤◌}
use iel.Iou.Setup.Mapping.{Params, maplens, maplens-hold}
use iel.Iou.Setup.Clean.{Clean, mapped, base, lnew_us-Clean}
use iel.Iou.Setup.Released.{willing, ldel-releases}

lnew_us-Clean_example :
    Clean (mapped (willing false 1024)) (lnew_us (willing false 1024) unlimited 0)
lnew_us-Clean_example = lnew_us-Clean (willing false 1024) unlimited 0

abbrev with_table : List Resource
with_table =
    Resource.files ∷ Resource.bitmap ∷ Resource.filetable ∷ base (mapped (willing true 1024))

ldel-releases_example : ldel false 1024 with_table ≡ some []
unfolding lnew_us lnew_base with_ring map_rings map_entries init_queues register_ring limit_files
    prealloc_files
ldel-releases_example =
    ldel-releases (willing true 1024) unlimited 0 1024 with_table (omega arith) refl

-- A ring of 64 entries, with both rings in one mapping
abbrev one_mapping : Params
one_mapping = record {
  sq_entries = 64;
  cq_entries = 128;
  sq_array = 2112;
  cq_cqes = 64;
  single_mmap = true;
  sqe_size = 64;
  cqe_size = 16;
}

maplens-hold_example :
    (63 * 64 + 64 ≤ (maplens one_mapping).maplen_sqes)
    × (2112 + (63 * 4 + 4) ≤ (maplens one_mapping).maplen_sq)
    × (64 + (127 * 16 + 16) ≤ (maplens one_mapping).maplen_cq)
maplens-hold_example =
    maplens-hold one_mapping 63 127
      (record { sqes = omega arith; sring = omega arith; cring = omega arith }) (omega arith)
      (omega arith)
