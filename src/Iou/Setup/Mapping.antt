-- ===== src/Iou/Setup/Mapping.antt =====
-- The lengths of the shared mappings, as ielb_ioux_lnew_base works them out from what io_uring_setup
-- reports. `sring_sz` and `cring_sz` are `int`s, kept as 32-bit words.
use iel.Base.{
  ℕ, ◌+◌, ◌*◌, ◌^◌, ◌≤◌, ◌<◌, ◌≡◌, Bool, Bool-cases, inl, inr, if◌then◌else◌, ltb, u32, u64, add32,
  arith,
}
use native.Mathlib.Nat.{mul-le-mul_right}

-- The fields of `struct io_uring_params` that matter here, and the sizes of the kernel's structures
pub record Params : Type 0 where
  pub sq_entries : ℕ
  pub cq_entries : ℕ
  pub sq_array : ℕ
  pub cq_cqes : ℕ
  pub single_mmap : Bool
  pub sqe_size : ℕ
  pub cqe_size : ℕ

pub record Maplens : Type 0 where
  pub maplen_sqes : ℕ
  pub maplen_sq : ℕ
  pub maplen_cq : ℕ

-- The `int` comparison `a > b`
int_gt : ℕ → ℕ → Bool
int_gt a b = ltb (add32 b (2 ^ 31)) (add32 a (2 ^ 31))

-- `sring_sz` and `cring_sz` before the choice of one mapping
sring_len : Params → ℕ
sring_len p = u32 (u64 (p.sq_array + p.sq_entries * 4))

cring_len : Params → ℕ
cring_len p = u32 (u64 (p.cq_cqes + p.cq_entries * p.cqe_size))

pub maplens : Params → Maplens
maplens p =
    let sring_sz = sring_len p in
    let cring_sz = cring_len p in
    let both = if int_gt cring_sz sring_sz then cring_sz else sring_sz in
    record {
      maplen_sqes = u32 (u64 (p.sq_entries * p.sqe_size));
      maplen_sq = if p.single_mmap then both else sring_sz;
      maplen_cq = if p.single_mmap then both else cring_sz;
    }

-- Sizes that an `int` holds
pub record Fits (p : Params) : Type 0 where
  pub sqes : p.sq_entries * p.sqe_size < 2 ^ 32
  pub sring : p.sq_array + p.sq_entries * 4 < 2 ^ 31
  pub cring : p.cq_cqes + p.cq_entries * p.cqe_size < 2 ^ 31

maplens-cover :
    (p : Params)
    → Fits p
    → (p.sq_entries * p.sqe_size ≤ (maplens p).maplen_sqes)
      × (p.sq_array + p.sq_entries * 4 ≤ (maplens p).maplen_sq)
      × (p.cq_cqes + p.cq_entries * p.cqe_size ≤ (maplens p).maplen_cq)
unfolding maplens sring_len cring_len int_gt
maplens-cover p fits =
    let sqes : p.sq_entries * p.sqe_size ≤ u32 (u64 (p.sq_entries * p.sqe_size)) =
      omega (arith, fits.sqes) in
    let sring : sring_len p ≡ p.sq_array + p.sq_entries * 4 = omega (arith, fits.sring) in
    let cring : cring_len p ≡ p.cq_cqes + p.cq_entries * p.cqe_size = omega (arith, fits.cring) in
    elim (Bool-cases p.single_mmap) [
      | inl one ↦ elim (Bool-cases (int_gt (cring_len p) (sring_len p))) [
        | inl greater ↦
            rw (one, greater)
              (
                sqes,
                ground (arith, sring, cring, greater, fits.sring, fits.cring),
                omega (arith, cring),
              )
        | inr less ↦
            rw (one, less)
              (
                sqes,
                omega (arith, sring),
                ground (arith, sring, cring, less, fits.sring, fits.cring),
              )
      ]
      | inr two ↦ rw two (sqes, omega (arith, sring), omega (arith, cring))
    ]

slot_inside : (i n size : ℕ) → i < n → i * size + size ≤ n * size
slot_inside i n size h = omega (arith, mul-le-mul_right {m = i + 1} {n = n} size (omega arith))

-- Where the sizes fit in an `int`, the lengths of the mappings, one for the two rings or two, are enough:
-- every entry of the submission ring, every slot of its array and every entry of the completion ring
-- lies in its mapping.
pub maplens-hold :
    (p : Params) (i j : ℕ)
    → Fits p
    → i < p.sq_entries
    → j < p.cq_entries
    → (i * p.sqe_size + p.sqe_size ≤ (maplens p).maplen_sqes)
      × (p.sq_array + (i * 4 + 4) ≤ (maplens p).maplen_sq)
      × (p.cq_cqes + (j * p.cqe_size + p.cqe_size) ≤ (maplens p).maplen_cq)
maplens-hold p i j fits h h' =
    let (sqes, sring, cring) = maplens-cover p fits in
    (
      omega (arith, sqes, slot_inside i p.sq_entries p.sqe_size h),
      omega (arith, sring, h),
      omega (arith, cring, slot_inside j p.cq_entries p.cqe_size h'),
    )
