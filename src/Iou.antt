-- ===== src/Iou.antt =====
-- The io_uring backend: src/backends/iou.c, include/iel/backends/iou.h and the flags of
-- include/iel/backends.h. The kernel's header and calls are parameters.
pub mod Submit
pub mod Setup
pub mod Turn
pub mod Vtable
pub mod Drain
pub mod Flow
mod Samples
pub mod Files
use iel.Base.{ℕ, ◌+◌, ◌*◌, ◌^◌, List}
use iel.Que.{Que}

-- The constants of <linux/io_uring.h> that the backend stores in an entry
pub record Uapi : Type 0 where
  pub op_read : ℕ
  pub op_readv : ℕ
  pub op_write : ℕ
  pub op_writev : ℕ
  pub op_accept : ℕ
  pub op_connect : ℕ
  pub op_timeout : ℕ
  pub fixed_file : ℕ
  pub io_link : ℕ
  pub cqe_skip_success : ℕ

-- `struct io_uring_sqe`, the fields that the backend fills in
pub record Sqe : Type 0 where
  pub opcode : ℕ
  pub flags : ℕ
  pub ioprio : ℕ
  pub fd : ℕ
  pub off : ℕ
  pub addr : ℕ
  pub len : ℕ
  pub rw_flags : ℕ
  pub user_data : ℕ
  pub buf_index : ℕ
  pub personality : ℕ
  pub file_index : ℕ
  pub optval : ℕ

-- An `int` result by its sign and magnitude: `error` is the negated number
pub data Res : Type 0 where
  value : ℕ → Res
  error : ℕ → Res

-- `struct io_uring_cqe`, the fields that the backend reads
pub record Cqe : Type 0 where
  pub user_data : ℕ
  pub res : Res

-- `struct ielb_iou_ctx_st`, the fields that the models read or write: the heads and tails
-- are the values last stored there, the arrays
-- are the shared mappings, and the file table and its bitmap are lists.
pub record Ctx : Type 0 where
  pub sring_head : ℕ
  pub sring_array : List ℕ
  pub sqes : List Sqe
  pub cring_tail : ℕ
  pub cqes : List Cqe
  pub lcl_stail : ℕ
  pub sring_mask : ℕ
  pub sring_tail : ℕ
  pub cring_head : ℕ
  pub lcl_chead : ℕ
  pub cring_mask : ℕ
  pub soonque : Que ℕ
  pub prepque : Que ℕ
  pub sqofq : Que Sqe
  pub filetable_len : ℕ
  pub filetable_bitmap : List ℕ
  pub filetable : List ℕ
  pub feat : ℕ

-- What a function that returns `void *` does: NULL with `iel_errno`, or the callback's pointer.
pub data Reply : Type 0 where
  null : ℕ → Ctx → Reply
  accepted : ℕ → Ctx → Reply

abbrev pub sqofq_chunk_sz_bit : ℕ
sqofq_chunk_sz_bit = 10

abbrev pub queue_depth : ℕ
queue_depth = 2 ^ 6

-- Errors of include/iel/errno.h
abbrev pub enomem : ℕ
enomem = 12

abbrev pub einval : ℕ
einval = 22

-- Flags and features of include/iel/backends.h
abbrev pub feat_avail : ℕ
feat_avail = 2 ^ 63

abbrev pub feat_etime_micros : ℕ
feat_etime_micros = 2 ^ 62

abbrev pub feat_reqlnk : ℕ
feat_reqlnk = 2 ^ 61

abbrev pub feat_noreg_handle : ℕ
feat_noreg_handle = 2 ^ 60

abbrev pub flag_etime_micros : ℕ
flag_etime_micros = 2 ^ 63

abbrev pub flag_esoon_next : ℕ
flag_esoon_next = 2 ^ 63

abbrev pub flag_reqlnk : ℕ
flag_reqlnk = 2 ^ 62

abbrev pub flag_noreg_handle : ℕ
flag_noreg_handle = 2 ^ 61

-- `IOU_FEATS`: the four features have no bit in common.
abbrev pub iou_feats : ℕ
iou_feats = feat_avail + feat_etime_micros + feat_reqlnk + feat_noreg_handle

-- The chunks of include/iel_priv/quep.h
abbrev pub quep_chunk_bit : ℕ
quep_chunk_bit = 7
