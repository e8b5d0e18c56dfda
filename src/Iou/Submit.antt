-- ===== src/Iou/Submit.antt =====
-- Submission: submit_to_sq and the functions that call it, timers, the callback queues and the
-- queries of include/iel/backends.h.
pub mod Ring
pub mod Tasks
mod Tests
use iel.Base.{
  ℕ, ◌+◌, ◌-◌, ◌*◌, ◌/◌, ◌%◌, ◌^◌, Option, none, some, Bool, true, false, ◌>>=◌, bit_and, bit_or,
}
use iel.Base.{if◌then◌else◌, ◌==◌, not, ◌||◌, sub32, add32, not64, max64, put_elem?, u32}
use iel.Que.{Que, Alloc, push}
use iel.Iou.{
  Ctx, Sqe, Uapi, Res, value, error, Reply, null, accepted, sqofq_chunk_sz_bit, enomem, einval,
  iou_feats,
}
use iel.Iou.{flag_reqlnk, flag_noreg_handle, flag_etime_micros, flag_esoon_next, quep_chunk_bit}

-- A flag's bit in a word
abbrev pub has : ℕ → ℕ → Bool
has flags flag = not (bit_and flags flag == 0)

-- `flags & ~allowed`
abbrev pub others : ℕ → ℕ → Bool
others flags allowed = not (bit_and flags (not64 allowed) == 0)

-- The entry goes to the ring, or to the overflow queue when the ring is full.
enqueue : Alloc Sqe → Ctx → Sqe → Option Reply
enqueue mem pud sqe =
    let tail = pud.lcl_stail in
    let sq_ents = sub32 tail pud.sring_head in
    let index = bit_and tail pud.sring_mask in
    let spilled = push sqofq_chunk_sz_bit mem pud.sqofq sqe >>= λ (room, q). some (
      if room
      then accepted sqe.user_data (record pud { sqofq = q })
      else null enomem (record pud { sqofq = q })) in
    if sq_ents == add32 pud.sring_mask 1
    then spilled
    else (put_elem? pud.sqes index sqe >>= λ sqes.
        put_elem? pud.sring_array index index >>= λ sring_array. some (
          accepted sqe.user_data
            (record pud { sqes = sqes; sring_array = sring_array; lcl_stail = add32 tail 1 })))

module _ (uapi : Uapi) where
  -- The entry that `submit_to_sq` fills in, on 8 bits of flags
  pub sqe_of : ℕ → ℕ → ℕ → ℕ → ℕ → ℕ → ℕ → Sqe
  sqe_of op fd off addr len user_data flags =
      let linked =
        if has flags flag_reqlnk
        then bit_or uapi.fixed_file (bit_or uapi.io_link uapi.cqe_skip_success)
        else uapi.fixed_file in
      record {
        opcode = op;
        flags =
            if has flags flag_noreg_handle then bit_and linked (255 - uapi.fixed_file) else linked;
        ioprio = 0;
        fd = fd;
        off = off;
        addr = addr;
        len = len;
        rw_flags = 0;
        user_data = user_data;
        buf_index = 0;
        personality = 0;
        file_index = 0;
        optval = 0;
      }

  -- `submit_to_sq`: `none` is a fault: of the overflow queue, or a write past a mapping.
  pub submit_to_sq : Alloc Sqe → Ctx → ℕ → ℕ → ℕ → ℕ → ℕ → ℕ → ℕ → Option Reply
  submit_to_sq mem pud op fd off addr len user_data flags =
      if others flags (flag_noreg_handle + flag_reqlnk)
      then some (null einval pud)
      else enqueue mem pud (sqe_of op fd off addr len user_data flags)

  module _ (mem : Alloc Sqe) (pud : Ctx) where
    -- The `fp` series: `count` becomes an `unsigned`.
    pub fpr : ℕ → ℕ → ℕ → ℕ → ℕ → ℕ → Option Reply
    fpr fd buf count offset flags cbp =
        submit_to_sq mem pud uapi.op_read fd offset buf (u32 count) cbp flags

    pub fprv : ℕ → ℕ → ℕ → ℕ → ℕ → ℕ → Option Reply
    fprv fd iovecs iovcnt offset flags cbp =
        submit_to_sq mem pud uapi.op_readv fd offset iovecs (u32 iovcnt) cbp flags

    pub fpw : ℕ → ℕ → ℕ → ℕ → ℕ → ℕ → Option Reply
    fpw fd buf count offset flags cbp =
        submit_to_sq mem pud uapi.op_write fd offset buf (u32 count) cbp flags

    pub fpwv : ℕ → ℕ → ℕ → ℕ → ℕ → ℕ → Option Reply
    fpwv fd iovecs iovcnt offset flags cbp =
        submit_to_sq mem pud uapi.op_writev fd offset iovecs (u32 iovcnt) cbp flags

    -- The `f` and `s` series, at the file's position: offset -1
    pub read : ℕ → ℕ → ℕ → ℕ → ℕ → Option Reply
    read fd buf count flags cbp =
        submit_to_sq mem pud uapi.op_read fd max64 buf (u32 count) cbp flags

    pub readv : ℕ → ℕ → ℕ → ℕ → ℕ → Option Reply
    readv fd iov iovcnt flags cbp =
        submit_to_sq mem pud uapi.op_readv fd max64 iov (u32 iovcnt) cbp flags

    pub write : ℕ → ℕ → ℕ → ℕ → ℕ → Option Reply
    write fd buf count flags cbp =
        submit_to_sq mem pud uapi.op_write fd max64 buf (u32 count) cbp flags

    pub writev : ℕ → ℕ → ℕ → ℕ → ℕ → Option Reply
    writev fd iov iovcnt flags cbp =
        submit_to_sq mem pud uapi.op_writev fd max64 iov (u32 iovcnt) cbp flags

    -- Accept and connect: the address length travels in the offset.
    pub accept : ℕ → ℕ → ℕ → ℕ → ℕ → Option Reply
    accept fd addr_out addrlen_out flags cbp =
        submit_to_sq mem pud uapi.op_accept fd addrlen_out addr_out 0 cbp flags

    pub connect : ℕ → ℕ → ℕ → ℕ → ℕ → Option Reply
    connect fd addr addrlen flags cbp =
        submit_to_sq mem pud uapi.op_connect fd addrlen addr 0 cbp flags

-- `struct ielb_ioux_etime_cbt`: the timer's block on the heap
pub record Timer : Type 0 where
  pub tv_sec : ℕ
  pub tv_nsec : ℕ
  pub user_data : ℕ

-- The block as `ielb_iou_etime` fills it in
pub timer_of : ℕ → ℕ → ℕ → Timer
timer_of time flags user_data =
    if has flags flag_etime_micros
    then record { tv_sec = time / 1000000; tv_nsec = time % 1000000 * 1000; user_data = user_data }
    else record { tv_sec = time / 1000; tv_nsec = time % 1000 * 1000000; user_data = user_data }

-- What `ielb_iou_etime` returns, with the block if it is still allocated.
pub record Etime : Type 0 where
  pub reply : Reply
  pub block : Option Timer

-- `ielb_iou_etime`: `malloc` gives the address of the block. The entry's callback is the block, and
-- `ts` stands in it behind the base at `ts_offset`.
pub etime : Uapi → Alloc Sqe → Option ℕ → ℕ → Ctx → ℕ → ℕ → ℕ → Option Etime
etime uapi mem malloc ts_offset pud time flags user_data = elim malloc [
  | none ↦ some (record { reply = null enomem pud; block = none })
  | some wcbp ↦
      let timer = timer_of time flags user_data in
      if others flags flag_etime_micros
      then some (record { reply = null einval pud; block = none })
      else (submit_to_sq uapi mem pud uapi.op_timeout 0 0 (wcbp + ts_offset) 1 wcbp
            flag_noreg_handle
          >>= λ reply. some (record { reply = reply; block = some timer }))
]

-- `ielb_ioux_etime_cb`: what the user's callback is called with, once the block is freed.
-- `etime_error` is the kernel's ETIME.
pub etime_cb : ℕ → Timer → Res → ℕ × Res
etime_cb etime_error timer (value n) = (timer.user_data, value n)
etime_cb etime_error timer (error n) =
    (timer.user_data, if n == etime_error then value 0 else error n)

-- `ielb_iou_esoon`, on a queue of pointers in chunks of 2 ^ 7
pub esoon : Alloc ℕ → Ctx → ℕ → ℕ → Option Reply
esoon mem pud flags user_data =
    if others flags flag_esoon_next
    then some (null einval pud)
    else if has flags flag_esoon_next
    then (push quep_chunk_bit mem pud.prepque user_data >>= λ (room, q). some (
        if room
        then accepted user_data (record pud { prepque = q })
        else null enomem (record pud { prepque = q })))
    else (push quep_chunk_bit mem pud.soonque user_data >>= λ (room, q). some (
        if room
        then accepted user_data (record pud { soonque = q })
        else null enomem (record pud { soonque = q })))

-- `ielb_iou_xcntl`; IELB_IOU_XCNTL_SQLEN is 0.
pub xcntl : Ctx → ℕ → ℕ
xcntl pud op = if op == 0 then sub32 pud.lcl_stail pud.sring_head else max64

-- `ielb_iou_xfeat`, of a context that may be NULL
pub xfeat : Option Ctx → ℕ → ℕ
xfeat none flags = 0
xfeat (some pud) flags = if flags == 0 then pud.feat else 0
