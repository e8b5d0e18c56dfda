-- ===== src/Iou/Samples.antt =====
-- The contexts that the tests of the io_uring backend start from.
use iel.Base.{refl, ℕ, zero, suc, ◌^◌, ◌<◌, none, some, List, [], ◌∷◌, arith, ltb}
use iel.Que.{Que, Alloc}
use iel.Que.Rep.{Rep}
use iel.Que.Push.{Bounded}
use iel.Iou.{Ctx, Sqe, Uapi, iou_feats}
use iel.Iou.Submit.{sqe_of}
use iel.Iou.Submit.Ring.{RingInv}

-- The values of Linux
abbrev pub linux : Uapi
linux = record {
  op_read = 22;
  op_readv = 1;
  op_write = 23;
  op_writev = 2;
  op_accept = 13;
  op_connect = 16;
  op_timeout = 11;
  fixed_file = 1;
  io_link = 4;
  cqe_skip_success = 64;
}

abbrev pub copies : {A : Type 0} → ℕ → A → List A
copies zero x = []
copies (suc n) x = x ∷ copies n x

abbrev pub no_entry : Sqe
no_entry = sqe_of linux 0 0 0 0 0 0 0

abbrev pub empty_que : {A : Type 0} → Que A
empty_que = record { map = λ c. none; mapcap = 16; chunk_s = 0; chunk_e = 0; os_s = 0; os_e = 0 }

pub empty_que-Rep : {A : Type 0} (bits : ℕ) → 0 < 2 ^ bits → Rep bits (empty_que {A = A}) []
empty_que-Rep bits pos = record {
  os_s_in = pos;
  os_e_in = pos;
  span = omega arith;
  holds = tt;
  owned = λ c. ground arith;
  room = omega arith;
  some_room = omega arith;
  fits = omega arith;
}

abbrev pub idle : Ctx
idle = record {
  sring_head = 5;
  sring_array = copies 64 0;
  sqes = copies 64 no_entry;
  cring_tail = 0;
  cqes = [];
  lcl_stail = 5;
  sring_mask = 63;
  sring_tail = 5;
  cring_head = 0;
  lcl_chead = 0;
  cring_mask = 127;
  soonque = empty_que;
  prepque = empty_que;
  sqofq = empty_que;
  filetable_len = 0;
  filetable_bitmap = [];
  filetable = [];
  feat = iou_feats;
}

abbrev pub mem : {A : Type 0} → A → Alloc A
mem x = record { grants = λ n. ltb n 1000; chunk = some (λ o. x) }

pub mem-Bounded : {A : Type 0} (x : A) → Bounded (mem x)
mem-Bounded x n granted = ground (arith, granted)

pub idle-RingInv : RingInv idle
idle-RingInv = record {
  mask = refl;
  array_size = refl;
  sqes_size = refl;
  head_in = omega arith;
  tail_in = omega arith;
  bounded = omega arith;
  direct = λ j h. absurd (omega (arith, h));
}
