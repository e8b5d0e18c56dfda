-- ===== src/Iou/Drain.antt =====
-- The part of ielb_iou_lrun1 that moves entries of the overflow queue into the submission ring, after
-- the kernel has consumed what stood there. `none` is a fault, or a loop out of rounds.
pub mod Links
pub mod Print
pub mod Arrays
pub mod Refill
pub mod Behind
pub mod Moves
pub mod Kept
mod Tests
use iel.Base.{
  ℕ, zero, suc, ◌+◌, ◌-◌, ◌*◌, ◌/◌, ◌%◌, ◌^◌, Option, none, some, Bool, ◌&&◌, ◌>>=◌, List, [], ◌∷◌,
  bit_and,
}
use iel.Base.{if◌then◌else◌, ◌==◌, ltb, length, u32, add32, sub32, add64, sub64, put_elem?}
use iel.Que.{Que, load, pop_to, size, ents}
use iel.Iou.{Ctx, Sqe, sqofq_chunk_sz_bit}

-- From the last entry that fits back to one without IOSQE_IO_LINK, `io_link`: its chunk and offset
pub link_back : ℕ → ℕ → Que Sqe → ℕ → ℕ → Option (ℕ × ℕ)
link_back io_link zero q chunk_tail os_tail = none
link_back io_link (suc rounds) q chunk_tail os_tail =
    load sqofq_chunk_sz_bit q chunk_tail os_tail >>= λ sqe.
    if bit_and sqe.flags io_link == 0
    then some (chunk_tail, os_tail)
    else link_back io_link rounds q (if os_tail == 0 then sub64 chunk_tail 1 else chunk_tail)
        (sub64 os_tail 1 % ents sqofq_chunk_sz_bit)

-- `safe_popsz`, of a queue of `xsq_sz` entries
pub safe_popsz : ℕ → Ctx → ℕ → Option ℕ
safe_popsz io_link pud xsq_sz =
    let q = pud.sqofq in
    let pop_maxidx = if ltb pud.sring_mask (xsq_sz - 1) then pud.sring_mask else xsq_sz - 1 in
    let os_tail = add64 q.os_s pop_maxidx in
    link_back io_link (xsq_sz + 1) q (add64 q.chunk_s (os_tail / ents sqofq_chunk_sz_bit))
      (os_tail % ents sqofq_chunk_sz_bit)
    >>= λ (chunk, os).
        some (u32 (sub64 (add64 (sub64 chunk q.chunk_s * ents sqofq_chunk_sz_bit) os) q.os_s + 1))

-- The loop that writes `sring_array` from `idx` on. It tests at its end, so 0 entries are 2 ^ 32.
pub fill_array : ℕ → ℕ → ℕ → List ℕ → Option (List ℕ)
fill_array zero idx mask array = some array
fill_array (suc count) idx mask array =
    let arr_idx = bit_and idx mask in
    put_elem? array arr_idx arr_idx >>= fill_array count (add32 idx 1) mask

-- The entries `xs` in the ring from `i` on
pub write_all : List Sqe → ℕ → List Sqe → Option (List Sqe)
write_all sqes i [] = some sqes
write_all sqes i (x ∷ xs) = put_elem? sqes i x >>= λ sqes. write_all sqes (i + 1) xs

-- One call of `pop_to` into the ring: how many entries it moved
pub move_block : Ctx → ℕ → ℕ → Option (ℕ × Ctx)
move_block pud i arr_sz = pop_to sqofq_chunk_sz_bit pud.sqofq arr_sz >>= λ (xs, q).
    write_all pud.sqes i xs >>= λ sqes. some (length xs, record pud { sqofq = q; sqes = sqes })

-- The two calls, to the end of the ring and from its start, with what is left of `safe_popsz`
pub move_at : Ctx → ℕ → ℕ → ℕ → Option (ℕ × Ctx)
move_at pud idx_begin room popsz =
    move_block pud idx_begin (if ltb popsz room then popsz else room) >>= λ (n, first).
    let left = sub32 popsz n in
    move_block first 0 (if ltb idx_begin left then idx_begin else left) >>= λ (k, second).
    some (sub32 left k, second)

pub move_blocks : Ctx → ℕ → Option (ℕ × Ctx)
move_blocks pud popsz =
    let idx_begin = bit_and pud.lcl_stail pud.sring_mask in
    let moved = record pud { lcl_stail = add32 pud.lcl_stail popsz } in
    move_at moved idx_begin (sub32 (add32 pud.sring_mask 1) idx_begin) popsz

-- What the loops around the moves print of the queue: `opcode` and `user_data` of each entry
pub print_from : ℕ → Que Sqe → ℕ → ℕ → Option (List (ℕ × ℕ))
print_from zero q it_ch it_os = none
print_from (suc rounds) q it_ch it_os =
    let os = (it_os + 1) % ents sqofq_chunk_sz_bit in
    let rest = print_from rounds q (if os == 0 then add64 it_ch 1 else it_ch) os in
    if it_ch == q.chunk_e && it_os == q.os_e
    then some []
    else load sqofq_chunk_sz_bit q it_ch it_os >>= λ s.
        rest >>= λ printed. some ((s.opcode, s.user_data) ∷ printed)

pub print_que : Que Sqe → Option (List (ℕ × ℕ))
print_que q = print_from (size sqofq_chunk_sz_bit q + 1) q q.chunk_s q.os_s

-- The part of a queue that is not empty: what it prints before and after, and the context
pub refill : ℕ → Ctx → ℕ → Option (List (ℕ × ℕ) × List (ℕ × ℕ) × Ctx)
refill io_link pud xsq_sz = safe_popsz io_link pud xsq_sz >>= λ popsz.
    print_que pud.sqofq >>= λ before.
    fill_array (if popsz == 0 then 2 ^ 32 else popsz) pud.lcl_stail pud.sring_mask pud.sring_array
    >>= λ array. move_blocks (record pud { sring_array = array }) popsz >>= λ (left, after).
        print_que after.sqofq >>= λ printed. some (before, printed, after)

-- The whole part
pub drain : ℕ → Ctx → Option (List (ℕ × ℕ) × List (ℕ × ℕ) × Ctx)
drain io_link pud =
    let xsq_sz = size sqofq_chunk_sz_bit pud.sqofq in
    if xsq_sz == 0 then some ([], [], pud) else refill io_link pud xsq_sz
