-- ===== src/Iou/Drain/Print.antt =====
-- What the printing loops of the overflow queue print.
use mathlib.Core.List.{map}
use mathlib.Core.Path.{ap₂}
use iel.Base.{ℕ, zero, suc, ◌+◌, ◌/◌, ◌%◌, ◌^◌, ◌<◌, ◌≡◌, refl, sym, ◌∙◌, some}
use iel.Base.{
  false, ◌&&◌, List, [], ◌∷◌, arith, ◌==◌, if◌then◌else◌, length, Bool-cases, inl, inr, add64, drop,
  get_elem?,
}
use iel.Que.{Que}
use iel.Que.Rep.{Rep, start}
use iel.Que.Pop.{size-length}
use iel.Que.Read.{load-get}
use iel.Iou.{Sqe, sqofq_chunk_sz_bit}
use iel.Iou.Drain.{print_from, print_que}

-- What is printed of an entry
abbrev pub shown : Sqe → ℕ × ℕ
shown x = (x.opcode, x.user_data)

get_elem?-drop : (k : ℕ) (xs ys : List Sqe) (y : Sqe) → drop k xs ≡ y ∷ ys → get_elem? xs k ≡ some y
get_elem?-drop zero [] ys y e = absurd cc
get_elem?-drop zero (x ∷ xs) ys y e = cc
get_elem?-drop (suc k) [] ys y e = absurd cc
get_elem?-drop (suc k) (x ∷ xs) ys y e = get_elem?-drop k xs ys y e

drop-suc : (k : ℕ) (xs ys : List Sqe) (y : Sqe) → drop k xs ≡ y ∷ ys → drop (suc k) xs ≡ ys
drop-suc zero [] ys y e = absurd cc
drop-suc zero (x ∷ xs) ys y e = cc
drop-suc (suc k) [] ys y e = absurd cc
drop-suc (suc k) (x ∷ xs) ys y e = drop-suc k xs ys y e

-- One entry on, inside a chunk and at its end
next_place :
    (p s : ℕ)
    → suc p ≡ s
    → p / 1024 < 2 ^ 60
    → ((if (p % 1024 + 1) % 1024 == 0 then add64 (p / 1024) 1 else p / 1024) ≡ s / 1024)
      × ((p % 1024 + 1) % 1024 ≡ s % 1024)
next_place p s next small = elim (Bool-cases ((p % 1024 + 1) % 1024 == 0)) [
  | inl z ↦
      let e : (p % 1024 + 1) % 1024 ≡ 0 = ground (arith, z) in rw z (omega (arith, e), omega arith)
  | inr nz ↦
      let e : 0 < (p % 1024 + 1) % 1024 = ground (arith, nz) in
      rw nz (omega (arith, e), omega arith)
]

module _ (q : Que Sqe) (xs : List Sqe) (rep : Rep sqofq_chunk_sz_bit q xs) where
  -- The loop does not stop before the end.
  not_yet :
      (k : ℕ)
      → k < length xs
      → ((start sqofq_chunk_sz_bit q + k) / 1024 == q.chunk_e
          && (start sqofq_chunk_sz_bit q + k) % 1024 == q.os_e)
        ≡ false
  not_yet k lt =
      let p = start sqofq_chunk_sz_bit q + k in
      elim (Bool-cases (p / 1024 == q.chunk_e && p % 1024 == q.os_e)) [
        | inr busy ↦ busy
        | inl done ↦
            let c : p / 1024 ≡ q.chunk_e = ground (arith, done) in
            let o : p % 1024 ≡ q.os_e = ground (arith, done) in
            absurd (omega (arith, c, o, rep.span, lt))
      ]

  -- From entry `k` on, where `ys` is left
  print_from-shown :
      (rounds k : ℕ) (ys : List Sqe)
      → drop k xs ≡ ys
      → k + length ys ≡ length xs
      → length ys < rounds
      → print_from rounds q
          ((start sqofq_chunk_sz_bit q + k) / 1024)
          ((start sqofq_chunk_sz_bit q + k) % 1024)
        ≡ some (map shown ys)
  unfolding print_from
  print_from-shown zero k ys e len enough = absurd (omega arith)
  print_from-shown (suc rounds) k [] e len enough =
      let c : (start sqofq_chunk_sz_bit q + k) / 1024 ≡ q.chunk_e =
        omega (arith, rep.span, rep.os_e_in) in
      let o : (start sqofq_chunk_sz_bit q + k) % 1024 ≡ q.os_e =
        omega (arith, rep.span, rep.os_e_in) in
      ground (arith, c, o)
  print_from-shown (suc rounds) k (y ∷ ys) e len enough =
      let p = start sqofq_chunk_sz_bit q + k in
      let (read, small) = load-get sqofq_chunk_sz_bit q xs k rep (get_elem?-drop k xs ys y e) in
      let rest =
        print_from-shown rounds (suc k) ys (drop-suc k xs ys y e) (omega arith) (omega arith) in
      let busy : (p / 1024 == q.chunk_e && p % 1024 == q.os_e) ≡ false = not_yet k (omega arith) in
      let (c, o) =
        next_place p (start sqofq_chunk_sz_bit q + suc k) (omega arith)
          (omega (arith, small, rep.fits)) in
      rw (busy, read, c, o, rest) refl

-- Both loops print the entries of the queue, in order.
pub print_que-shown :
    (q : Que Sqe) (xs : List Sqe)
    → Rep sqofq_chunk_sz_bit q xs
    → length xs < 2 ^ 64
    → print_que q ≡ some (map shown xs)
unfolding print_que
print_que-shown q xs rep small =
    let sz = size-length sqofq_chunk_sz_bit q xs (omega arith) rep small in
    let first = print_from-shown q xs rep (length xs + 1) 0 xs refl (omega arith) (omega arith) in
    let c : (start sqofq_chunk_sz_bit q + 0) / 1024 ≡ q.chunk_s = omega (arith, rep.os_s_in) in
    let o : (start sqofq_chunk_sz_bit q + 0) % 1024 ≡ q.os_s = omega (arith, rep.os_s_in) in
    let shift = ap₂ (print_from (length xs + 1) q) c o in rw sz (sym shift ∙ first)
