-- ===== src/Iou/Drain/Arrays.antt =====
-- The writes into the ring's arrays: the entries, and the slots that refer to them.
use iel.Base.{ℕ, zero, suc, ◌+◌, ◌%◌, ◌≤◌, ◌<◌, ◌≡◌, refl, sym, ap, ◌∙◌, some, List, [], ◌∷◌, arith}
use iel.Base.{
  length, length-set, set, get_elem?, get_elem?-set_same, get_elem?-set_other, put_elem?-inside,
  add32, Bool-cases, inl, inr, ◌==◌,
}
use iel.Base.Bits.{bit_and_mask}
use iel.Iou.{Sqe}
use iel.Iou.Drain.{write_all, fill_array}

-- `sqes` with the entries `xs` from `i` on
pub record Written (sqes : List Sqe) (i : ℕ) (xs : List Sqe) (after : List Sqe) : Type 0 where
  pub result : write_all sqes i xs ≡ some after
  pub size : length after ≡ length sqes
  pub here : (j : ℕ) → j < length xs → get_elem? after (i + j) ≡ get_elem? xs j
  pub before : (k : ℕ) → k < i → get_elem? after k ≡ get_elem? sqes k
  pub beyond : (k : ℕ) → i + length xs ≤ k → get_elem? after k ≡ get_elem? sqes k

pub Written-nil : (sqes : List Sqe) (i : ℕ) → Written sqes i [] sqes
unfolding write_all
Written-nil sqes i = record {
  result = refl;
  size = refl;
  here = λ j h. elim h [ ];
  before = λ k h. refl;
  beyond = λ k h. refl;
}

pub write_all-Written :
    (sqes : List Sqe) (i : ℕ) (xs : List Sqe)
    → i + length xs ≤ length sqes
    → (after : List Sqe) × Written sqes i xs after
unfolding write_all
write_all-Written sqes i [] fits = (sqes, Written-nil sqes i)
write_all-Written sqes i (x ∷ xs) fits =
    let first = set sqes i x in
    let len = length-set sqes i x in
    let (after, w) = write_all-Written first (i + 1) xs (omega (arith, len)) in
    (
      after,
      record {
        result = rw (put_elem?-inside sqes i x (omega arith)) w.result;
        size = w.size ∙ len;
        here = written_here sqes i x xs after w.before w.here (omega arith);
        before = λ k h.
            w.before k (omega arith) ∙ get_elem?-set_other sqes i k x (λ e. omega (arith, e, h));
        beyond = λ k h.
            w.beyond k (omega arith) ∙ get_elem?-set_other sqes i k x (λ e. omega (arith, e, h));
      },
    )
  where
    written_here :
        (sqes : List Sqe) (i : ℕ) (x : Sqe) (xs after : List Sqe)
        → ((k : ℕ) → k < i + 1 → get_elem? after k ≡ get_elem? (set sqes i x) k)
        → ((j : ℕ) → j < length xs → get_elem? after (i + 1 + j) ≡ get_elem? xs j)
        → i < length sqes
        → (j : ℕ) → j < suc (length xs)
        → get_elem? after (i + j) ≡ get_elem? (x ∷ xs) j
    written_here sqes i x xs after old new lt zero h =
        ap (get_elem? after) {x = i + 0} {y = i} (omega arith)
        ∙ old i (omega arith)
        ∙ get_elem?-set_same sqes i x lt
    written_here sqes i x xs after old new lt (suc j) h =
        ap (get_elem? after) {x = i + suc j} {y = i + 1 + j} (omega arith) ∙ new j (omega arith)

-- An array of 64 slots in which `count` slots from `idx` on refer to the entries at their own places
pub record Filled (array : List ℕ) (idx count : ℕ) (after : List ℕ) : Type 0 where
  pub result : fill_array count idx 63 array ≡ some after
  pub size : length after ≡ 64
  pub kept : (s : ℕ) → get_elem? array s ≡ some s → get_elem? after s ≡ some s
  pub here : (j : ℕ) → j < count → get_elem? after ((idx + j) % 64) ≡ some ((idx + j) % 64)

pub fill_array-Filled :
    (count idx : ℕ) (array : List ℕ)
    → length array ≡ 64
    → (after : List ℕ) × Filled array idx count after
unfolding fill_array
fill_array-Filled zero idx array len =
    (array, record { result = refl; size = len; kept = λ s h. h; here = λ j h. elim h [ ] })
fill_array-Filled (suc count) idx array len =
    let slot = idx % 64 in
    let first = set array slot slot in
    let (after, f) =
      fill_array-Filled count (add32 idx 1) first (length-set array slot slot ∙ len) in
    let own = get_elem?-set_same array slot slot (omega (arith, len)) in
    let round = put_elem?-inside array slot slot (omega (arith, len)) in
    (
      after,
      record {
        result = rw (bit_and_mask 6 idx, round) f.result;
        size = f.size;
        kept = λ s h. f.kept s (set_own array slot s h own);
        here = filled_here array idx count after (f.kept slot own) f.here;
      },
    )
  where
    set_own :
        (array : List ℕ) (slot s : ℕ)
        → get_elem? array s ≡ some s
        → get_elem? (set array slot slot) slot ≡ some slot
        → get_elem? (set array slot slot) s ≡ some s
    set_own array slot s h own = elim (Bool-cases (slot == s)) [
      | inl same ↦
          let e : slot ≡ s = ground (arith, same) in
          ap (get_elem? (set array slot slot)) (sym e) ∙ own ∙ ap some e
      | inr apart ↦ get_elem?-set_other array slot s slot (λ e. ground (arith, e, apart)) ∙ h
    ]

    filled_here :
        (array : List ℕ) (idx count : ℕ) (after : List ℕ)
        → get_elem? after (idx % 64) ≡ some (idx % 64)
        → ((j : ℕ)
            → j < count
            → get_elem? after ((add32 idx 1 + j) % 64) ≡ some ((add32 idx 1 + j) % 64))
        → (j : ℕ) → j < suc count
        → get_elem? after ((idx + j) % 64) ≡ some ((idx + j) % 64)
    filled_here array idx count after own rest zero h =
        let e : (idx + 0) % 64 ≡ idx % 64 = omega arith in rw e own
    filled_here array idx count after own rest (suc j) h =
        let e : (idx + suc j) % 64 ≡ (add32 idx 1 + j) % 64 = omega arith in
        rw e (rest j (omega arith))
