-- ===== src/Bitmap.antt =====
-- The bitmap of free file slots: include/iel_priv/bitmap.h. A bitmap is a list of 64-bit words; a
-- set bit is a free slot. An access past the words is a fault, `none`.
pub mod Word
pub mod Free
pub mod Search
mod Tests
use iel.Base.{ℕ, zero, suc, ◌+◌, ◌-◌, ◌*◌, ◌/◌, ◌%◌, ◌^◌, Option, none, some, List, ◌>>=◌}
use iel.Base.{bit_and, bit_or, if◌then◌else◌, ◌==◌, ltb, max64, get_elem?, set, length}

abbrev pub bits_in_elem : ℕ
bits_in_elem = 64

-- `IEL_BM_NPOS`
abbrev pub npos : ℕ
npos = max64

-- `__builtin_ctzg` of a number below `2 ^ fuel`, not 0
pub ctz : ℕ → ℕ → ℕ
ctz zero n = 0
ctz (suc fuel) n = let above = suc (ctz fuel (n / 2)) in if n % 2 == 1 then 0 else above

-- `iel_bm_bsc_`: the index of the lowest set bit, and the word without it.
pub record Bsc : Type 0 where
  pub index : ℕ
  pub rest : ℕ

pub bsc : ℕ → Bsc
bsc n = record { index = ctz bits_in_elem n; rest = bit_and n (n - 1) }

-- What `iel_bm_scan_clear` returns, with the words and `*it` afterwards.
pub record Scan : Type 0 where
  pub ret : ℕ
  pub bm : List ℕ
  pub it : ℕ

-- The loop of `iel_bm_scan_clear` at `ch_idx`; `rounds` bounds the words that are left.
scan_loop : ℕ → List ℕ → ℕ → ℕ → Option Scan
unfolding bsc
scan_loop zero bm len ch_idx = none
scan_loop (suc rounds) bm len ch_idx = get_elem? bm ch_idx >>= λ n.
    let found : Scan = record {
      ret = ch_idx * bits_in_elem + (bsc n).index;
      bm = set bm ch_idx (bsc n).rest;
      it = ch_idx + 1;
    } in
    let rest = scan_loop rounds bm len (ch_idx + 1) in
    let stop : Scan = record { ret = npos; bm = bm; it = ch_idx + 1 } in
    if n == 0 then (if ltb (ch_idx + 1) len then rest else some stop) else some found

-- `iel_bm_scan_clear`: the loop looks at one word a round, so `len + 1` rounds are enough.
pub scan_clear : List ℕ → ℕ → ℕ → Option Scan
unfolding scan_loop
scan_clear bm len it = scan_loop (len + 1) bm len it

-- `iel_bm_set`
pub bm_set : List ℕ → ℕ → ℕ → Option (List ℕ)
bm_set bm len idx =
    let chk_idx = idx / bits_in_elem in
    let bit_idx = idx % bits_in_elem in
    if ltb chk_idx len
    then (get_elem? bm chk_idx >>= λ w. some (set bm chk_idx (bit_or w (2 ^ bit_idx))))
    else none
