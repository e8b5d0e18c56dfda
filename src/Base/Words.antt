-- ===== src/Base/Words.antt =====
-- Unsigned integers of C: 32 bits (`unsigned`, `uint32_t`) and 64 bits (`size_t`, `uintptr_t`,
-- `unsigned long long`). Every operation keeps its wrap-around.
use Prim.Native.Nat.{ℕ, ◌+◌, ◌-◌, ◌%◌, ◌^◌}

abbrev pub u32 : ℕ → ℕ
u32 n = n % 2 ^ 32

abbrev pub u64 : ℕ → ℕ
u64 n = n % 2 ^ 64

abbrev pub add32 : ℕ → ℕ → ℕ
add32 a b = u32 (a + b)

-- The modulus is added first, since `-` on ℕ stops at 0.
abbrev pub sub32 : ℕ → ℕ → ℕ
sub32 a b = u32 (a + 2 ^ 32 - b)

abbrev pub add64 : ℕ → ℕ → ℕ
add64 a b = u64 (a + b)

abbrev pub sub64 : ℕ → ℕ → ℕ
sub64 a b = u64 (a + 2 ^ 64 - b)

-- `SIZE_MAX`, `UINT64_MAX`
abbrev pub max64 : ℕ
max64 = 2 ^ 64 - 1

-- `~x` on 64 bits
abbrev pub not64 : ℕ → ℕ
not64 x = max64 - x
