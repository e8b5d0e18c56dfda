-- ===== src/TagPtr.antt =====
-- Tagged pointers: src/tagptr.c, the template include/iel_priv/tp_tagh.tpl.h that it instantiates,
-- and include/iel/tagptr.h. A pointer is its `uintptr_t` value, on a 64-bit target.
-- The function pointers `utp_v` and `tp_v` range over the instances, so they are data types.
pub mod Word
pub mod RoundTrip
pub mod Init
pub mod Portable
mod Tests
use iel.Base.{ℕ, ◌+◌, ◌-◌, ◌*◌, ◌/◌, ◌%◌, ◌^◌, Bool, true, false, bit_and, bit_or}
use iel.Base.{u64, sub64, not64, ltb, leb, ◌==◌, if◌then◌else◌}

-- `struct iel_tp_untag_st`
pub record Untagged : Type 0 where
  pub ptr : ℕ
  pub tag : ℕ

-- `IEL_ASHR_U((intptr_t)x, n, uintptr_t)`: an arithmetic shift in two's complement.
pub ashr_u : ℕ → ℕ → ℕ
ashr_u x n = if leb (2 ^ 63) x then x / 2 ^ n + (2 ^ 64 - 2 ^ (64 - n)) else x / 2 ^ n

-- `IDENT(utp)` for `TAGH_BITS` = t and `TP_DO_SX` = sx: the tag is in the high `t` bits and in the
-- low bits that alignment leaves free.
pub utp_tagh : ℕ → Bool → ℕ → ℕ → Untagged
unfolding ashr_u
utp_tagh t sx ptr al =
    let la = 64 - t in
    let tag = bit_or (ptr / 2 ^ la) (u64 (bit_and ptr (sub64 al 1) * 2 ^ t)) in
    let ptrval = bit_and ptr (not64 (sub64 al 1)) in
    record {
      ptr = if sx then ashr_u (u64 (ptrval * 2 ^ t)) t else bit_and ptrval (2 ^ la - 1);
      tag = tag;
    }

-- `IDENT(tp)`
pub tp_tagh : ℕ → ℕ → ℕ → ℕ
tp_tagh t ptr tag =
    let la = 64 - t in
    let ptrval = bit_and ptr (2 ^ la - 1) in
    let tagh = u64 (bit_and tag (2 ^ t - 1) * 2 ^ la) in
    let tagl = tag / 2 ^ t in bit_or ptrval (bit_or tagl tagh)

-- `utp_l`, `tp_l`, `maxtag_l`: the tag is in the low bits alone.
pub utp_l : ℕ → ℕ → Untagged
utp_l ptr al = record { ptr = bit_and ptr (not64 (sub64 al 1)); tag = bit_and ptr (sub64 al 1) }

pub tp_l : ℕ → ℕ → ℕ
tp_l ptr tag = bit_or ptr tag

abbrev pub maxtag_l : ℕ → ℕ
maxtag_l al = al

-- What `utp_v` and `tp_v` may point to; `la48` and `la57` stand for the template's instances.
pub data UntagFn : Type 0 where
  utp_la48 utp_la57 utp_low : UntagFn

pub data TagFn : Type 0 where
  tp_la48 tp_la57 tp_low : TagFn

-- `LA48_TAGH` and `LA57_TAGH` where `IEL_PF_MMLOWUSER` (Linux, Windows, macOS)
abbrev pub la48_tagh : ℕ
la48_tagh = 17

abbrev pub la57_tagh : ℕ
la57_tagh = 8

-- The file's static variables.
pub record Globals : Type 0 where
  pub utp_v : UntagFn
  pub tp_v : TagFn
  pub maxtag_shl : ℕ

call_utp : UntagFn → ℕ → ℕ → Untagged
unfolding utp_tagh utp_l
call_utp utp_la48 ptr al = utp_tagh la48_tagh false ptr al
call_utp utp_la57 ptr al = utp_tagh la57_tagh false ptr al
call_utp utp_low ptr al = utp_l ptr al

call_tp : TagFn → ℕ → ℕ → ℕ
unfolding tp_tagh tp_l
call_tp tp_la48 ptr tag = tp_tagh la48_tagh ptr tag
call_tp tp_la57 ptr tag = tp_tagh la57_tagh ptr tag
call_tp tp_low ptr tag = tp_l ptr tag

-- `iel_tp_untag`, `iel_tp_tag` and `iel_tp_max` on x86-64. The alignment argument of `iel_tp_tag`
-- only feeds assumptions of the compiler.
pub tp_untag : Globals → ℕ → ℕ → Untagged
unfolding call_utp
tp_untag g ptr al = call_utp g.utp_v ptr al

pub tp_tag : Globals → ℕ → ℕ → ℕ → ℕ
unfolding call_tp
tp_tag g ptr al tag = call_tp g.tp_v ptr tag

pub tp_max : Globals → ℕ → ℕ
tp_max g al = u64 (al * 2 ^ g.maxtag_shl)

-- `iel_tp_init`. `cpuid` gives the register EAX of a leaf.
pub tp_init : (ℕ → ℕ) → Globals → Globals
tp_init cpuid g =
    let tagl = record g { tp_v = tp_low; utp_v = utp_low } in
    let la_bits = cpuid 0x8000_0008 / 2 ^ 8 % 2 ^ 8 in
    if ltb (cpuid 0x8000_0000) 0x8000_0008
    then tagl
    else if la_bits == 48
    then record { utp_v = utp_la48; tp_v = tp_la48; maxtag_shl = la48_tagh }
    else if la_bits == 57
    then record { utp_v = utp_la57; tp_v = tp_la57; maxtag_shl = la57_tagh }
    else tagl
