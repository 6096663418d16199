-- ===== src/Base/Words.antt =====
-- Machine words as native numbers: the moduli, checked, wrapping and saturating operations.
use Prim.Native.Nat.{ℕ, ◌+◌, ◌-◌, ◌%◌, ◌^◌}
use mathlib.Core.Option.{Option, none, some}
use project_zero.Base.Tests.{ltb, leb, if◌then◌else◌}
use project_zero.Base.Int.{ℤ, pos, negsuc, ltb_ℤ}

abbrev pub u8_mod : ℕ
u8_mod = 2 ^ 8

abbrev pub u16_mod : ℕ
u16_mod = 2 ^ 16

abbrev pub u32_mod : ℕ
u32_mod = 2 ^ 32

abbrev pub u64_mod : ℕ
u64_mod = 2 ^ 64

-- `u64::checked_add` and `u64::checked_sub`.
abbrev pub checked_add_u64 : ℕ → ℕ → Option ℕ
checked_add_u64 a b = if ltb (a + b) u64_mod then some (a + b) else none

abbrev pub checked_sub_u64 : ℕ → ℕ → Option ℕ
checked_sub_u64 a b = if leb b a then some (a - b) else none

-- `u32::wrapping_add`.
abbrev pub wrapping_add_u32 : ℕ → ℕ → ℕ
wrapping_add_u32 a b = (a + b) % u32_mod

-- The bounds of `i64`, and the bring-back of a saturating operation.
abbrev pub i64_max : ℤ
i64_max = pos (2 ^ 63 - 1)

abbrev pub i64_min : ℤ
i64_min = negsuc (2 ^ 63 - 1)

abbrev pub saturate_i64 : ℤ → ℤ
saturate_i64 x = if ltb_ℤ i64_max x then i64_max else if ltb_ℤ x i64_min then i64_min else x

-- `x as i64` of a `u64`.
abbrev pub as_i64 : ℕ → ℤ
as_i64 n = if ltb n (2 ^ 63) then pos n else negsuc (2 ^ 64 - n - 1)
