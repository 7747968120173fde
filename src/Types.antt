-- ===== src/Types.antt =====
-- types/types.go: categories, masks, the slice helpers, integer-keyed limits and the error log.
-- `Category` is an int32 and is read as the integer that it stands for; `Mask` is an int64 and is
-- read as its bit pattern, a number below 2 ^ 64, so that -1 is the pattern of 64 ones.
pub mod Slices
pub mod CatMap
pub mod ErrorLog
pub mod AndOrSet
use rulestone.Prelude.{ℕ, ◌+◌, ◌-◌, ◌*◌, ◌%◌, ◌^◌, ◌<◌}
use rulestone.Prelude.Int.{ℤ, pos}

abbrev pub Category : Type 0
Category = ℤ

abbrev pub min_category : Category
min_category = pos 0

abbrev pub max_category : Category
max_category = pos 1000000000

abbrev pub Mask : Type 0
Mask = ℕ

-- One more than the largest bit pattern of a Mask.
abbrev pub mask_mod : ℕ
mask_mod = 2 ^ 64

-- Mask(-1)
abbrev pub minus_one : Mask
minus_one = 2 ^ 64 - 1

abbrev pub IsMask : Mask → Type 0
IsMask m = m < 2 ^ 64

-- m << 1, and -m
unfoldable pub shift_left_one : Mask → Mask
shift_left_one m = m * 2 % mask_mod

unfoldable pub negate : Mask → Mask
negate m = (mask_mod - m) % mask_mod

-- A uint64 counter: c++
abbrev pub bump : ℕ → ℕ
bump c = (c + 1) % 2 ^ 64
