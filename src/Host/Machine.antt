-- ===== src/Host/Machine.antt =====
-- Rust's integer types. A `u32` or a `u64` is a number below its bound, an `i128` an integer between
-- its bounds; with overflow-checks on, a result out of range traps.
use invofi_contracts.Prelude.{ℕ, ◌+◌, ◌-◌, ltb, leb, ◌&&◌, Bool, if◌then◌else◌}
use invofi_contracts.Prelude.Int.{
  ℤ, pos, negsuc, pos_part, neg_part, ◌+ℤ◌, ◌-ℤ◌, ◌*ℤ◌, quot, is_zero,
}
use invofi_contracts.Host.Outcome.{Result, ok, err, overflow}

abbrev pub u32_bound : ℕ
u32_bound = 4294967296

abbrev pub u64_bound : ℕ
u64_bound = 18446744073709551616

-- 2 ^ 127
abbrev pub i128_bound : ℕ
i128_bound = 170141183460469231731687303715884105728

abbrev pub fits_i128 : ℤ → Bool
fits_i128 z = ltb (pos_part z) i128_bound && leb (neg_part z) i128_bound

abbrev pub checked_i128 : ℤ → Result ℤ
checked_i128 z = if fits_i128 z then ok z else err overflow

unfoldable pub add_i128 : ℤ → ℤ → Result ℤ
add_i128 a b = checked_i128 (a +ℤ b)

unfoldable pub sub_i128 : ℤ → ℤ → Result ℤ
sub_i128 a b = checked_i128 (a -ℤ b)

unfoldable pub mul_i128 : ℤ → ℤ → Result ℤ
mul_i128 a b = checked_i128 (a *ℤ b)

-- Division by zero traps too.
unfoldable pub div_i128 : ℤ → ℤ → Result ℤ
div_i128 a b = if is_zero b then err overflow else checked_i128 (quot a b)

-- Out of range, the nearest value of the type.
unfoldable pub saturate_i128 : ℤ → ℤ
saturate_i128 z =
    if fits_i128 z
    then z
    else if ltb (pos_part z) i128_bound
    then negsuc (i128_bound - 1)
    else pos (i128_bound - 1)

-- `a.saturating_mul(b)`
unfoldable pub saturating_mul_i128 : ℤ → ℤ → ℤ
unfolding saturate_i128
saturating_mul_i128 a b = saturate_i128 (a *ℤ b)

-- `a.saturating_sub(b)`
unfoldable pub saturating_sub_i128 : ℤ → ℤ → ℤ
unfolding saturate_i128
saturating_sub_i128 a b = saturate_i128 (a -ℤ b)

unfoldable pub add_u32 : ℕ → ℕ → Result ℕ
add_u32 a b = if ltb (a + b) u32_bound then ok (a + b) else err overflow

unfoldable pub add_u64 : ℕ → ℕ → Result ℕ
add_u64 a b = if ltb (a + b) u64_bound then ok (a + b) else err overflow

-- A difference of unsigned numbers traps below zero.
unfoldable pub sub_unsigned : ℕ → ℕ → Result ℕ
sub_unsigned a b = if leb b a then ok (a - b) else err overflow
