-- ===== src/Host/MachineLaws.antt =====
-- A checked operation gives the exact result or traps.
use invofi_contracts.Prelude.{ℕ, ◌+◌, ◌-◌, ◌≤◌, ◌<◌, ◌≡◌, ◌⊎◌, false, arith}
use invofi_contracts.Prelude.Int.{ℤ, ◌+ℤ◌, ◌-ℤ◌, ◌*ℤ◌, quot, is_zero}
use invofi_contracts.Host.Outcome.{ok, err, overflow}
use invofi_contracts.Host.Machine.{
  add_i128, sub_i128, mul_i128, div_i128, add_u32, add_u64, sub_unsigned, u32_bound, u64_bound,
}

pub add_i128-either : (a b : ℤ) → (add_i128 a b ≡ ok (a +ℤ b)) ⊎ (add_i128 a b ≡ err overflow)
unfolding add_i128
add_i128-either a b = ground arith

pub sub_i128-either : (a b : ℤ) → (sub_i128 a b ≡ ok (a -ℤ b)) ⊎ (sub_i128 a b ≡ err overflow)
unfolding sub_i128
sub_i128-either a b = ground arith

pub mul_i128-either : (a b : ℤ) → (mul_i128 a b ≡ ok (a *ℤ b)) ⊎ (mul_i128 a b ≡ err overflow)
unfolding mul_i128
mul_i128-either a b = ground arith

pub div_i128-either :
    (a b : ℤ)
    → ((is_zero b ≡ false) × (div_i128 a b ≡ ok (quot a b))) ⊎ (div_i128 a b ≡ err overflow)
unfolding div_i128
div_i128-either a b = ground arith

pub add_u32-either :
    (a b : ℕ) → ((a + b < u32_bound) × (add_u32 a b ≡ ok (a + b))) ⊎ (add_u32 a b ≡ err overflow)
unfolding add_u32
add_u32-either a b = ground arith

pub add_u64-either :
    (a b : ℕ) → ((a + b < u64_bound) × (add_u64 a b ≡ ok (a + b))) ⊎ (add_u64 a b ≡ err overflow)
unfolding add_u64
add_u64-either a b = ground arith

pub sub_unsigned-either :
    (a b : ℕ) → ((b ≤ a) × (sub_unsigned a b ≡ ok (a - b))) ⊎ (sub_unsigned a b ≡ err overflow)
unfolding sub_unsigned
sub_unsigned-either a b = ground arith
