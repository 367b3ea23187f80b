-- ===== src/Insurance/YieldLaws.antt =====
-- The yield formulas `compute_yield` and `tier_yield` of insurance/src/lib.rs.
use invofi_contracts.Prelude.{
  ℕ, zero, suc, ◌*◌, ◌/◌, ◌<◌, ◌≤◌, ◌≡◌, refl, inl, inr, true, false, Bool-cases, ◌==◌, ◌||◌, arith,
}
use invofi_contracts.Prelude.Int.{ℤ, pos, ◌*ℤ◌, is_zero, *ℤ-pos, quot-pos}
use invofi_contracts.Prelude.Maps.{ℕ_key}
use invofi_contracts.Host.Outcome.{ok}
use invofi_contracts.Host.Machine.{mul_i128, div_i128, i128_bound}
use invofi_contracts.Host.MachineLaws.{mul_i128-either, div_i128-either}
use invofi_contracts.Insurance.State.{seconds_per_year, bps_denominator}
use invofi_contracts.Insurance.Yield.{compute_yield, tier_yield}

-- 10_000 * SECONDS_PER_YEAR
abbrev pub yield_denominator : ℕ
yield_denominator = 315360000000

mul_fits : (a b : ℕ) → a * b < i128_bound → mul_i128 (pos a) (pos b) ≡ ok (pos (a * b))
unfolding mul_i128
mul_fits a b h = rw (*ℤ-pos a b) (ground arith)

div_fits :
    (a : ℕ)
    → a < i128_bound
    → div_i128 (pos a) (pos yield_denominator) ≡ ok (pos (a / yield_denominator))
unfolding div_i128
div_fits a h = rw (quot-pos a yield_denominator (omega arith)) (ground arith)

zero_product : (p r e : ℕ) → (is_zero (pos p) || r == 0 || e == 0) ≡ true → p * e * r ≡ 0
zero_product p r e h = grind arith

factor_le : (p r e : ℕ) → (is_zero (pos p) || r == 0 || e == 0) ≡ false → p * e ≤ p * e * r
factor_le p zero e h = ground arith
factor_le p (suc r) e h = grind arith

-- On a principal, a rate and a time whose product fits, the flat pool's yield is exactly
-- principal * time * rate / (10_000 * SECONDS_PER_YEAR), rounded down.
pub compute_yield_exact :
    (principal rate elapsed : ℕ)
    → principal * elapsed * rate < i128_bound
    → compute_yield (pos principal) rate elapsed
      ≡ ok (pos (principal * elapsed * rate / yield_denominator))
unfolding compute_yield
compute_yield_exact principal rate elapsed h =
    elim (Bool-cases (is_zero (pos principal) || rate == 0 || elapsed == 0)) [
      | inl none ↦ rw (none, zero_product principal rate elapsed none) refl
      | inr some ↦
          rw
            (
              some,
              mul_fits principal elapsed (omega (arith, factor_le principal rate elapsed some)),
              mul_fits (principal * elapsed) rate h,
            )
            (div_fits (principal * elapsed * rate) h)
    ]

denominator_fits : mul_i128 bps_denominator (pos seconds_per_year) ≡ ok (pos yield_denominator)
unfolding mul_i128 ◌*ℤ◌
denominator_fits = refl

-- On a principal, a rate and a time whose product fits, a tier's yield is exactly
-- principal * rate * time / (10_000 * SECONDS_PER_YEAR), rounded down.
pub tier_yield_exact :
    (principal apy elapsed : ℕ)
    → principal * apy * elapsed < i128_bound
    → principal * apy < i128_bound
    → tier_yield (pos principal) apy elapsed
      ≡ ok (pos (principal * apy * elapsed / yield_denominator))
unfolding tier_yield
tier_yield_exact principal apy elapsed h k =
    elim (Bool-cases (is_zero (pos principal) || elapsed == 0)) [
      | inl none ↦ rw (none, no_time principal apy elapsed none) refl
      | inr some ↦
          rw
            (some, mul_fits principal apy k, mul_fits (principal * apy) elapsed h, denominator_fits)
            (div_fits (principal * apy * elapsed) h)
    ]
  where
    no_time : (p r e : ℕ) → (is_zero (pos p) || e == 0) ≡ true → p * r * e ≡ 0
    no_time p r e h = grind arith

pub compute_yield-floor :
    (p r e : ℕ) {y : ℤ} → compute_yield (pos p) r e ≡ ok y → y ≡ pos (p * e * r / yield_denominator)
unfolding compute_yield
compute_yield-floor p r e {y} h = elim (Bool-cases (is_zero (pos p) || r == 0 || e == 0)) [
  | inl none ↦ rw (zero_product p r e none) (ground arith)
  | inr some ↦
      let by_time = *ℤ-pos p e in
      let by_rate = *ℤ-pos (p * e) r in
      let floor = quot-pos (p * e * r) yield_denominator (omega arith) in
      ground (
        arith,
        mul_i128-either (pos p) (pos e),
        mul_i128-either (pos (p * e)) (pos r),
        div_i128-either (pos (p * e * r)) (pos yield_denominator),
      )
]
