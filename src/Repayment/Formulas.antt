-- ===== src/Repayment/Formulas.antt =====
-- The formulas of repayment/src/lib.rs: `accrued_penalty` and `pro_rata_interest`.
use invofi_contracts.Prelude.{
  ℕ, zero, suc, ◌+◌, ◌-◌, ◌*◌, ◌/◌, ◌<◌, ◌≤◌, ◌≡◌, ◌⊎◌, refl, inl, inr, true, false, Bool-cases,
  ◌==◌, ◌||◌, leb, ltb, leb→le, ==→≡, if◌then◌else◌, arith,
}
use invofi_contracts.Prelude.Int.{ℤ, pos, negsuc, ◌≤ℤ◌, leb_ℤ, min_ℤ, max_ℤ, *ℤ-pos, quot-pos}
use invofi_contracts.Host.Outcome.{Invocation}
use invofi_contracts.Host.Machine.{saturating_mul_i128, saturate_i128, i128_bound}
use invofi_contracts.Repayment.State.{secs_per_day}
use invofi_contracts.Repayment.Interest.{capped_penalty, accrued_penalty, pro_rata_interest}

-- A saturating product of non-negative numbers.
abbrev pub saturated : ℕ → ℕ
saturated n = if ltb n i128_bound then n else i128_bound - 1

pub saturating_mul-pos : (a b : ℕ) → saturating_mul_i128 (pos a) (pos b) ≡ pos (saturated (a * b))
unfolding saturating_mul_i128 saturate_i128
saturating_mul-pos a b = rw (*ℤ-pos a b) (ground arith)

abbrev pub least : ℕ → ℕ → ℕ
least a b = if leb a b then a else b

min_ℤ-pos : (a b : ℕ) → min_ℤ (pos a) (pos b) ≡ pos (least a b)
unfolding min_ℤ
min_ℤ-pos a b = ground arith

pub capped_penalty-pos :
    (n bps cap days : ℕ)
    → capped_penalty (pos n) bps cap days
      ≡ pos (least (saturated (saturated (n * bps) * days) / 10000) (saturated (n * cap) / 10000))
unfolding capped_penalty
capped_penalty-pos n bps cap days =
    rw
      (
        saturating_mul-pos n bps,
        saturating_mul-pos (saturated (n * bps)) days,
        saturating_mul-pos n cap,
        quot-pos (saturated (saturated (n * bps) * days)) 10000 (omega arith),
        quot-pos (saturated (n * cap)) 10000 (omega arith),
      )
      (min_ℤ-pos _ _)

-- Whole days past the due date.
abbrev pub days_overdue : ℕ → ℕ → ℕ
days_overdue now due_date = (now - due_date) / secs_per_day

-- The penalty of ADR-0007: a daily rate on the base, up to a cap, rounded down.
abbrev pub penalty_formula : ℕ → ℕ → ℕ → ℕ → ℕ
penalty_formula n bps cap days = least (n * bps * days / 10000) (n * cap / 10000)

no_penalty :
    (n bps cap days : ℕ)
    → ((bps == 0 || cap == 0) || leb_ℤ (pos n) (pos 0)) ≡ true
    → penalty_formula n bps cap days ≡ 0
no_penalty n bps cap days h = grind arith

no_days : (n bps cap : ℕ) → penalty_formula n bps cap 0 ≡ 0
no_days n bps cap = ground arith

not_overdue : (now due : ℕ) → leb now due ≡ true → days_overdue now due ≡ 0
not_overdue now due h = omega (arith, leb→le now due h)

factor_le : (a days : ℕ) → (days == 0) ≡ false → a ≤ a * days
factor_le a zero h = cc
factor_le a (suc d) h = grind arith

saturated_fits : (n : ℕ) → n < i128_bound → saturated n ≡ n
saturated_fits n h = ground arith

-- On a base whose products fit in an i128, the accrued penalty is exactly
-- min (base * rate * days / 10_000, base * cap / 10_000), rounded down, for the whole days past the
-- due date, whatever the rate, the cap and the time: the early returns make no difference.
pub accrued_penalty_exact :
    (c : Invocation) (base due_date penalty_bps cap_bps : ℕ)
    → base * penalty_bps * days_overdue c.now due_date < i128_bound
    → base * cap_bps < i128_bound
    → accrued_penalty c (pos base) due_date penalty_bps cap_bps
      ≡ pos (penalty_formula base penalty_bps cap_bps (days_overdue c.now due_date))
unfolding accrued_penalty
accrued_penalty_exact c n due bps cap fits cap_fits =
    let days = days_overdue c.now due in
    elim (Bool-cases ((bps == 0 || cap == 0) || leb_ℤ (pos n) (pos 0))) [
      | inl off ↦ rw (off, no_penalty n bps cap days off) refl
      | inr on ↦ elim (Bool-cases (leb c.now due)) [
        | inl early ↦ rw (on, early, not_overdue c.now due early, no_days n bps cap) refl
        | inr late ↦ elim (Bool-cases (days == 0)) [
          | inl first ↦ rw (on, late, first, ==→≡ _ _ first, no_days n bps cap) refl
          | inr some ↦
              rw
                (
                  on,
                  late,
                  some,
                  capped_penalty-pos n bps cap days,
                  saturated_fits (n * bps) (omega (arith, factor_le (n * bps) days some)),
                  saturated_fits (n * bps * days) fits,
                  saturated_fits (n * cap) cap_fits,
                )
                refl
        ]
      ]
    ]

saturated_le : (n : ℕ) → saturated n ≤ n
saturated_le n = ground arith

div_mono : (a b : ℕ) → a ≤ b → a / 10000 ≤ b / 10000
div_mono a b h = omega arith

cap_le : (n cap : ℕ) → cap ≤ 10000 → n * cap / 10000 ≤ n
cap_le n cap h = grind arith

capped_penalty_le :
    (n bps cap days : ℕ)
    → cap ≤ 10000
    → (pos 0 ≤ℤ capped_penalty (pos n) bps cap days)
      × (capped_penalty (pos n) bps cap days ≤ℤ pos n)
capped_penalty_le n bps cap days h =
    let shrunk = div_mono _ _ (saturated_le (n * cap)) in
    rw (capped_penalty-pos n bps cap days) (ground (arith, shrunk, cap_le n cap h))

-- Under a cap of at most 10_000 basis points, which is all that set_penalty accepts, the accrued
-- penalty is never negative, never more than the base, and zero until one whole day after the due
-- date; it is zero on a base that is not positive.
pub accrued_penalty_bounds :
    (c : Invocation) (base : ℤ) (due_date penalty_bps cap_bps : ℕ)
    → cap_bps ≤ 10000
    → let penalty = accrued_penalty c base due_date penalty_bps cap_bps in
      (pos 0 ≤ℤ penalty)
      × (penalty ≤ℤ max_ℤ base (pos 0))
      × ((due_date + secs_per_day ≤ c.now) ⊎ (penalty ≡ pos 0))
unfolding accrued_penalty max_ℤ
accrued_penalty_bounds c (negsuc n) due bps cap h = ground arith
accrued_penalty_bounds c (pos n) due bps cap h =
    ground (arith, capped_penalty_le n bps cap (days_overdue c.now due) h)

-- `pro_rata_interest` on a principal that fits is the exact formula, rounded down, whatever the rate
-- and the number of days.
pub pro_rata_interest_exact :
    (principal rate days : ℕ)
    → principal * rate * days < i128_bound
    → pro_rata_interest (pos principal) rate (pos days) ≡ pos (principal * rate * days / 3650000)
unfolding pro_rata_interest
pro_rata_interest_exact n rate days fits =
    elim (Bool-cases ((leb_ℤ (pos n) (pos 0) || rate == 0) || leb_ℤ (pos days) (pos 0))) [
      | inl off ↦ rw (off, no_interest n rate days off) refl
      | inr on ↦
          rw
            (
              on,
              saturating_mul-pos n rate,
              saturated_fits (n * rate) (omega (arith, days_factor n rate days on)),
              saturating_mul-pos (n * rate) days,
              saturated_fits (n * rate * days) fits,
            )
            (quot-pos (n * rate * days) 3650000 (omega arith))
    ]
  where
    no_interest :
        (n rate days : ℕ)
        → ((leb_ℤ (pos n) (pos 0) || rate == 0) || leb_ℤ (pos days) (pos 0)) ≡ true
        → n * rate * days / 3650000 ≡ 0
    no_interest n rate days h = grind arith

    days_factor :
        (n rate days : ℕ)
        → ((leb_ℤ (pos n) (pos 0) || rate == 0) || leb_ℤ (pos days) (pos 0)) ≡ false
        → n * rate ≤ n * rate * days
    days_factor n rate zero h = ground arith
    days_factor n rate (suc d) h = grind arith

-- The interest is never negative.
pub pro_rata_interest_nonneg :
    (principal : ℤ) (rate days : ℕ) → pos 0 ≤ℤ pro_rata_interest principal rate (pos days)
unfolding pro_rata_interest
pro_rata_interest_nonneg (negsuc n) rate days = ground arith
pro_rata_interest_nonneg (pos n) rate days =
    rw
      (
        saturating_mul-pos n rate,
        saturating_mul-pos (saturated (n * rate)) days,
        quot-pos (saturated (saturated (n * rate) * days)) 3650000 (omega arith),
      )
      (ground arith)
