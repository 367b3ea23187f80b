-- ===== src/Financing/Coverage.antt =====
-- The installments that the principal repaid covers, in financing/src/lib.rs.
use invofi_contracts.Prelude.{ℕ, ◌+◌, ◌-◌, ◌*◌, ◌/◌, ◌≤◌, ◌<◌, ◌≡◌, inl, inr, Bool-cases, arith}
use native.Mathlib.Nat.{mul-div-le, lt-mul-div-succ, div-lt_iff_lt-mul, mod-eq_of_lt, mul_comm}
use invofi_contracts.Prelude.{◌%◌, ◌∙◌, true}
use invofi_contracts.Prelude.Int.{ℤ, pos, negsuc, ◌≤ℤ◌, ◌<ℤ◌, ◌*ℤ◌, quot, is_zero, quot-pos, *ℤ-pos}
use invofi_contracts.Host.Outcome.{◌>>=◌}
use invofi_contracts.Host.Machine.{div_i128, u32_bound}
use invofi_contracts.Host.MachineLaws.{div_i128-either}
use invofi_contracts.Financing.Schedules.{as_u32}
use invofi_contracts.Prelude.Maps.{ℕ_key}
use invofi_contracts.Host.Outcome.{ok, >>=-eq-ok, ok-injective}
use invofi_contracts.Common.Types.{FinancingOffer}
use invofi_contracts.Common.Domain.{ScheduleFrequency, RepaymentSchedule, period_secs}
use invofi_contracts.Financing.Schedules.{paid_installments}

-- Within these bounds the count of the covered installments fits into 32 bits.
pub record IsCountable (offer : FinancingOffer) (schedule : RepaymentSchedule) : Type 0 where
  pub installment : pos 0 <ℤ schedule.installment_amount
  pub repaid : pos 0 ≤ℤ offer.amount_repaid
  pub bound : offer.amount_repaid <ℤ schedule.installment_amount *ℤ pos u32_bound

-- An installment that has come due is among the elapsed periods.
pub period_elapsed :
    (frequency : ScheduleFrequency) (now first_due k : ℕ)
    → first_due + k * period_secs frequency ≤ now
    → k ≤ (now - first_due) / period_secs frequency
unfolding period_secs
period_elapsed ScheduleFrequency.daily now first_due k h = omega (arith, h)
period_elapsed ScheduleFrequency.weekly now first_due k h = omega (arith, h)
period_elapsed ScheduleFrequency.monthly now first_due k h = omega (arith, h)

div_exact : (a b : ℤ) {q : ℤ} → div_i128 a b ≡ ok q → q ≡ quot a b
div_exact a b h = ground (arith, div_i128-either a b)

not_zero : (z : ℤ) → pos 0 <ℤ z → is_zero z ≡ true → ⊥
not_zero z h k = ground arith

nat_covered :
    (a b : ℕ)
    → 0 < b
    → a < b * u32_bound
    → (b * ((a / b) % u32_bound) ≤ a) × (a < b * ((a / b) % u32_bound + 1))
nat_covered a b positive bounded =
    let small : a / b < u32_bound =
      (div-lt_iff_lt-mul positive).1 (rw (mul_comm u32_bound b) bounded) in
    rw (mod-eq_of_lt small) (mul-div-le a b, lt-mul-div-succ a positive)

-- The count of the covered installments is the greatest that the principal repaid covers.
covered_count :
    (repaid installment : ℤ) {p : ℕ}
    → pos 0 <ℤ installment
    → pos 0 ≤ℤ repaid
    → repaid <ℤ installment *ℤ pos u32_bound
    → (div_i128 repaid installment >>= λ covered. ok (as_u32 covered)) ≡ ok p
    → (installment *ℤ pos p ≤ℤ repaid) × (repaid <ℤ installment *ℤ pos (p + 1))
covered_count repaid (negsuc b) positive nonneg bounded h = absurd (omega (arith, positive))
covered_count (negsuc a) (pos b) positive nonneg bounded h = absurd (omega (arith, nonneg))
covered_count (pos a) (pos b) {p} positive nonneg bounded h =
    let (q, e, k) = >>=-eq-ok (div_i128 (pos a) (pos b)) _ h in
    let exact : q ≡ pos (a / b) =
      div_exact (pos a) (pos b) e ∙ quot-pos a b (omega (arith, positive)) in
    let counted : (a / b) % u32_bound ≡ p = ok-injective _ _ (rw exact at k) in
    let (low, high) =
      nat_covered a b (omega (arith, positive))
        (omega (arith, rw (*ℤ-pos b u32_bound) at bounded)) in
    (
      rw (*ℤ-pos b p, ← counted) (omega (arith, low)),
      rw (*ℤ-pos b (p + 1), ← counted) (omega (arith, high)),
    )

pub paid_installments-covered :
    (offer : FinancingOffer) (schedule : RepaymentSchedule) {p : ℕ}
    → IsCountable offer schedule
    → paid_installments offer schedule ≡ ok p
    → (schedule.installment_amount *ℤ pos p ≤ℤ offer.amount_repaid)
      × (offer.amount_repaid <ℤ schedule.installment_amount *ℤ pos (p + 1))
unfolding paid_installments
paid_installments-covered offer schedule range h =
    elim (Bool-cases (is_zero schedule.installment_amount)) [
      | inl no_amount ↦ absurd (not_zero schedule.installment_amount range.installment no_amount)
      | inr some_amount ↦
          covered_count offer.amount_repaid schedule.installment_amount range.installment
            range.repaid range.bound (rw some_amount at h)
    ]
