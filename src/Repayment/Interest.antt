-- ===== src/Repayment/Interest.antt =====
-- The interest, the overdue penalty and the principal repaid so far of repayment/src/lib.rs.
use invofi_contracts.Prelude.{ℕ, zero, suc, ◌-◌, ◌/◌, ◌||◌, List, [], ◌∷◌, leb, ◌==◌, if◌then◌else◌}
use invofi_contracts.Prelude.Lists.{length}
use invofi_contracts.Prelude.Int.{ℤ, pos, leb_ℤ, quot, min_ℤ, max_ℤ}
use invofi_contracts.Host.Outcome.{Result, ok, ◌>>=◌, Invocation}
use invofi_contracts.Host.Machine.{add_i128, sub_i128, mul_i128, saturating_mul_i128, sub_unsigned}
use invofi_contracts.Common.Types.{FinancingOffer, Invoice, PaymentRecord}
use invofi_contracts.Repayment.State.{
  Repayment, load_penalty_config, secs_per_day, max_payments_per_invoice,
}

-- `raw.min(cap)`, once the early returns are passed.
unfoldable pub capped_penalty : ℤ → ℕ → ℕ → ℕ → ℤ
unfolding min_ℤ
capped_penalty total_due penalty_bps cap_bps elapsed_days =
    let raw =
      quot
        (saturating_mul_i128 (saturating_mul_i128 total_due (pos penalty_bps)) (pos elapsed_days))
        (pos 10000) in
    let cap = quot (saturating_mul_i128 total_due (pos cap_bps)) (pos 10000) in min_ℤ raw cap

unfoldable pub accrued_penalty : Invocation → ℤ → ℕ → ℕ → ℕ → ℤ
unfolding capped_penalty
accrued_penalty c total_due due_date penalty_bps cap_bps =
    if (penalty_bps == 0 || cap_bps == 0) || leb_ℤ total_due (pos 0)
    then pos 0
    else if leb c.now due_date
    then pos 0
    else (let elapsed_days = (c.now - due_date) / secs_per_day in
        if elapsed_days == 0
        then pos 0
        else capped_penalty total_due penalty_bps cap_bps elapsed_days)

unfoldable pub pro_rata_interest : ℤ → ℕ → ℤ → ℤ
unfolding saturating_mul_i128
pro_rata_interest remaining_principal rate_bps days_elapsed =
    if (leb_ℤ remaining_principal (pos 0) || rate_bps == 0) || leb_ℤ days_elapsed (pos 0)
    then pos 0
    else quot
        (saturating_mul_i128 (saturating_mul_i128 remaining_principal (pos rate_bps)) days_elapsed)
        (pos 3650000)

-- `while i < limit`
unfoldable pub principal_loop : ℕ → ℤ → List PaymentRecord → Result ℤ
principal_loop zero total payments = ok total
principal_loop (suc left) total [] = ok total
principal_loop (suc left) total (payment ∷ rest) = do
  total' ← add_i128 total payment.principal_paid
  principal_loop left total' rest

unfoldable pub total_principal_repaid : List PaymentRecord → Result ℤ
unfolding principal_loop
total_principal_repaid payments =
    let count = length payments in
    let limit = if leb count max_payments_per_invoice then count else max_payments_per_invoice in
    principal_loop limit (pos 0) payments

-- `offer.amount + yield_amount`, with the flat yield.
unfoldable pub frozen_base : FinancingOffer → Result ℤ
frozen_base offer = do
  product ← mul_i128 offer.amount (pos offer.interest_rate)
  add_i128 offer.amount (quot product (pos 10000))

-- `(now - offer.funded_at) / SECS_PER_DAY`
unfoldable pub days_since_funded : Invocation → FinancingOffer → Result ℤ
days_since_funded c offer = do
  elapsed ← sub_unsigned c.now offer.funded_at
  ok (pos (elapsed / secs_per_day))

-- `(offer.amount - principal_repaid).max(0)`
unfoldable pub remaining_principal : FinancingOffer → List PaymentRecord → Result ℤ
unfolding total_principal_repaid
remaining_principal offer payments = do
  principal_repaid ← total_principal_repaid payments
  difference ← sub_i128 offer.amount principal_repaid
  ok (max_ℤ difference (pos 0))

unfoldable pub penalty_due : Invocation → FinancingOffer → Invoice → Repayment → Result ℤ
unfolding frozen_base accrued_penalty load_penalty_config
penalty_due c offer invoice s = do
  base ← frozen_base offer
  let (penalty_bps, cap_bps) = load_penalty_config s
  ok (accrued_penalty c base invoice.due_date penalty_bps cap_bps)
