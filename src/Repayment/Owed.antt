-- ===== src/Repayment/Owed.antt =====
-- The guards of `repay_invoice` of repayment/src/lib.rs, what is owed, and how a payment is divided.
use invofi_contracts.Prelude.{ℕ, not, ◌&&◌, ◌||◌, ◌==◌}
use invofi_contracts.Prelude.Int.{ℤ, pos, leb_ℤ, ltb_ℤ, quot, min_ℤ}
use invofi_contracts.Host.Outcome.{
  Symbol, Result, ok, Done, ◌>>=◌, ◌>>◌, contract, invalid_transition, invalid_input,
  insufficient_balance, guard, Invocation,
}
use invofi_contracts.Host.Machine.{add_i128, sub_i128, mul_i128}
use invofi_contracts.Common.Types.{Invoice, InvoiceStatus, FinancingOffer, OfferStatus}
use invofi_contracts.Common.Statuses.{is_invoice_status, is_offer_status}
use invofi_contracts.Repayment.State.{Repayment, load_payments, min_partial_payment_bps}
use invofi_contracts.Repayment.Interest.{
  pro_rata_interest, days_since_funded, remaining_principal, penalty_due,
}

-- The two checks of an invoice's status.
unfoldable pub assert_financed : Invoice → Done
assert_financed invoice = do
  guard (not (is_invoice_status invoice.status InvoiceStatus.repaid)) (contract invalid_transition)
  guard (is_invoice_status invoice.status InvoiceStatus.financed) (contract invalid_transition)

-- The offer is on this invoice, and its loan is running.
unfoldable pub assert_running : Symbol → FinancingOffer → Done
assert_running invoice_id offer = do
  guard (offer.invoice_id == invoice_id) (contract invalid_input)
  guard (not (is_offer_status offer.status OfferStatus.repaid)) (contract invalid_transition)
  guard
      (is_offer_status offer.status OfferStatus.accepted
        || is_offer_status offer.status OfferStatus.financed)
      (contract invalid_transition)

-- What is owed on an offer now.
pub record Obligation : Type 0 where
  pub remaining : ℤ
  pub interest : ℤ
  pub penalty : ℤ
  pub total : ℤ

unfoldable pub obligation :
    Invocation → Symbol → Invoice → FinancingOffer → Repayment → Result Obligation
obligation c invoice_id invoice offer s = do
  remaining ← remaining_principal offer (load_payments invoice_id s)
  guard (ltb_ℤ (pos 0) remaining) (contract invalid_transition)
  days ← days_since_funded c offer
  let interest = pro_rata_interest remaining offer.interest_rate days
  penalty ← penalty_due c offer invoice s
  partial ← add_i128 remaining interest
  total ← add_i128 partial penalty
  ok (record { remaining = remaining; interest = interest; penalty = penalty; total = total })

-- The minimum payment, from which a payment of all that is owed is exempt, and the maximum.
unfoldable pub assert_payable : FinancingOffer → Obligation → ℤ → Done
assert_payable offer owed amt = do
  product ← mul_i128 offer.amount (pos min_partial_payment_bps)
  let min_payment = quot product (pos 10000)
  guard (not (ltb_ℤ amt min_payment && ltb_ℤ amt owed.total)) (contract invalid_input)
  guard (leb_ℤ amt owed.total) (contract insufficient_balance)

-- A payment: interest first, then principal; and the fee that is taken from the whole.
pub record Split : Type 0 where
  pub interest : ℤ
  pub principal : ℤ
  pub fee : ℤ
  pub lender : ℤ

unfoldable pub split_payment : Obligation → ℤ → ℕ → Result Split
unfolding min_ℤ
split_payment owed amt fee_bps = do
  let interest = min_ℤ amt owed.interest
  principal ← sub_i128 amt interest
  product ← mul_i128 amt (pos fee_bps)
  let fee = quot product (pos 10000)
  lender ← sub_i128 amt fee
  ok (record { interest = interest; principal = principal; fee = fee; lender = lender })
