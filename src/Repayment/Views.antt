-- ===== src/Repayment/Views.antt =====
-- The read-only entry points of repayment/src/lib.rs.
use invofi_contracts.Prelude.{ℕ, Bool, ◌||◌, Option, List, if◌then◌else◌}
use invofi_contracts.Prelude.Int.{ℤ, pos, max_ℤ}
use invofi_contracts.Host.Outcome.{Address, Symbol, Result, ok, ◌>>=◌, panicked, unwrap, Invocation}
use invofi_contracts.Host.Machine.{add_i128}
use invofi_contracts.Common.Types.{FinancingOffer, OfferStatus, PaymentRecord}
use invofi_contracts.Common.Domain.{min_offer_duration_secs, max_offer_duration_secs}
use invofi_contracts.Common.Statuses.{is_offer_status}
use invofi_contracts.Common.Clients.{RegistryClient, FinancingClient}
use invofi_contracts.Repayment.State.{Repayment, load_payments, load_penalty_config}
use invofi_contracts.Repayment.Interest.{
  pro_rata_interest, days_since_funded, remaining_principal, penalty_due,
}

unfoldable pub get_insurance : Repayment → Option Address
get_insurance s = s.insadd

unfoldable pub get_reputation : Repayment → Option Address
get_reputation s = s.repadd

unfoldable pub get_penalty_bps : Repayment → ℕ
unfolding load_penalty_config
get_penalty_bps s = (load_penalty_config s).0

unfoldable pub get_penalty_cap_bps : Repayment → ℕ
unfolding load_penalty_config
get_penalty_cap_bps s = (load_penalty_config s).1

unfoldable pub get_payment_history : Symbol → Repayment → List PaymentRecord
unfolding load_payments
get_payment_history invoice_id s = load_payments invoice_id s

unfoldable pub get_duration_limits : ℕ × ℕ
get_duration_limits = (min_offer_duration_secs, max_offer_duration_secs)

-- Repaid or in default.
abbrev pub is_terminal : OfferStatus → Bool
is_terminal status =
    is_offer_status status OfferStatus.repaid || is_offer_status status OfferStatus.defaulted

module _ {W : Type 0} (financing : FinancingClient W) where
  -- The offer, as every view reads it.
  unfoldable pub load_offer : Symbol → Repayment → W → Result FinancingOffer
  load_offer offer_id s w = do
    financing_addr ← unwrap s.financing panicked
    financing.get_offer financing_addr offer_id w

  unfoldable pub get_installment_due : Symbol → Repayment → W → Result ℕ
  get_installment_due offer_id s w = do
    financing_addr ← unwrap s.financing panicked
    financing.get_installment_due financing_addr offer_id w

  unfoldable pub get_remaining_principal : Symbol → Repayment → W → Result ℤ
  get_remaining_principal offer_id s w = do
    offer ← load_offer offer_id s w
    if is_terminal offer.status
        then ok (pos 0)
        else remaining_principal offer (load_payments offer.invoice_id s)

  unfoldable pub calculate_accrued_interest : Invocation → Symbol → Repayment → W → Result ℤ
  calculate_accrued_interest c offer_id s w = do
    offer ← load_offer offer_id s w
    if is_terminal offer.status then ok (pos 0) else (do
      remaining ← remaining_principal offer (load_payments offer.invoice_id s)
      days ← days_since_funded c offer
      ok (pro_rata_interest remaining offer.interest_rate days))

module _ {W : Type 0} (registry : RegistryClient W) (financing : FinancingClient W) where
  unfoldable pub penalty_for_offer : Invocation → FinancingOffer → Repayment → W → Result ℤ
  penalty_for_offer c offer s w = do
    registry_addr ← unwrap s.registry panicked
    invoice ← registry.get_invoice registry_addr offer.invoice_id w
    penalty_due c offer invoice s

  unfoldable pub calculate_penalty : Invocation → Symbol → Repayment → W → Result ℤ
  calculate_penalty c offer_id s w = do
    offer ← load_offer financing offer_id s w
    if is_terminal offer.status then ok (pos 0) else penalty_for_offer c offer s w

  unfoldable pub calculate_total_due : Invocation → Symbol → Repayment → W → Result ℤ
  calculate_total_due c offer_id s w = do
    offer ← load_offer financing offer_id s w
    if is_terminal offer.status then ok (pos 0) else (do
      remaining ← remaining_principal offer (load_payments offer.invoice_id s)
      days ← days_since_funded c offer
      let interest = pro_rata_interest remaining offer.interest_rate days
      penalty ← penalty_for_offer c offer s w
      partial ← add_i128 remaining interest
      total ← add_i128 partial penalty
      ok (max_ℤ total (pos 0)))
