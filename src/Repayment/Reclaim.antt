-- ===== src/Repayment/Reclaim.antt =====
-- `mark_overdue` and `reclaim_invoice` of repayment/src/lib.rs.
use invofi_contracts.Prelude.{◌||◌, none, some, [], ◌∷◌, leb, ◌==◌}
use invofi_contracts.Prelude.Int.{ℤ, pos, max_ℤ}
use invofi_contracts.Host.Outcome.{
  Address, Symbol, Result, ok, Done, ◌>>=◌, ◌>>◌, contract, unauthorized, invalid_transition,
  invalid_input, panicked, guard, unwrap, Invocation, require_auth,
}
use invofi_contracts.Host.Machine.{sub_i128, add_u64}
use invofi_contracts.Host.Events.{word, symbol, address, amount}
use invofi_contracts.Common.Types.{
  Invoice, InvoiceStatus, FinancingOffer, OfferStatus, grace_period_secs,
}
use invofi_contracts.Common.Statuses.{is_invoice_status, is_offer_status}
use invofi_contracts.Common.Storage.{publish, assert_not_paused}
use invofi_contracts.Common.Clients.{
  RegistryClient, FinancingClient, InsuranceClient, ReputationClient,
}
use invofi_contracts.Repayment.State.{Repayment, load_penalty_config}
use invofi_contracts.Repayment.Interest.{frozen_base, accrued_penalty}

module _ {W : Type 0} (registry : RegistryClient W) where
  unfoldable pub mark_overdue : Symbol → Repayment → W → Result (Invoice × W)
  mark_overdue invoice_id s w = do
    assert_not_paused s.store
    registry_addr ← unwrap s.registry panicked
    registry.mark_invoice_overdue registry_addr invoice_id w

-- Overdue, and past the grace period.
unfoldable pub assert_reclaimable : Invocation → Invoice → Done
assert_reclaimable c invoice = do
  guard (is_invoice_status invoice.status InvoiceStatus.overdue) (contract invalid_transition)
  deadline ← add_u64 invoice.due_date grace_period_secs
  guard (leb deadline c.now) (contract invalid_transition)

-- The lender's own running offer on this invoice.
unfoldable pub assert_lent : Symbol → Address → FinancingOffer → Done
assert_lent invoice_id lender offer = do
  guard (offer.invoice_id == invoice_id) (contract invalid_input)
  guard (offer.lender == lender) (contract unauthorized)
  guard
      (is_offer_status offer.status OfferStatus.accepted
        || is_offer_status offer.status OfferStatus.financed)
      (contract invalid_transition)

-- `(total_due - offer.amount_repaid).max(0)`
unfoldable pub remaining_due : ℤ → FinancingOffer → Result ℤ
remaining_due total_due offer = do
  difference ← sub_i128 total_due offer.amount_repaid
  ok (max_ℤ difference (pos 0))

module _ {W : Type 0} (insurance : InsuranceClient W) where
  -- Nothing is paid if no insurance contract is configured.
  unfoldable pub insure : Symbol → Address → ℤ → Repayment → W → Result (ℤ × W)
  insure invoice_id lender due s w = elim s.insadd [
    | none ↦ ok (pos 0, w)
    | some insurance_addr ↦ insurance.pay_out insurance_addr invoice_id lender due w
  ]

module _ {W : Type 0} (reputation : ReputationClient W) where
  -- Outcome 1, if a reputation contract is configured.
  unfoldable pub blame : Address → Repayment → W → Result W
  blame originator s w = elim s.repadd [
    | none ↦ ok w
    | some reputation_addr ↦ reputation.record_outcome reputation_addr originator 1 w
  ]

-- What a reclaim has read before it changes anything.
pub record Default : Type 0 where
  pub registry_addr : Address
  pub invoice : Invoice
  pub financing_addr : Address
  pub offer : FinancingOffer

module _ {W : Type 0} (registry : RegistryClient W) (financing : FinancingClient W) where
  -- `reclaim_invoice` up to its last check.
  unfoldable pub read_default :
      Invocation → Symbol → Symbol → Address → Repayment → W → Result Default
  read_default c invoice_id offer_id lender s w = do
    assert_not_paused s.store
    require_auth c lender
    registry_addr ← unwrap s.registry panicked
    invoice ← registry.get_invoice registry_addr invoice_id w
    assert_reclaimable c invoice
    financing_addr ← unwrap s.financing panicked
    offer ← financing.get_offer financing_addr offer_id w
    assert_lent invoice_id lender offer
    ok (record {
      registry_addr = registry_addr;
      invoice = invoice;
      financing_addr = financing_addr;
      offer = offer;
    })

module _ {W : Type 0} (registry : RegistryClient W) (financing : FinancingClient W)
    (insurance : InsuranceClient W) (reputation : ReputationClient W) where
  -- Returns the offer, now in default.
  unfoldable pub reclaim_invoice :
      Invocation
      → Symbol
      → Symbol
      → Address
      → Repayment
      → W
      → Result (FinancingOffer × Repayment × W)
  reclaim_invoice c invoice_id offer_id lender s w = do
    loan ← read_default registry financing c invoice_id offer_id lender s w
    w₁ ← financing.update_offer_status loan.financing_addr offer_id OfferStatus.defaulted w
    (_, w₂) ← registry.repayment_marks_defaulted loan.registry_addr invoice_id w₁
    total_due ← frozen_base loan.offer
    due ← remaining_due total_due loan.offer
    let (penalty_bps, cap_bps) = load_penalty_config s
    let penalty = accrued_penalty c total_due loan.invoice.due_date penalty_bps cap_bps
    (payout, w₃) ← insure insurance invoice_id loan.offer.lender due s w₂
    w₄ ← blame reputation loan.invoice.originator s w₃
    ok (
      record (loan.offer) { status = OfferStatus.defaulted },
      record s {
        store =
            publish (word "off_def" ∷ symbol loan.offer.id ∷ [])
              (symbol loan.offer.invoice_id
                ∷ address loan.offer.lender
                ∷ amount payout
                ∷ amount penalty
                ∷ [])
              s.store;
      },
      w₄,
    )
