-- ===== src/Repayment/Guards.antt =====
-- What a successful `repay_invoice` of repayment/src/lib.rs has checked.
use invofi_contracts.Prelude.{◌≡◌, ◌⊎◌, true, false, some, ==→≡, arith}
use invofi_contracts.Prelude.Int.{ℤ, pos, ◌≤ℤ◌, ◌<ℤ◌, ◌*ℤ◌, ◌+ℤ◌, quot}
use invofi_contracts.Host.Outcome.{Address, Symbol, ok, Invocation, >>=-eq-ok}
use invofi_contracts.Host.MachineLaws.{mul_i128-either}
use invofi_contracts.Common.Types.{Invoice, InvoiceStatus, FinancingOffer, OfferStatus}
use invofi_contracts.Common.Storage.{contract_is_paused, assert_not_paused}
use invofi_contracts.Common.Clients.{Token, RegistryClient, FinancingClient, ReputationClient}
use invofi_contracts.Repayment.State.{Repayment}
use invofi_contracts.Repayment.Repay.{Reading, read_repayment, repay_invoice}
use invofi_contracts.Repayment.Owed.{
  assert_financed, assert_running, Obligation, obligation, assert_payable,
}
use invofi_contracts.Repayment.Settled.{read_repayment-Checked}
use invofi_contracts.Repayment.Payments.{obligation_parts}

pub not_paused :
    (s : Repayment) → assert_not_paused s.store ≡ ok tt → contract_is_paused s.store ≡ false
unfolding assert_not_paused
not_paused s h = ground arith

financed_status :
    (invoice : Invoice) → assert_financed invoice ≡ ok tt → invoice.status ≡ InvoiceStatus.financed
unfolding assert_financed
financed_status invoice h = ground arith

running_offer :
    (invoice_id : Symbol) (offer : FinancingOffer)
    → assert_running invoice_id offer ≡ ok tt
    → (offer.invoice_id ≡ invoice_id)
      × ((offer.status ≡ OfferStatus.accepted) ⊎ (offer.status ≡ OfferStatus.financed))
unfolding assert_running
running_offer invoice_id offer h = ground arith

-- At least a hundredth of the amount lent, rounded down, or all that is owed.
payable_amount :
    (offer : FinancingOffer) (owed : Obligation) (amt : ℤ)
    → assert_payable offer owed amt ≡ ok tt
    → (amt ≤ℤ owed.total)
      × ((quot (offer.amount *ℤ pos 100) (pos 10000) ≤ℤ amt) ⊎ (owed.total ≤ℤ amt))
unfolding assert_payable
payable_amount offer owed amt h = ground (arith, mul_i128-either offer.amount (pos 100))

module _ {W : Type 0} (token : Token W) (registry : RegistryClient W)
    (financing : FinancingClient W) (reputation : ReputationClient W) where
  -- A successful `repay_invoice` was authorized by the repayer while the contract was not paused, on
  -- an invoice that the configured registry reports as the repayer's own and Financed, against an
  -- offer on that invoice that the financing contract reports as Accepted or Financed, for a positive
  -- amount that is at most what is owed (a remaining principal that is positive, with the interest
  -- and the penalty), and at least a hundredth of the amount lent unless it pays all that is owed.
  pub repay_invoice_guarded :
      (c : Invocation) (invoice_id offer_id : Symbol) (repayer : Address) (amt : ℤ) (s : Repayment)
      (w : W) {invoice' : Invoice} {s' : Repayment} {w' : W}
      → repay_invoice token registry financing reputation c invoice_id offer_id repayer amt s w
        ≡ ok (invoice', s', w')
      → (contract_is_paused s.store ≡ false)
        × (c.auth repayer ≡ true)
        × ((loan : Reading) × (s.registry ≡ some loan.registry_addr)
            × (registry.get_invoice loan.registry_addr invoice_id w ≡ ok loan.invoice)
            × (loan.invoice.originator ≡ repayer)
            × (loan.invoice.status ≡ InvoiceStatus.financed)
            × (s.financing ≡ some loan.financing_addr)
            × (financing.get_offer loan.financing_addr offer_id w ≡ ok loan.offer)
            × (loan.offer.invoice_id ≡ invoice_id)
            × ((loan.offer.status ≡ OfferStatus.accepted)
                ⊎ (loan.offer.status ≡ OfferStatus.financed))
            × (obligation c invoice_id loan.invoice loan.offer s ≡ ok loan.owed)
            × (pos 0 <ℤ loan.owed.remaining)
            × (loan.owed.total ≡ loan.owed.remaining +ℤ loan.owed.interest +ℤ loan.owed.penalty)
            × (pos 0 <ℤ amt)
            × (amt ≤ℤ loan.owed.total)
            × ((quot (loan.offer.amount *ℤ pos 100) (pos 10000) ≤ℤ amt) ⊎ (loan.owed.total ≤ℤ amt)))
  unfolding repay_invoice
  repay_invoice_guarded c invoice_id offer_id repayer amt s w h =
      let (loan, e, _) =
        >>=-eq-ok (read_repayment registry financing c invoice_id offer_id repayer amt s w) _ h in
      let k = read_repayment-Checked registry financing c invoice_id offer_id repayer amt s w e in
      let (on_invoice, running) = running_offer invoice_id loan.offer k.live in
      let owed = obligation_parts c invoice_id loan.invoice loan.offer s k.computed in
      let (most, least) = payable_amount loan.offer loan.owed amt k.payable in
      (
        not_paused s k.running,
        k.authorized,
        (
          loan,
          k.registry_set,
          k.found,
          ==→≡ _ _ k.own,
          financed_status loan.invoice k.financed,
          k.financing_set,
          k.read,
          on_invoice,
          running,
          k.computed,
          owed.1,
          owed.4,
          ground (arith, k.positive),
          most,
          least,
        ),
      )
