-- ===== src/Repayment/Defaults.antt =====
-- The laws of `reclaim_invoice` of repayment/src/lib.rs.
use invofi_contracts.Prelude.{◌+◌, ◌≤◌, ◌≡◌, ◌⊎◌, sym, ap, ◌∙◌, subst, true, false, some, arith}
use invofi_contracts.Prelude.Int.{ℤ, pos, ◌-ℤ◌, max_ℤ}
use invofi_contracts.Host.Outcome.{
  Address, Symbol, ok, Invocation, not_authorized, >>=-eq-ok, >>-eq-ok, guard-then, unwrap-eq-ok,
  ok-injective,
}
use invofi_contracts.Host.MachineLaws.{add_u64-either, sub_i128-either}
use invofi_contracts.Common.Types.{
  Invoice, InvoiceStatus, FinancingOffer, OfferStatus, grace_period_secs,
}
use invofi_contracts.Common.Storage.{contract_is_paused}
use invofi_contracts.Common.Clients.{
  RegistryClient, FinancingClient, InsuranceClient, ReputationClient,
}
use invofi_contracts.Repayment.State.{Repayment}
use invofi_contracts.Repayment.Interest.{frozen_base}
use invofi_contracts.Repayment.Reclaim.{
  assert_reclaimable, assert_lent, remaining_due, insure, blame, Default, read_default,
  reclaim_invoice,
}
use invofi_contracts.Repayment.Guards.{not_paused}

reclaimable :
    (c : Invocation) (invoice : Invoice)
    → assert_reclaimable c invoice ≡ ok tt
    → (invoice.status ≡ InvoiceStatus.overdue) × (invoice.due_date + grace_period_secs ≤ c.now)
unfolding assert_reclaimable
reclaimable c invoice h = ground (arith, add_u64-either invoice.due_date grace_period_secs)

lent :
    (invoice_id : Symbol) (lender : Address) (offer : FinancingOffer)
    → assert_lent invoice_id lender offer ≡ ok tt
    → (offer.invoice_id ≡ invoice_id)
      × (offer.lender ≡ lender)
      × ((offer.status ≡ OfferStatus.accepted) ⊎ (offer.status ≡ OfferStatus.financed))
unfolding assert_lent
lent invoice_id lender offer h = ground arith

pub remaining_due_exact :
    (total : ℤ) (offer : FinancingOffer) {due : ℤ}
    → remaining_due total offer ≡ ok due
    → due ≡ max_ℤ (total -ℤ offer.amount_repaid) (pos 0)
unfolding remaining_due
remaining_due_exact total offer h = ground (arith, sub_i128-either total offer.amount_repaid)

module _ {W : Type 0} (registry : RegistryClient W) (financing : FinancingClient W) where
  -- What the checks of a reclaim have established.
  pub record IsDefault (c : Invocation) (invoice_id offer_id : Symbol) (lender : Address)
      (s : Repayment) (w : W) (loan : Default) : Type 0 where
    pub running : contract_is_paused s.store ≡ false
    pub authorized : c.auth lender ≡ true
    pub registry_set : s.registry ≡ some loan.registry_addr
    pub found : registry.get_invoice loan.registry_addr invoice_id w ≡ ok loan.invoice
    pub overdue : loan.invoice.status ≡ InvoiceStatus.overdue
    pub late : loan.invoice.due_date + grace_period_secs ≤ c.now
    pub financing_set : s.financing ≡ some loan.financing_addr
    pub read : financing.get_offer loan.financing_addr offer_id w ≡ ok loan.offer
    pub on_invoice : loan.offer.invoice_id ≡ invoice_id
    pub own : loan.offer.lender ≡ lender
    pub live :
        (loan.offer.status ≡ OfferStatus.accepted) ⊎ (loan.offer.status ≡ OfferStatus.financed)

  pub read_default-IsDefault :
      (c : Invocation) (invoice_id offer_id : Symbol) (lender : Address) (s : Repayment) (w : W)
      {loan : Default}
      → read_default registry financing c invoice_id offer_id lender s w ≡ ok loan
      → IsDefault c invoice_id offer_id lender s w loan
  unfolding read_default
  read_default-IsDefault c invoice_id offer_id lender s w {loan} h₀ =
      let (running, h₁) = >>-eq-ok _ _ h₀ in
      let (authorized, h₂) = guard-then (c.auth lender) not_authorized _ h₁ in
      let (ra, registry_set, h₃) = >>=-eq-ok _ _ h₂ in
      let (invoice, found, h₄) = >>=-eq-ok (registry.get_invoice ra invoice_id w) _ h₃ in
      let (overdue, h₅) = >>-eq-ok (assert_reclaimable c invoice) _ h₄ in
      let (fa, financing_set, h₆) = >>=-eq-ok _ _ h₅ in
      let (offer, read, h₇) = >>=-eq-ok (financing.get_offer fa offer_id w) _ h₆ in
      let (own, h₈) = >>-eq-ok (assert_lent invoice_id lender offer) _ h₇ in
      let (status, late) = reclaimable c invoice overdue in
      let (on_invoice, by_lender, live) = lent invoice_id lender offer own in
      subst (IsDefault c invoice_id offer_id lender s w) (ok-injective _ _ h₈) (record {
        running = not_paused s running;
        authorized = authorized;
        registry_set = unwrap-eq-ok _ _ registry_set;
        found = found;
        overdue = status;
        late = late;
        financing_set = unwrap-eq-ok _ _ financing_set;
        read = read;
        on_invoice = on_invoice;
        own = by_lender;
        live = live;
      })

module _ {W : Type 0} (registry : RegistryClient W) (financing : FinancingClient W)
    (insurance : InsuranceClient W) (reputation : ReputationClient W) where
  -- A successful `reclaim_invoice` was authorized by the lender of the offer while the contract was
  -- not paused, on an invoice that the registry reports as Overdue and whose grace period is over,
  -- against a running offer on it. It marks the offer as Defaulted and then the invoice; then it asks
  -- the insurance for what is left of the principal with the flat yield, without the penalty, if an
  -- insurance is configured; then it tells the reputation contract; and it returns the offer, with
  -- the new status.
  pub reclaim_invoice_lem :
      (c : Invocation) (invoice_id offer_id : Symbol) (lender : Address) (s : Repayment) (w : W)
      {offer' : FinancingOffer} {s' : Repayment} {w' : W}
      → reclaim_invoice registry financing insurance reputation c invoice_id offer_id lender s w
        ≡ ok (offer', s', w')
      → (loan : Default) × (w₁ w₂ w₃ : W) × (marked : Invoice) × (total payout : ℤ) × IsDefault
          registry financing c invoice_id offer_id lender s w loan
        × (financing.update_offer_status loan.financing_addr offer_id OfferStatus.defaulted w
            ≡ ok w₁)
        × (registry.repayment_marks_defaulted loan.registry_addr invoice_id w₁ ≡ ok (marked, w₂))
        × (frozen_base loan.offer ≡ ok total)
        × (insure insurance invoice_id loan.offer.lender
              (max_ℤ (total -ℤ loan.offer.amount_repaid) (pos 0))
              s
              w₂
            ≡ ok (payout, w₃))
        × (blame reputation loan.invoice.originator s w₃ ≡ ok w')
        × (offer' ≡ record (loan.offer) { status = OfferStatus.defaulted })
  unfolding reclaim_invoice
  reclaim_invoice_lem c invoice_id offer_id lender s w {offer'} {s'} {w'} h₀ =
      let (loan, e, h₁) =
        >>=-eq-ok (read_default registry financing c invoice_id offer_id lender s w) _ h₀ in
      let k = read_default-IsDefault registry financing c invoice_id offer_id lender s w e in
      let (w₁, status, h₂) =
        >>=-eq-ok
          (financing.update_offer_status loan.financing_addr offer_id OfferStatus.defaulted w) _
          h₁ in
      let (marked, mark, h₃) =
        >>=-eq-ok (registry.repayment_marks_defaulted loan.registry_addr invoice_id w₁) _ h₂ in
      let (total, base, h₄) = >>=-eq-ok (frozen_base loan.offer) _ h₃ in
      let (due, left, h₅) = >>=-eq-ok (remaining_due total loan.offer) _ h₄ in
      let (paid, payout, h₆) =
        >>=-eq-ok (insure insurance invoice_id loan.offer.lender due s marked.1) _ h₅ in
      let (w₄, told, h₇) = >>=-eq-ok (blame reputation loan.invoice.originator s paid.1) _ h₆ in
      let done = ok-injective _ _ h₇ in
      (
        loan,
        w₁,
        marked.1,
        paid.1,
        marked.0,
        total,
        paid.0,
        k,
        status,
        mark,
        base,
        subst (λ d. insure insurance invoice_id loan.offer.lender d s marked.1 ≡ ok paid)
            (remaining_due_exact total loan.offer left) payout,
        told ∙ ap ok (ap (λ x. x.2) done),
        sym (ap (λ x. x.0) done),
      )
