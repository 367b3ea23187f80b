-- ===== src/Protocol/Repaying.antt =====
-- `repay_invoice` of repayment/src/lib.rs with the contract of financing/src/lib.rs behind it.
use invofi_contracts.Prelude.{◌≡◌, sym, ap, ◌∙◌, subst, some, if◌then◌else◌}
use invofi_contracts.Prelude.Int.{ℤ, pos, ◌+ℤ◌, ◌-ℤ◌, min_ℤ, leb_ℤ}
use invofi_contracts.Prelude.Maps.{ℕ_key, get}
use invofi_contracts.Host.Outcome.{Address, Symbol, ok, Invocation, >>=-eq-ok}
use invofi_contracts.Common.Types.{Invoice, OfferStatus}
use invofi_contracts.Common.Clients.{Token, RegistryClient, ReputationClient}
use invofi_contracts.Financing.State.{Financing}
use invofi_contracts.Financing.Books.{IsBooked}
use invofi_contracts.Repayment.State.{Repayment}
use invofi_contracts.Repayment.Repay.{Reading, read_repayment, take_payment, repay_invoice}
use invofi_contracts.Repayment.Loans.{IsRead, Checked-IsRead}
use invofi_contracts.Repayment.Settled.{read_repayment-Checked, close_payment-Closed}
use invofi_contracts.Repayment.Cleared.{exact_difference}
use invofi_contracts.Protocol.Links.{
  beside-kept, lift_registry, lift_reputation, lift_token, financing_client,
}
use invofi_contracts.Protocol.Crediting.{update_offer_stored}
use invofi_contracts.Protocol.Collecting.{reward-kept, nothing_more, offer_read, take_payment-whole}

module _ {U : Type 0} (token : Token U) (registry : RegistryClient U)
    (reputation : ReputationClient U) where
  -- A successful `repay_invoice` with the modelled financing contract behind it, whose statistics are
  -- in order, is on the offer stored there and on the invoice that the registry reports, and takes no
  -- protocol fee: in the token registered for the offer's currency the whole amount is transferred to
  -- the offer's lender. The stored offer becomes Repaid if the payment leaves nothing of the principal
  -- that the payments before it left, and Financed otherwise, and its amount_repaid grows by what the
  -- payment exceeds the interest accrued since the offer was funded; the protocol's total repaid grows
  -- by the amount, its fee revenue does not; and the statistics stay in order.
  pub repay_invoice-IsBooked :
      (c : Invocation) (invoice_id offer_id : Symbol) (repayer : Address) (amt : ℤ) (s : Repayment)
      (fin : Financing) (u : U) {invoice' : Invoice} {s' : Repayment} {fin' : Financing} {u' : U}
      → IsBooked fin
      → repay_invoice
          (lift_token token)
          (lift_registry registry)
          (financing_client c)
          (lift_reputation reputation)
          c
          invoice_id
          offer_id
          repayer
          amt
          s
          (fin, u)
        ≡ ok (invoice', s', (fin', u'))
      → (loan : Reading) × (principal left : ℤ) × (u₁ : U) × IsRead
          (lift_registry registry)
          (financing_client c)
          c
          invoice_id
          offer_id
          s
          (fin, u)
          loan
        × (get offer_id fin.offers ≡ some loan.offer)
        × (token.transfer loan.token_addr repayer loan.offer.lender amt u ≡ ok u₁)
        × (min_ℤ amt loan.owed.interest +ℤ principal ≡ amt)
        × (left ≡ loan.owed.remaining -ℤ principal)
        × (get offer_id fin'.offers
            ≡ some (record (loan.offer) {
              status = if leb_ℤ left (pos 0) then OfferStatus.repaid else OfferStatus.financed;
              amount_repaid = loan.offer.amount_repaid +ℤ principal;
            }))
        × (fin'.stats.total_repaid ≡ fin.stats.total_repaid +ℤ amt)
        × (fin'.stats.total_fee_revenue ≡ fin.stats.total_fee_revenue)
        × IsBooked fin'
  unfolding repay_invoice
  repay_invoice-IsBooked c invoice_id offer_id repayer amt s fin u {invoice'} {s'} {fin'} {u'} b
        h₀ =
      let tok = lift_token token in
      let reg = lift_registry registry in
      let rep = lift_reputation reputation in
      let fc = financing_client c in
      let (loan, r, h₁) =
        >>=-eq-ok (read_repayment reg fc c invoice_id offer_id repayer amt s (fin, u)) _ h₀ in
      let (out, e, h₂) =
        >>=-eq-ok (take_payment tok reg fc c invoice_id repayer amt loan s (fin, u)) _ h₁ in
      let checks = read_repayment-Checked reg fc c invoice_id offer_id repayer amt s (fin, u) r in
      let k = close_payment-Closed reg fc rep c invoice_id offer_id amt loan out.0 out.1 out.2 h₂ in
      let (kept, no_charge, parts, (u₁, paid)) =
        take_payment-whole token registry c invoice_id repayer amt loan s fin u b e in
      let found = offer_read c loan.financing_addr offer_id (fin, u) checks.read in
      let (b₁, stored, repaid, revenue) =
        update_offer_stored c loan.financing_addr offer_id loan.offer (leb_ℤ k.left (pos 0)) amt
          out.0 out.2 (ap (λ x. get offer_id x.offers) kept ∙ found) k.updated
          (subst IsBooked (sym kept) b) in
      let last : fin' ≡ k.w₁.0 =
        reward-kept reputation (leb_ℤ k.left (pos 0)) loan.invoice.originator out.1 k.marked.1
          k.rewarded
        ∙ beside-kept k.w₁.0 _ k.mark in
      (
        loan,
        out.0.principal,
        k.left,
        u₁,
        Checked-IsRead reg fc c invoice_id offer_id repayer amt s (fin, u) checks,
        found,
        paid,
        parts,
        exact_difference loan.owed.remaining out.0.principal k.lowered,
        ap (λ x. get offer_id x.offers) last ∙ stored,
        ap (λ x. x.stats.total_repaid) last ∙ (repaid ∙ ap (λ x. x.stats.total_repaid +ℤ amt) kept),
        ap (λ x. x.stats.total_fee_revenue) last
            ∙ ((revenue ∙ ap (λ x. x.stats.total_fee_revenue +ℤ out.0.fee) kept)
                ∙ (ap (λ z. fin.stats.total_fee_revenue +ℤ z) no_charge ∙ nothing_more _)),
        subst IsBooked (sym last) b₁,
      )
