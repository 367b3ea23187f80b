-- ===== src/Repayment/Payoff.antt =====
-- What a successful `repay_invoice` of repayment/src/lib.rs records and reports.
use invofi_contracts.Prelude.{
  ℕ, ◌+◌, ◌≡◌, ◌⊎◌, inl, inr, refl, sym, ap, ◌∙◌, ◌↔◌, Bool, true, [], ◌∷◌, ◌++◌, Bool-cases,
  ==_refl, ◌==◌, if◌then◌else◌, arith,
}
use invofi_contracts.Prelude.Lists.{length}
use invofi_contracts.Prelude.Int.{ℤ, pos, ◌≤ℤ◌, ◌<ℤ◌, ◌+ℤ◌, ◌-ℤ◌, ◌*ℤ◌, quot, min_ℤ, leb_ℤ}
use invofi_contracts.Prelude.Maps.{ℕ_key, ℕ_eq}
use invofi_contracts.Host.Outcome.{Address, Symbol, ok, Invocation, >>=-eq-ok}
use invofi_contracts.Common.Types.{Invoice, OfferStatus}
use invofi_contracts.Common.Clients.{Token, RegistryClient, FinancingClient, ReputationClient}
use invofi_contracts.Repayment.State.{Repayment, load_payments, save_payments}
use invofi_contracts.Repayment.Repay.{Reading, read_repayment, take_payment, repay_invoice}
use invofi_contracts.Repayment.Owed.{Split}
use invofi_contracts.Repayment.Settled.{
  read_repayment-Checked, take_payment-Taken, close_payment-Closed,
}
use invofi_contracts.Repayment.Loans.{IsRead, Checked-IsRead}
use invofi_contracts.Repayment.Payments.{
  split_payment_parts, obligation_parts, record_payment_history, load_payments-saved,
  load_payments-stored,
}
use invofi_contracts.Repayment.Cleared.{
  payment_of, cleared, interest_nonneg, principal_nonneg, sums, IsFeePaid, collect_lender,
  exact_difference, publish_payment_admin, update_offer_first,
}

module _ {W : Type 0} (token : Token W) (registry : RegistryClient W)
    (financing : FinancingClient W) (reputation : ReputationClient W) where
  -- A successful `repay_invoice` of a positive amount has read the invoice from the configured registry
  -- and the offer from the configured financing contract, and what is owed on that offer follows from
  -- the two and from the payments so far. It divides the amount twice without a remainder: into
  -- interest, which is the accrued interest or the whole amount if that is less, and principal, both
  -- not negative; and into the lender's share and the fee. In the token registered for the offer's
  -- currency it transfers the lender's share to the offer's lender, and then the fee, if there is one,
  -- to the recipient that the registry names. It appends one record of the payment, numbered one more
  -- than the payments before, to the history of the invoice; every other history stays as it was.
  pub repay_invoice_lem :
      (c : Invocation) (invoice_id offer_id : Symbol) (repayer : Address) (amt : ℤ) (s : Repayment)
      (w : W) {invoice' : Invoice} {s' : Repayment} {w' : W}
      → repay_invoice token registry financing reputation c invoice_id offer_id repayer amt s w
        ≡ ok (invoice', s', w')
      → (loan : Reading) × (fee_bps : ℕ) × (parts : Split) × (w₁ w₂ : W) × IsRead registry financing
          c invoice_id offer_id s w loan
        × (pos 0 <ℤ amt)
        × (financing.get_fee_bps loan.financing_addr w ≡ ok fee_bps)
        × (parts.interest ≡ min_ℤ amt loan.owed.interest)
        × (pos 0 ≤ℤ parts.interest)
        × (pos 0 ≤ℤ parts.principal)
        × (parts.interest +ℤ parts.principal ≡ amt)
        × (parts.fee ≡ quot (amt *ℤ pos fee_bps) (pos 10000))
        × (parts.fee +ℤ parts.lender ≡ amt)
        × (token.transfer loan.token_addr repayer loan.offer.lender parts.lender w ≡ ok w₁)
        × IsFeePaid token registry loan.token_addr loan.registry_addr repayer parts.fee w₁ w₂
        × (load_payments invoice_id s'
            ≡ load_payments invoice_id s
              ++ payment_of c repayer amt parts (length (load_payments invoice_id s) + 1) ∷ [])
        × ((j : Symbol) → (j ≡ invoice_id) ⊎ (load_payments j s' ≡ load_payments j s))
  unfolding repay_invoice
  repay_invoice_lem c invoice_id offer_id repayer amt s w {invoice'} {s'} h₀ =
      let (loan, r, h₁) =
        >>=-eq-ok (read_repayment registry financing c invoice_id offer_id repayer amt s w) _ h₀ in
      let (out, e, h₂) =
        >>=-eq-ok (take_payment token registry financing c invoice_id repayer amt loan s w) _ h₁ in
      let read =
        read_repayment-Checked registry financing c invoice_id offer_id repayer amt s w r in
      let positive : pos 0 <ℤ amt = ground (arith, read.positive) in
      let accrued = (obligation_parts c invoice_id loan.invoice loan.offer s read.computed).2 in
      let t = take_payment-Taken token registry financing c invoice_id repayer amt loan s w e in
      let k =
        close_payment-Closed registry financing reputation c invoice_id offer_id amt loan out.0
          out.1 out.2 h₂ in
      let (interest, principal, fee, lender) =
        split_payment_parts loan.owed amt t.fee_bps t.divided in
      let (w₁, paid, charged) =
        collect_lender token registry loan.token_addr loan.registry_addr repayer loan.offer out.0 w
          t.collected in
      let history = record_payment_history c invoice_id repayer amt out.0 s t.recorded in
      let after = λ (j : Symbol).
        ((ap (load_payments j) k.state ∙ load_payments-stored j out.1 _)
          ∙ ap (load_payments j) history)
        ∙ load_payments-saved invoice_id j _ s in
      (
        loan,
        t.fee_bps,
        out.0,
        w₁,
        out.2,
        Checked-IsRead registry financing c invoice_id offer_id repayer amt s w read,
        positive,
        t.fee_read,
        interest,
        interest_nonneg amt loan.owed.interest positive accrued interest,
        principal_nonneg amt loan.owed.interest interest principal,
        sums amt out.0.interest principal,
        fee,
        sums amt out.0.fee lender,
        paid,
        charged,
        after invoice_id ∙ rw (==_refl invoice_id) refl,
        λ j. elim (Bool-cases (invoice_id == j)) [
          | inl same ↦ inl (sym (ℕ_eq invoice_id j same))
          | inr other ↦ inr (after j ∙ rw other refl)
        ],
      )

  -- A successful `repay_invoice` marks the offer as repaid in the financing contract, and the invoice
  -- as fully repaid in the registry, exactly when the amount covers the remaining principal and the
  -- accrued interest, whatever the penalty; otherwise it marks the offer as financed. The principal
  -- and the interest are those of the offer that the configured financing contract reports, on the
  -- invoice that the configured registry reports, after the payments so far.
  pub repay_invoice_payoff :
      (c : Invocation) (invoice_id offer_id : Symbol) (repayer : Address) (amt : ℤ) (s : Repayment)
      (w : W) {invoice' : Invoice} {s' : Repayment} {w' : W}
      → repay_invoice token registry financing reputation c invoice_id offer_id repayer amt s w
        ≡ ok (invoice', s', w')
      → (loan : Reading) × (fully_repaid : Bool) × (w₁ w₂ w₃ w₄ : W) × (marked : Invoice) × IsRead
          registry financing c invoice_id offer_id s w loan
        × ((fully_repaid ≡ true) ↔ (loan.owed.remaining +ℤ loan.owed.interest ≤ℤ amt))
        × (financing.update_offer_status loan.financing_addr offer_id
              (if fully_repaid then OfferStatus.repaid else OfferStatus.financed)
              w₁
            ≡ ok w₂)
        × (registry.repayment_marks_invoice_repaid loan.registry_addr invoice_id fully_repaid w₃
            ≡ ok (marked, w₄))
  unfolding repay_invoice
  repay_invoice_payoff c invoice_id offer_id repayer amt s w {invoice'} {s'} h₀ =
      let (loan, r, h₁) =
        >>=-eq-ok (read_repayment registry financing c invoice_id offer_id repayer amt s w) _ h₀ in
      let (out, e, h₂) =
        >>=-eq-ok (take_payment token registry financing c invoice_id repayer amt loan s w) _ h₁ in
      let read =
        read_repayment-Checked registry financing c invoice_id offer_id repayer amt s w r in
      let t = take_payment-Taken token registry financing c invoice_id repayer amt loan s w e in
      let k =
        close_payment-Closed registry financing reputation c invoice_id offer_id amt loan out.0
          out.1 out.2 h₂ in
      let positive = (obligation_parts c invoice_id loan.invoice loan.offer s read.computed).1 in
      let (interest, principal, _, _) = split_payment_parts loan.owed amt t.fee_bps t.divided in
      let left : k.left ≡ loan.owed.remaining -ℤ (amt -ℤ min_ℤ amt loan.owed.interest) =
        exact_difference loan.owed.remaining out.0.principal k.lowered
        ∙ ap (λ x. loan.owed.remaining -ℤ x) (principal ∙ ap (λ x. amt -ℤ x) interest) in
      let (u₁, u₂, status) =
        update_offer_first financing loan.financing_addr offer_id loan.offer (leb_ℤ k.left (pos 0))
          amt out.0 out.2 k.updated in
      (
        loan,
        leb_ℤ k.left (pos 0),
        u₁,
        u₂,
        k.w₁,
        k.marked.1,
        k.marked.0,
        Checked-IsRead registry financing c invoice_id offer_id repayer amt s w read,
        cleared loan.owed.remaining amt loan.owed.interest positive left,
        status,
        k.mark,
      )

  -- A repayment changes only the histories and the event log.
  pub repay_invoice_frame :
      (c : Invocation) (invoice_id offer_id : Symbol) (repayer : Address) (amt : ℤ) (s : Repayment)
      (w : W) {invoice' : Invoice} {s' : Repayment} {w' : W}
      → repay_invoice token registry financing reputation c invoice_id offer_id repayer amt s w
        ≡ ok (invoice', s', w')
      → (s'.penbps ≡ s.penbps) × (s'.pencap ≡ s.pencap) × (s'.store.admcfg ≡ s.store.admcfg)
  unfolding repay_invoice save_payments
  repay_invoice_frame c invoice_id offer_id repayer amt s w {invoice'} {s'} h₀ =
      let (loan, r, h₁) =
        >>=-eq-ok (read_repayment registry financing c invoice_id offer_id repayer amt s w) _ h₀ in
      let (out, e, h₂) =
        >>=-eq-ok (take_payment token registry financing c invoice_id repayer amt loan s w) _ h₁ in
      let t = take_payment-Taken token registry financing c invoice_id repayer amt loan s w e in
      let k =
        close_payment-Closed registry financing reputation c invoice_id offer_id amt loan out.0
          out.1 out.2 h₂ in
      let history = record_payment_history c invoice_id repayer amt out.0 s t.recorded in
      (
        ap (λ x. x.penbps) k.state ∙ ap (λ x. x.penbps) history,
        ap (λ x. x.pencap) k.state ∙ ap (λ x. x.pencap) history,
        (ap (λ x. x.store.admcfg) k.state
              ∙ publish_payment_admin _ _ (leb_ℤ k.left (pos 0)) _ _ _ _)
            ∙ ap (λ x. x.store.admcfg) history,
      )
