-- ===== src/Protocol/Defaulting.antt =====
-- `reclaim_invoice` of repayment/src/lib.rs with the pool of insurance/src/lib.rs behind it.
use invofi_contracts.Prelude.{◌≡◌, subst, sym, ap, ◌∙◌, some, inl, inr, Option-cases}
use invofi_contracts.Prelude.Int.{ℤ, pos, ◌-ℤ◌, min_ℤ, max_ℤ}
use invofi_contracts.Host.Outcome.{Address, Symbol, ok, Invocation, >>=-eq-ok, ok-injective}
use invofi_contracts.Common.Types.{Invoice, FinancingOffer, OfferStatus}
use invofi_contracts.Common.Clients.{Token, RegistryClient, FinancingClient, ReputationClient}
use invofi_contracts.Repayment.State.{Repayment}
use invofi_contracts.Prelude.Int.{◌+ℤ◌, ◌*ℤ◌, quot}
use invofi_contracts.Repayment.Loans.{base_exact}
use invofi_contracts.Repayment.Reclaim.{insure, blame, Default, reclaim_invoice}
use invofi_contracts.Repayment.Defaults.{IsDefault, reclaim_invoice_lem}
use invofi_contracts.Insurance.State.{Insurance}
use invofi_contracts.Insurance.Payout.{pay_out}
use invofi_contracts.Insurance.FlatBalance.{IsBalanced}
use invofi_contracts.Insurance.Transfers.{IsPaid}
use invofi_contracts.Insurance.FlatPayout.{pay_out_amount}
use invofi_contracts.Protocol.Links.{
  nested, beside-kept, beside_done-kept, beside_done-called, beside-called, lift_registry,
  lift_financing, lift_reputation, insurance_client,
}

module _ {U : Type 0} (token : Token U) (registry : RegistryClient U) where
  -- The payout hook reaches the pool's `pay_out`.
  insured :
      (c : Invocation) (invoice_id : Symbol) (lender : Address) (due : ℤ) (s : Repayment)
      {insurance_addr : Address} (w : Insurance × U) {payout : ℤ} {w' : Insurance × U}
      → s.insadd ≡ some insurance_addr
      → insure (insurance_client token registry c) invoice_id lender due s w ≡ ok (payout, w')
      → pay_out token registry (nested c insurance_addr) invoice_id lender due w.0 w.1
        ≡ ok (payout, w'.0, w'.1)
  unfolding insure insurance_client
  insured c invoice_id lender due s {insurance_addr} w configured h =
      let (x, e, k) =
        >>=-eq-ok (pay_out token registry (nested c insurance_addr) invoice_id lender due w.0 w.1) _
          (rw configured at h) in
      e ∙ ap (λ y. ok (y.0, y.1.0, y.1.1)) (ok-injective _ _ k)

-- What the calls beside the pool have read.
default_beside :
    {U : Type 0} (registry : RegistryClient U) (financing : FinancingClient U) (c : Invocation)
    (invoice_id offer_id : Symbol) (lender : Address) (s : Repayment) (pool : Insurance) (u : U)
    {loan : Default}
    → IsDefault
        (lift_registry registry)
        (lift_financing financing)
        c
        invoice_id
        offer_id
        lender
        s
        (pool, u)
        loan
    → IsDefault registry financing c invoice_id offer_id lender s u loan
default_beside registry financing c invoice_id offer_id lender s pool u k = record {
  running = k.running;
  authorized = k.authorized;
  registry_set = k.registry_set;
  found = k.found;
  overdue = k.overdue;
  late = k.late;
  financing_set = k.financing_set;
  read = k.read;
  on_invoice = k.on_invoice;
  own = k.own;
  live = k.live;
}

-- The reputation contract leaves the pool alone, and is called on the rest.
blame-beside :
    {U : Type 0} (reputation : ReputationClient U) (originator : Address) (s : Repayment)
    (w : Insurance × U) {w' : Insurance × U}
    → blame (lift_reputation reputation) originator s w ≡ ok w'
    → (w'.0 ≡ w.0) × (blame reputation originator s w.1 ≡ ok w'.1)
unfolding blame
blame-beside reputation originator s w h = elim (Option-cases s.repadd) [
  | inl unset ↦
      let same = ok-injective _ _ (rw unset at h) in
      (sym (ap (λ x. x.0) same), rw unset (ap (λ x. ok (x.1)) same))
  | inr (addr, set) ↦
      let called = rw set at h in
      (beside_done-kept w.0 _ called, rw set (beside_done-called w.0 _ called))
]

module _ {U : Type 0} (token : Token U) (registry : RegistryClient U)
    (financing : FinancingClient U) (reputation : ReputationClient U) where
  -- A successful `reclaim_invoice`, with the modelled pool as its configured insurance, has read the
  -- overdue invoice from the configured registry and the lender's own running offer on it from the
  -- configured financing contract. The pool pays the lender exactly the smaller of what is left of
  -- that offer's principal and flat yield and what the pool holds, by a transfer of its token out of
  -- its own account; the pool's total falls by that, and the pool stays balanced. This transfer comes
  -- after the offer and the invoice are marked as Defaulted, and before the originator's default is
  -- reported to the reputation contract, if one is configured; nothing else is called.
  pub reclaim_invoice_insured :
      (c : Invocation) (invoice_id offer_id : Symbol) (lender insurance_addr : Address)
      (s : Repayment) (pool : Insurance) (u : U) {offer' : FinancingOffer} {s' : Repayment}
      {pool' : Insurance} {u' : U}
      → s.insadd ≡ some insurance_addr
      → IsBalanced pool
      → reclaim_invoice
          (lift_registry registry)
          (lift_financing financing)
          (insurance_client token registry c)
          (lift_reputation reputation)
          c
          invoice_id
          offer_id
          lender
          s
          (pool, u)
        ≡ ok (offer', s', (pool', u'))
      → (loan : Default) × (total payout : ℤ) × (marked : Invoice) × (u₁ u₂ u₃ : U) × IsDefault
          registry financing c invoice_id offer_id lender s u loan
        × (total
            ≡ loan.offer.amount
              +ℤ quot (loan.offer.amount *ℤ pos loan.offer.interest_rate) (pos 10000))
        × (payout
            ≡ max_ℤ
                (min_ℤ (max_ℤ (total -ℤ loan.offer.amount_repaid) (pos 0)) pool.pooltot)
                (pos 0))
        × (pool'.pooltot ≡ pool.pooltot -ℤ payout)
        × IsBalanced pool'
        × (financing.update_offer_status loan.financing_addr offer_id OfferStatus.defaulted u
            ≡ ok u₁)
        × (registry.repayment_marks_defaulted loan.registry_addr invoice_id u₁ ≡ ok (marked, u₂))
        × IsPaid token (nested c insurance_addr) lender pool u₂ payout u₃
        × (blame reputation loan.invoice.originator s u₃ ≡ ok u')
  reclaim_invoice_insured c invoice_id offer_id lender insurance_addr s pool u {offer'} {s'} {pool'}
        {u'} configured balanced h =
      let (loan, w₁, w₂, w₃, marked, total, payout, k, status, mark, base, paid, told, _) =
        reclaim_invoice_lem (lift_registry registry) (lift_financing financing)
          (insurance_client token registry c) (lift_reputation reputation) c invoice_id offer_id
          lender s (pool, u) h in
      let kept₁ : w₁.0 ≡ pool = beside_done-kept pool _ status in
      let kept₂ : w₂.0 ≡ pool = beside-kept w₁.0 _ mark ∙ kept₁ in
      let e = insured token registry c invoice_id loan.offer.lender _ s w₂ configured paid in
      let (exact, lower, still, sent) =
        pay_out_amount token registry (nested c insurance_addr) invoice_id loan.offer.lender _ w₂.0
          w₂.1 (rw kept₂ balanced) e in
      let (last, blamed) = blame-beside reputation loan.invoice.originator s w₃ told in
      (
        loan,
        total,
        payout,
        marked,
        w₁.1,
        w₂.1,
        w₃.1,
        default_beside registry financing c invoice_id offer_id lender s pool u k,
        base_exact loan.offer base,
        rw (sym kept₂) exact,
        rw (last, sym kept₂) lower,
        rw last still,
        beside_done-called pool _ status,
        beside-called w₁.0 _ mark,
        subst (λ who. IsPaid token (nested c insurance_addr) who pool w₂.1 payout w₃.1) k.own
            (subst
              (λ x. IsPaid token (nested c insurance_addr) loan.offer.lender x w₂.1 payout w₃.1)
              kept₂ sent),
        blamed,
      )
