-- ===== src/Financing/Settling.antt =====
-- What `accept_offer` of financing/src/lib.rs has checked and done.
use invofi_contracts.Prelude.{◌≡◌, refl, sym, ap, ◌∙◌, true, false, some, ◌==◌, ==→≡, arith}
use invofi_contracts.Prelude.Maps.{ℕ_key, get, set}
use invofi_contracts.Host.Outcome.{
  Address, Symbol, ok, Invocation, contract, unauthorized, invalid_transition, panicked, unwrap,
  not_authorized, >>=-eq-ok, >>-eq-ok, guard-then, unwrap-eq-ok, ok-injective,
}
use invofi_contracts.Common.Types.{Invoice, InvoiceStatus, FinancingOffer, OfferStatus}
use invofi_contracts.Common.Storage.{assert_not_paused, resolve_token}
use invofi_contracts.Common.Clients.{Token, RegistryClient}
use invofi_contracts.Financing.State.{Financing, get_offer, put_offer}
use invofi_contracts.Financing.Acceptance.{
  end_negotiation, count_acceptance, mint_position, settle_acceptance, accept_offer,
  assert_not_expired,
}
use invofi_contracts.Prelude.{==_refl, ◌⊎◌, ◌<◌}
use invofi_contracts.Common.Statuses.{
  is_invoice_status, is_offer_status, is_invoice_status→≡, is_offer_status→≡,
}
use invofi_contracts.Prelude.MapLaws.{get-set}
use invofi_contracts.Common.Storage.{contract_is_paused}
use invofi_contracts.Financing.Steps.{found_offer}
use invofi_contracts.Financing.SettlementSteps.{
  count_acceptance-SameCounts, mint_position-SameBooks,
}

pub unpaused :
    (s : Financing) → assert_not_paused s.store ≡ ok tt → contract_is_paused s.store ≡ false
unfolding assert_not_paused
unpaused s h = ground arith

pub not_expired :
    (c : Invocation) (o : FinancingOffer)
    → assert_not_expired c o ≡ ok tt
    → (o.expires_at ≡ 0) ⊎ (c.now < o.expires_at)
unfolding assert_not_expired
not_expired c o h = ground arith

module _ {W : Type 0} (token : Token W) (registry : RegistryClient W) where
  -- What a settlement has done.
  pub record IsSettled (c : Invocation) (id : Symbol) (o : FinancingOffer) (ra : Address)
      (invoice : Invoice) (s' : Financing) (w : W) : Type 0 where
    pub stored :
        get id s'.offers ≡ some (record o { status = OfferStatus.accepted; funded_at = c.now })
    pub token_addr : Address
    pub w₁ : W
    pub funded :
        token.transfer_from token_addr c.self o.lender invoice.originator o.amount w ≡ ok w₁
    pub marked : Invoice × W
    pub mark : registry.financing_marks_invoice_financed ra o.invoice_id w₁ ≡ ok marked

  pub settle-IsSettled :
      (c : Invocation) (id : Symbol) (o : FinancingOffer) (ra : Address) (invoice : Invoice)
      (closer : Address) (s : Financing) (w : W) {o' : FinancingOffer} {s' : Financing} {w' : W}
      → settle_acceptance token registry c id o ra invoice closer s w ≡ ok (o', s', w')
      → IsSettled c id o ra invoice s' w
        × (o' ≡ record o { status = OfferStatus.accepted; funded_at = c.now })
  unfolding settle_acceptance
  settle-IsSettled c id o ra invoice closer s w {o'} {s'} {w'} h₀ =
      let accepted = record o { status = OfferStatus.accepted; funded_at = c.now } in
      let ended = end_negotiation id closer s in
      let s₁ = put_offer id accepted ended in
      let (ta, _, h₁) = >>=-eq-ok (resolve_token o.currency s₁.store) _ h₀ in
      let (w₁, funded, h₂) =
        >>=-eq-ok (token.transfer_from ta c.self o.lender invoice.originator o.amount w) _ h₁ in
      let (marked, mark, h₃) =
        >>=-eq-ok (registry.financing_marks_invoice_financed ra o.invoice_id w₁) _ h₂ in
      let (minted, e, h₄) = >>=-eq-ok (mint_position token accepted s₁ marked.1) _ h₃ in
      let (s₃, f, h₅) = >>=-eq-ok (count_acceptance accepted minted.0) _ h₄ in
      let (_, same) = count_acceptance-SameCounts accepted minted.0 f in
      let k = mint_position-SameBooks token accepted s₁ marked.1 e in
      let here : get id (set id accepted ended.offers) ≡ some accepted =
        get-set id id accepted ended.offers ∙ rw (==_refl id) refl in
      let done = ok-injective _ _ h₅ in
      (
        record {
          stored = ap (λ x. get id x.1.offers) (sym done) ∙ (ap (get id) (same ∙ k.offers) ∙ here);
          token_addr = ta;
          w₁ = w₁;
          funded = funded;
          marked = marked;
          mark = mark;
        },
        sym (ap (λ x. x.0) done),
      )

  -- A successful `accept_offer` was authorized, while the contract was not paused, by the originator
  -- of the invoice that the registry reports as Pending, on a stored offer that was Pending and, if
  -- it has a deadline, before it. The amount is transferred from the lender to the originator, the
  -- registry is told that the invoice is financed, and the offer is stored as Accepted and as funded
  -- at the ledger's time.
  pub accept_offer_lem :
      (c : Invocation) (id : Symbol) (who : Address) (s : Financing) (w : W) {o' : FinancingOffer}
      {s' : Financing} {w' : W}
      → accept_offer token registry c id who s w ≡ ok (o', s', w')
      → (contract_is_paused s.store ≡ false)
        × (c.auth who ≡ true)
        × ((o : FinancingOffer) × (ra : Address) × (invoice : Invoice) × (get id s.offers ≡ some o)
            × (o.status ≡ OfferStatus.pending)
            × ((o.expires_at ≡ 0) ⊎ (c.now < o.expires_at))
            × (s.registry ≡ some ra)
            × (registry.get_invoice ra o.invoice_id w ≡ ok invoice)
            × (invoice.originator ≡ who)
            × (invoice.status ≡ InvoiceStatus.pending)
            × IsSettled c id o ra invoice s' w
            × (o' ≡ record o { status = OfferStatus.accepted; funded_at = c.now }))
  unfolding accept_offer
  accept_offer_lem c id who s w h₀ =
      let (running, h₁) = >>-eq-ok (assert_not_paused s.store) _ h₀ in
      let (authorized, h₂) = guard-then (c.auth who) not_authorized _ h₁ in
      let (o, found, h₃) = >>=-eq-ok (get_offer id s) _ h₂ in
      let (waiting, h₄) =
        guard-then (is_offer_status o.status OfferStatus.pending) (contract invalid_transition) _
          h₃ in
      let (fresh, h₅) = >>-eq-ok (assert_not_expired c o) _ h₄ in
      let (ra, set_up, h₆) = >>=-eq-ok (unwrap s.registry panicked) _ h₅ in
      let (invoice, known, h₇) = >>=-eq-ok (registry.get_invoice ra o.invoice_id w) _ h₆ in
      let (own, h₈) = guard-then (invoice.originator == who) (contract unauthorized) _ h₇ in
      let (open_invoice, h₉) =
        guard-then (is_invoice_status invoice.status InvoiceStatus.pending)
          (contract invalid_transition) _ h₈ in
      let (settled, result) = settle-IsSettled c id o ra invoice who s w h₉ in
      (
        unpaused s running,
        authorized,
        (
          o,
          ra,
          invoice,
          found_offer id s found,
          is_offer_status→≡ _ _ waiting,
          not_expired c o fresh,
          unwrap-eq-ok _ _ set_up,
          known,
          ==→≡ _ _ own,
          is_invoice_status→≡ _ _ open_invoice,
          settled,
          result,
        ),
      )
