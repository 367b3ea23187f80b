-- ===== src/Repayment/Settled.antt =====
-- What a successful `repay_invoice` of repayment/src/lib.rs has read, checked and done.
use invofi_contracts.Prelude.{ℕ, ◌≡◌, refl, subst, ap, ◌∙◌, true, some, ◌==◌}
use invofi_contracts.Prelude.Int.{ℤ, pos, ltb_ℤ, leb_ℤ}
use invofi_contracts.Host.Outcome.{
  Address, Symbol, ok, contract, unauthorized, Invocation, panicked, not_authorized, >>=-eq-ok,
  guard-then, >>-eq-ok, unwrap-eq-ok, ok-injective,
}
use invofi_contracts.Host.Machine.{sub_i128}
use invofi_contracts.Common.Types.{Invoice, FinancingOffer}
use invofi_contracts.Common.Storage.{assert_not_paused, resolve_token}
use invofi_contracts.Common.Clients.{Token, RegistryClient, FinancingClient, ReputationClient}
use invofi_contracts.Repayment.State.{Repayment}
use invofi_contracts.Repayment.Repay.{
  collect, record_payment, update_offer, reward, publish_payment, Reading, read_invoice, read_offer,
  read_repayment, take_payment, close_payment,
}
use invofi_contracts.Repayment.Owed.{
  assert_financed, assert_running, obligation, assert_payable, Split, split_payment,
}

read_invoice_facts :
    {W : Type 0} (registry : RegistryClient W) (c : Invocation) (invoice_id : Symbol)
    (repayer : Address) (s : Repayment) (w : W) {found : Address × Invoice}
    → read_invoice registry c invoice_id repayer s w ≡ ok found
    → (assert_not_paused s.store ≡ ok tt)
      × (c.auth repayer ≡ true)
      × (s.registry ≡ some found.0)
      × (registry.get_invoice found.0 invoice_id w ≡ ok found.1)
      × ((found.1.originator == repayer) ≡ true)
      × (assert_financed found.1 ≡ ok tt)
unfolding read_invoice
read_invoice_facts registry c invoice_id repayer s w {found} h₀ =
    let (running, h₁) = >>-eq-ok _ _ h₀ in
    let (authorized, h₂) = guard-then (c.auth repayer) not_authorized _ h₁ in
    let (registry_addr, registry_set, h₃) = >>=-eq-ok _ _ h₂ in
    let (invoice, read, h₄) = >>=-eq-ok _ _ h₃ in
    let (own, h₅) = guard-then (invoice.originator == repayer) (contract unauthorized) _ h₄ in
    let (financed, h₆) = >>-eq-ok _ _ h₅ in
    let e = ok-injective _ _ h₆ in
    (
      running,
      authorized,
      unwrap-eq-ok _ _ registry_set ∙ ap some (ap (λ x. x.0) e),
      subst (λ x. registry.get_invoice x.0 invoice_id w ≡ ok x.1) e read,
      subst (λ x. (x.1.originator == repayer) ≡ true) e own,
      subst (λ x. assert_financed x.1 ≡ ok tt) e financed,
    )

read_offer_facts :
    {W : Type 0} (financing : FinancingClient W) (invoice_id offer_id : Symbol) (s : Repayment)
    (w : W) {found : Address × FinancingOffer}
    → read_offer financing invoice_id offer_id s w ≡ ok found
    → (s.financing ≡ some found.0)
      × (financing.get_offer found.0 offer_id w ≡ ok found.1)
      × (assert_running invoice_id found.1 ≡ ok tt)
unfolding read_offer
read_offer_facts financing invoice_id offer_id s w h₀ =
    let (financing_addr, financing_set, h₁) = >>=-eq-ok _ _ h₀ in
    let (offer, read, h₂) = >>=-eq-ok _ _ h₁ in
    let (live, h₃) = >>-eq-ok _ _ h₂ in
    let e = ok-injective _ _ h₃ in
    (
      unwrap-eq-ok _ _ financing_set ∙ ap some (ap (λ x. x.0) e),
      subst (λ x. financing.get_offer x.0 offer_id w ≡ ok x.1) e read,
      subst (λ x. assert_running invoice_id x.1 ≡ ok tt) e live,
    )

module _ {W : Type 0} (registry : RegistryClient W) (financing : FinancingClient W) where
  -- What the checks have established.
  pub record Checked (c : Invocation) (invoice_id offer_id : Symbol) (repayer : Address) (amt : ℤ)
      (s : Repayment) (w : W) (loan : Reading) : Type 0 where
    pub running : assert_not_paused s.store ≡ ok tt
    pub authorized : c.auth repayer ≡ true
    pub registry_set : s.registry ≡ some loan.registry_addr
    pub found : registry.get_invoice loan.registry_addr invoice_id w ≡ ok loan.invoice
    pub own : (loan.invoice.originator == repayer) ≡ true
    pub financed : assert_financed loan.invoice ≡ ok tt
    pub financing_set : s.financing ≡ some loan.financing_addr
    pub read : financing.get_offer loan.financing_addr offer_id w ≡ ok loan.offer
    pub live : assert_running invoice_id loan.offer ≡ ok tt
    pub positive : ltb_ℤ (pos 0) amt ≡ true
    pub token_set : resolve_token loan.offer.currency s.store ≡ ok loan.token_addr
    pub computed : obligation c invoice_id loan.invoice loan.offer s ≡ ok loan.owed
    pub payable : assert_payable loan.offer loan.owed amt ≡ ok tt

  pub read_repayment-Checked :
      (c : Invocation) (invoice_id offer_id : Symbol) (repayer : Address) (amt : ℤ) (s : Repayment)
      (w : W) {loan : Reading}
      → read_repayment registry financing c invoice_id offer_id repayer amt s w ≡ ok loan
      → Checked c invoice_id offer_id repayer amt s w loan
  unfolding read_repayment
  read_repayment-Checked c invoice_id offer_id repayer amt s w {loan} h₀ =
      let (v, e, h₁) = >>=-eq-ok (read_invoice registry c invoice_id repayer s w) _ h₀ in
      let (u, f, h₂) = >>=-eq-ok (read_offer financing invoice_id offer_id s w) _ h₁ in
      let (positive, h₃) = guard-then (ltb_ℤ (pos 0) amt) panicked _ h₂ in
      let (token_addr, token_set, h₄) = >>=-eq-ok (resolve_token u.1.currency s.store) _ h₃ in
      let (owed, computed, h₅) = >>=-eq-ok (obligation c invoice_id v.1 u.1 s) _ h₄ in
      let (payable, h₆) = >>-eq-ok (assert_payable u.1 owed amt) _ h₅ in
      let on_invoice = read_invoice_facts registry c invoice_id repayer s w e in
      let on_offer = read_offer_facts financing invoice_id offer_id s w f in
      subst (Checked c invoice_id offer_id repayer amt s w) (ok-injective _ _ h₆) (record {
        running = on_invoice.0;
        authorized = on_invoice.1;
        registry_set = on_invoice.2;
        found = on_invoice.3;
        own = on_invoice.4;
        financed = on_invoice.5;
        financing_set = on_offer.0;
        read = on_offer.1;
        live = on_offer.2;
        positive = positive;
        token_set = token_set;
        computed = computed;
        payable = payable;
      })

module _ {W : Type 0} (token : Token W) (registry : RegistryClient W)
    (financing : FinancingClient W) where
  -- What taking the payment has done.
  pub record Taken (c : Invocation) (invoice_id : Symbol) (repayer : Address) (amt : ℤ)
      (loan : Reading) (parts : Split) (s s' : Repayment) (w w' : W) : Type 0 where
    pub fee_bps : ℕ
    pub fee_read : financing.get_fee_bps loan.financing_addr w ≡ ok fee_bps
    pub divided : split_payment loan.owed amt fee_bps ≡ ok parts
    pub collected :
        collect token registry loan.token_addr loan.registry_addr repayer loan.offer parts w ≡ ok w'
    pub recorded : record_payment c invoice_id repayer amt parts s ≡ ok s'

  pub take_payment-Taken :
      (c : Invocation) (invoice_id : Symbol) (repayer : Address) (amt : ℤ) (loan : Reading)
      (s : Repayment) (w : W) {parts : Split} {s' : Repayment} {w' : W}
      → take_payment token registry financing c invoice_id repayer amt loan s w ≡ ok (parts, s', w')
      → Taken c invoice_id repayer amt loan parts s s' w w'
  unfolding take_payment
  take_payment-Taken c invoice_id repayer amt loan s w {parts} {s'} {w'} h₀ =
      let (fee_bps, fee_read, h₁) = >>=-eq-ok _ _ h₀ in
      let (parts₁, divided, h₂) = >>=-eq-ok _ _ h₁ in
      let (w₁, collected, h₃) = >>=-eq-ok _ _ h₂ in
      let (s₁, recorded, h₄) = >>=-eq-ok _ _ h₃ in
      let e = ok-injective _ _ h₄ in
      subst (λ x. Taken c invoice_id repayer amt loan x.0 s x.1 w x.2) e
        (record {
          fee_bps = fee_bps;
          fee_read = fee_read;
          divided = divided;
          collected = collected;
          recorded = recorded;
        })

module _ {W : Type 0} (registry : RegistryClient W) (financing : FinancingClient W)
    (reputation : ReputationClient W) where
  -- What closing the payment has done; `left` is the principal that remains.
  pub record Closed (invoice_id offer_id : Symbol) (amt : ℤ) (loan : Reading) (parts : Split)
      (s s' : Repayment) (w w' : W) : Type 0 where
    pub left : ℤ
    pub lowered : sub_i128 loan.owed.remaining parts.principal ≡ ok left
    pub w₁ : W
    pub updated :
        update_offer financing loan.financing_addr offer_id loan.offer
          (leb_ℤ left (pos 0))
          amt
          parts
          w
        ≡ ok w₁
    pub marked : Invoice × W
    pub mark :
        registry.repayment_marks_invoice_repaid loan.registry_addr invoice_id
          (leb_ℤ left (pos 0))
          w₁
        ≡ ok marked
    pub rewarded : reward reputation (leb_ℤ left (pos 0)) loan.invoice.originator s marked.1 ≡ ok w'
    pub state : s' ≡ record s {
      store = publish_payment invoice_id offer_id (leb_ℤ left (pos 0)) amt parts left s.store;
    }

  pub close_payment-Closed :
      (c : Invocation) (invoice_id offer_id : Symbol) (amt : ℤ) (loan : Reading) (parts : Split)
      (s : Repayment) (w : W) {invoice' : Invoice} {s' : Repayment} {w' : W}
      → close_payment registry financing reputation c invoice_id offer_id amt loan parts s w
        ≡ ok (invoice', s', w')
      → Closed invoice_id offer_id amt loan parts s s' w w'
  unfolding close_payment
  close_payment-Closed c invoice_id offer_id amt loan parts s w {invoice'} {s'} {w'} h₀ =
      let (left, lowered, h₁) = >>=-eq-ok _ _ h₀ in
      let (w₁, updated, h₂) = >>=-eq-ok _ _ h₁ in
      let (marked, mark, h₃) = >>=-eq-ok _ _ h₂ in
      let (w₃, rewarded, h₄) = >>=-eq-ok _ _ h₃ in
      let e = ok-injective _ _ h₄ in
      subst (λ x. Closed invoice_id offer_id amt loan parts s x.1 w x.2) e
        (record {
          left = left;
          lowered = lowered;
          w₁ = w₁;
          updated = updated;
          marked = marked;
          mark = mark;
          rewarded = rewarded;
          state = refl;
        })
