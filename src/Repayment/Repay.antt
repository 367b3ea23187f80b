-- ===== src/Repayment/Repay.antt =====
-- `repay_invoice` of repayment/src/lib.rs, from what it reads to what it publishes.
use invofi_contracts.Prelude.{Bool, none, some, [], ◌∷◌, ◌++◌, ◌==◌, if◌then◌else◌}
use invofi_contracts.Prelude.Lists.{length}
use invofi_contracts.Prelude.Int.{ℤ, pos, leb_ℤ, ltb_ℤ}
use invofi_contracts.Host.Outcome.{
  Address, Symbol, Result, ok, ◌>>=◌, ◌>>◌, contract, unauthorized, panicked, guard, unwrap,
  Invocation, require_auth,
}
use invofi_contracts.Host.Machine.{add_i128, sub_i128, add_u32}
use invofi_contracts.Host.Events.{word, symbol, amount, flag}
use invofi_contracts.Common.Types.{Invoice, FinancingOffer, OfferStatus, PaymentRecord}
use invofi_contracts.Common.Storage.{Storage, publish, assert_not_paused, resolve_token}
use invofi_contracts.Common.Clients.{Token, RegistryClient, FinancingClient, ReputationClient}
use invofi_contracts.Repayment.State.{Repayment, load_payments, save_payments}
use invofi_contracts.Repayment.Owed.{
  assert_financed, assert_running, Obligation, obligation, assert_payable, Split, split_payment,
}

module _ {W : Type 0} (token : Token W) (registry : RegistryClient W) where
  -- The lender's share, and the fee if there is one.
  unfoldable pub collect : Address → Address → Address → FinancingOffer → Split → W → Result W
  collect token_addr registry_addr repayer offer parts w = do
    w₁ ← token.transfer token_addr repayer offer.lender parts.lender w
    if ltb_ℤ (pos 0) parts.fee
        then (do
          fee_recipient ← registry.get_fee_recipient registry_addr w₁
          token.transfer token_addr repayer fee_recipient parts.fee w₁)
        else ok w₁

-- `updated_payments`
unfoldable pub record_payment :
    Invocation → Symbol → Address → ℤ → Split → Repayment → Result Repayment
record_payment c invoice_id repayer amt parts s = do
  payment_id ← add_u32 (length (load_payments invoice_id s)) 1
  let payment : PaymentRecord = record {
    payment_id = payment_id;
    amount = amt;
    interest_paid = parts.interest;
    principal_paid = parts.principal;
    timestamp = c.now;
    payer = repayer;
  }
  ok (save_payments invoice_id (load_payments invoice_id s ++ payment ∷ []) s)

module _ {W : Type 0} (financing : FinancingClient W) where
  unfoldable pub update_offer : Address → Symbol → FinancingOffer → Bool → ℤ → Split → W → Result W
  update_offer financing_addr offer_id offer fully_repaid amt parts w = do
    amount_repaid ← add_i128 offer.amount_repaid parts.principal
    let new_status = if fully_repaid then OfferStatus.repaid else OfferStatus.financed
    w₁ ← financing.update_offer_status financing_addr offer_id new_status w
    w₂ ← financing.update_offer_amount_repaid financing_addr offer_id amount_repaid w₁
    w₃ ← financing.update_lender_stats_repaid financing_addr offer.lender fully_repaid w₂
    financing.update_stats_repaid financing_addr amt parts.fee w₃

module _ {W : Type 0} (reputation : ReputationClient W) where
  -- Outcome 0, on a full repayment only, if a reputation contract is configured.
  unfoldable pub reward : Bool → Address → Repayment → W → Result W
  reward fully_repaid originator s w =
      if fully_repaid
      then (elim s.repadd [
        | none ↦ ok w
        | some reputation_addr ↦ reputation.record_outcome reputation_addr originator 0 w
      ])
      else ok w

-- `inv_frp` or `parpay`, and then `inv_rep`.
unfoldable pub publish_payment : Symbol → Symbol → Bool → ℤ → Split → ℤ → Storage → Storage
publish_payment invoice_id offer_id fully_repaid amt parts new_remaining store =
    let paid =
      if fully_repaid
      then publish (word "inv_frp" ∷ symbol invoice_id ∷ [])
          (symbol offer_id ∷ amount amt ∷ amount parts.principal ∷ amount parts.interest ∷ []) store
      else publish (word "parpay" ∷ symbol invoice_id ∷ [])
          (symbol offer_id
            ∷ amount amt
            ∷ amount parts.principal
            ∷ amount parts.interest
            ∷ amount new_remaining
            ∷ [])
          store in
    publish (word "inv_rep" ∷ symbol invoice_id ∷ [])
      (symbol offer_id ∷ amount amt ∷ flag fully_repaid ∷ []) paid

-- What a repayment has read before it moves anything.
pub record Reading : Type 0 where
  pub registry_addr : Address
  pub invoice : Invoice
  pub financing_addr : Address
  pub offer : FinancingOffer
  pub token_addr : Address
  pub owed : Obligation

module _ {W : Type 0} (registry : RegistryClient W) where
  -- The invoice, financed and the repayer's own.
  unfoldable pub read_invoice :
      Invocation → Symbol → Address → Repayment → W → Result (Address × Invoice)
  read_invoice c invoice_id repayer s w = do
    assert_not_paused s.store
    require_auth c repayer
    registry_addr ← unwrap s.registry panicked
    invoice ← registry.get_invoice registry_addr invoice_id w
    guard (invoice.originator == repayer) (contract unauthorized)
    assert_financed invoice
    ok (registry_addr, invoice)

module _ {W : Type 0} (financing : FinancingClient W) where
  -- The running offer on the invoice.
  unfoldable pub read_offer : Symbol → Symbol → Repayment → W → Result (Address × FinancingOffer)
  read_offer invoice_id offer_id s w = do
    financing_addr ← unwrap s.financing panicked
    offer ← financing.get_offer financing_addr offer_id w
    assert_running invoice_id offer
    ok (financing_addr, offer)

module _ {W : Type 0} (registry : RegistryClient W) (financing : FinancingClient W) where
  -- `repay_invoice` up to the check of the amount.
  unfoldable pub read_repayment :
      Invocation → Symbol → Symbol → Address → ℤ → Repayment → W → Result Reading
  read_repayment c invoice_id offer_id repayer amt s w = do
    (registry_addr, invoice) ← read_invoice registry c invoice_id repayer s w
    (financing_addr, offer) ← read_offer financing invoice_id offer_id s w
    guard (ltb_ℤ (pos 0) amt) panicked
    token_addr ← resolve_token offer.currency s.store
    owed ← obligation c invoice_id invoice offer s
    assert_payable offer owed amt
    ok (record {
      registry_addr = registry_addr;
      invoice = invoice;
      financing_addr = financing_addr;
      offer = offer;
      token_addr = token_addr;
      owed = owed;
    })

module _ {W : Type 0} (token : Token W) (registry : RegistryClient W)
    (financing : FinancingClient W) where
  -- `repay_invoice` from the split of the amount to the payment record.
  unfoldable pub take_payment :
      Invocation → Symbol → Address → ℤ → Reading → Repayment → W → Result (Split × Repayment × W)
  take_payment c invoice_id repayer amt loan s w = do
    fee_bps ← financing.get_fee_bps loan.financing_addr w
    parts ← split_payment loan.owed amt fee_bps
    w' ← collect token registry loan.token_addr loan.registry_addr repayer loan.offer parts w
    s' ← record_payment c invoice_id repayer amt parts s
    ok (parts, s', w')

module _ {W : Type 0} (registry : RegistryClient W) (financing : FinancingClient W)
    (reputation : ReputationClient W) where
  -- `repay_invoice` from the new remaining principal on.
  unfoldable pub close_payment :
      Invocation
      → Symbol
      → Symbol
      → ℤ
      → Reading
      → Split
      → Repayment
      → W
      → Result (Invoice × Repayment × W)
  close_payment c invoice_id offer_id amt loan parts s w = do
    new_remaining ← sub_i128 loan.owed.remaining parts.principal
    let fully_repaid = leb_ℤ new_remaining (pos 0)
    w₁ ← update_offer financing loan.financing_addr offer_id loan.offer fully_repaid amt parts w
    (updated_invoice, w₂) ←
        registry.repayment_marks_invoice_repaid loan.registry_addr invoice_id fully_repaid w₁
    w₃ ← reward reputation fully_repaid loan.invoice.originator s w₂
    ok (
      updated_invoice,
      record s {
        store = publish_payment invoice_id offer_id fully_repaid amt parts new_remaining s.store;
      },
      w₃,
    )

module _ {W : Type 0} (token : Token W) (registry : RegistryClient W)
    (financing : FinancingClient W) (reputation : ReputationClient W) where
  -- Returns the invoice as the registry has updated it.
  unfoldable pub repay_invoice :
      Invocation → Symbol → Symbol → Address → ℤ → Repayment → W → Result (Invoice × Repayment × W)
  repay_invoice c invoice_id offer_id repayer amt s w = do
    loan ← read_repayment registry financing c invoice_id offer_id repayer amt s w
    (parts, s', w') ← take_payment token registry financing c invoice_id repayer amt loan s w
    close_payment registry financing reputation c invoice_id offer_id amt loan parts s' w'
