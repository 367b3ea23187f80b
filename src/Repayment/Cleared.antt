-- ===== src/Repayment/Cleared.antt =====
-- What one payment of `repay_invoice` of repayment/src/lib.rs leaves, step by step.
use invofi_contracts.Prelude.{ℕ, ◌≡◌, refl, ◌↔◌, Bool, true, false, if◌then◌else◌, arith}
use invofi_contracts.Prelude.Int.{
  ℤ, pos, ◌≤ℤ◌, ◌<ℤ◌, ◌+ℤ◌, ◌-ℤ◌, min_ℤ, leb_ℤ, int_laws, parts_of_eq,
}
use invofi_contracts.Prelude.Maps.{ℕ_key}
use invofi_contracts.Prelude.{◌⊎◌, Bool-cases, inl, inr, sym}
use invofi_contracts.Host.Outcome.{◌>>=◌, ok-injective}
use invofi_contracts.Prelude.Int.{ltb_ℤ}
use invofi_contracts.Host.Outcome.{Address, Symbol, ok, Invocation, >>=-eq-ok}
use invofi_contracts.Host.Machine.{add_i128, sub_i128}
use invofi_contracts.Host.MachineLaws.{sub_i128-either}
use invofi_contracts.Common.Types.{FinancingOffer, OfferStatus, PaymentRecord}
use invofi_contracts.Common.Storage.{Storage}
use invofi_contracts.Common.Clients.{Token, RegistryClient, FinancingClient}
use invofi_contracts.Repayment.Repay.{collect, update_offer, publish_payment}
use invofi_contracts.Repayment.Owed.{Split}

-- The record that a payment leaves.
abbrev pub payment_of : Invocation → Address → ℤ → Split → ℕ → PaymentRecord
payment_of c repayer amt parts number = record {
  payment_id = number;
  amount = amt;
  interest_paid = parts.interest;
  principal_paid = parts.principal;
  timestamp = c.now;
  payer = repayer;
}

-- The principal is cleared exactly when the amount covers it with the interest.
pub cleared :
    (remaining amt interest : ℤ) {left : ℤ}
    → pos 0 <ℤ remaining
    → left ≡ remaining -ℤ (amt -ℤ min_ℤ amt interest)
    → (leb_ℤ left (pos 0) ≡ true) ↔ (remaining +ℤ interest ≤ℤ amt)
unfolding min_ℤ ◌-ℤ◌ ◌+ℤ◌
cleared remaining amt interest {left} positive e = (λ h. ground arith, λ h. ground arith)

pub interest_nonneg :
    (amt accrued : ℤ) {interest : ℤ}
    → pos 0 <ℤ amt
    → pos 0 ≤ℤ accrued
    → interest ≡ min_ℤ amt accrued
    → pos 0 ≤ℤ interest
unfolding min_ℤ
interest_nonneg amt accrued positive nonneg e = ground arith

pub principal_nonneg :
    (amt accrued : ℤ) {interest principal : ℤ}
    → interest ≡ min_ℤ amt accrued
    → principal ≡ amt -ℤ interest
    → pos 0 ≤ℤ principal
unfolding min_ℤ ◌-ℤ◌
principal_nonneg amt accrued e f = ground arith

-- The two parts of an amount.
pub sums : (a b : ℤ) {p : ℤ} → p ≡ a -ℤ b → b +ℤ p ≡ a
sums a b h = omega (int_laws, parts_of_eq _ _ h)

module _ {W : Type 0} (token : Token W) (registry : RegistryClient W) where
  -- The fee, if there is one, goes to the recipient that the registry names.
  abbrev pub IsFeePaid : Address → Address → Address → ℤ → W → W → Type 0
  IsFeePaid token_addr registry_addr repayer fee w w' =
      ((fee ≤ℤ pos 0) × (w' ≡ w))
      ⊎ ((pos 0 <ℤ fee)
          × ((recipient : Address) × (registry.get_fee_recipient registry_addr w ≡ ok recipient)
              × (token.transfer token_addr repayer recipient fee w ≡ ok w')))

  fee_paid :
      (token_addr registry_addr repayer : Address) (fee : ℤ) (w : W) {w' : W}
      → (if ltb_ℤ (pos 0) fee
          then (registry.get_fee_recipient registry_addr w >>= λ recipient.
              token.transfer token_addr repayer recipient fee w)
          else ok w)
        ≡ ok w'
      → IsFeePaid token_addr registry_addr repayer fee w w'
  fee_paid token_addr registry_addr repayer fee w h = elim (Bool-cases (ltb_ℤ (pos 0) fee)) [
    | inr none ↦ inl (ground arith, sym (ok-injective _ _ (rw none at h)))
    | inl due ↦
        let k = rw due at h in
        let (recipient, e, f) = >>=-eq-ok (registry.get_fee_recipient registry_addr w) _ k in
        inr (ground arith, (recipient, e, f))
  ]

  -- The lender is paid first, then the fee.
  pub collect_lender :
      (token_addr registry_addr repayer : Address) (offer : FinancingOffer) (parts : Split) (w : W)
      {w' : W}
      → collect token registry token_addr registry_addr repayer offer parts w ≡ ok w'
      → (w₁ : W) × (token.transfer token_addr repayer offer.lender parts.lender w ≡ ok w₁)
        × IsFeePaid token_addr registry_addr repayer parts.fee w₁ w'
  unfolding collect
  collect_lender token_addr registry_addr repayer offer parts w h =
      let (w₁, e, k) =
        >>=-eq-ok (token.transfer token_addr repayer offer.lender parts.lender w) _ h in
      (w₁, e, fee_paid token_addr registry_addr repayer parts.fee w₁ k)

-- A difference that did not trap.
pub exact_difference : (a b : ℤ) {d : ℤ} → sub_i128 a b ≡ ok d → d ≡ a -ℤ b
exact_difference a b h = ground (arith, sub_i128-either a b)

pub publish_payment_admin :
    (invoice_id offer_id : Symbol) (fully_repaid : Bool) (amt : ℤ) (parts : Split) (left : ℤ)
    (store : Storage)
    → (publish_payment invoice_id offer_id fully_repaid amt parts left store).admcfg ≡ store.admcfg
unfolding publish_payment
publish_payment_admin invoice_id offer_id true amt parts left store = refl
publish_payment_admin invoice_id offer_id false amt parts left store = refl

-- The status is the first that the financing contract is told.
pub update_offer_first :
    {W : Type 0} (financing : FinancingClient W) (financing_addr : Address) (offer_id : Symbol)
    (offer : FinancingOffer) (fully_repaid : Bool) (amt : ℤ) (parts : Split) (w : W) {w' : W}
    → update_offer financing financing_addr offer_id offer fully_repaid amt parts w ≡ ok w'
    → (w₁ w₂ : W) × (financing.update_offer_status financing_addr offer_id
          (if fully_repaid then OfferStatus.repaid else OfferStatus.financed)
          w₁
        ≡ ok w₂)
unfolding update_offer
update_offer_first financing financing_addr offer_id offer fully_repaid amt parts w h₀ =
    let (total, _, h₁) = >>=-eq-ok (add_i128 offer.amount_repaid parts.principal) _ h₀ in
    let (w₂, e, _) = >>=-eq-ok _ _ h₁ in (w, w₂, e)
