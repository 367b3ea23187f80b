-- ===== src/Protocol/Collecting.antt =====
-- The transfers of `repay_invoice` of repayment/src/lib.rs, with the contract of
-- financing/src/lib.rs behind it.
use invofi_contracts.Prelude.{
  ℕ, ◌≡◌, sym, ap, ◌∙◌, subst, Bool, true, false, some, inl, inr, Option-cases, if◌then◌else◌,
  arith,
}
use invofi_contracts.Prelude.Int.{ℤ, pos, ◌+ℤ◌, ◌-ℤ◌, ◌*ℤ◌, quot, min_ℤ, ltb_ℤ, int_laws}
use invofi_contracts.Prelude.Maps.{ℕ_key, get, set}
use invofi_contracts.Host.Outcome.{Address, Symbol, ok, ◌>>=◌, Invocation, >>=-eq-ok, ok-injective}
use invofi_contracts.Common.Types.{FinancingOffer}
use invofi_contracts.Common.Clients.{Token, RegistryClient, ReputationClient}
use invofi_contracts.Financing.State.{Financing}
use invofi_contracts.Financing.Callbacks.{get_fee_bps}
use invofi_contracts.Financing.Books.{IsBooked}
use invofi_contracts.Financing.Steps.{found_offer}
use invofi_contracts.Repayment.State.{Repayment}
use invofi_contracts.Repayment.Repay.{Reading, collect, reward, take_payment}
use invofi_contracts.Repayment.Owed.{Split}
use invofi_contracts.Repayment.Settled.{take_payment-Taken}
use invofi_contracts.Repayment.Payments.{split_payment_parts}
use invofi_contracts.Repayment.Cleared.{sums}
use invofi_contracts.Protocol.Links.{
  beside_done, beside_done-kept, lift_registry, lift_reputation, lift_token, financing_client,
}

module _ {U : Type 0} (token : Token U) (registry : RegistryClient U) where
  pub collect-kept :
      (ta ra repayer : Address) (offer : FinancingOffer) (parts : Split) (w : Financing × U)
      {w' : Financing × U}
      → collect (lift_token token) (lift_registry registry) ta ra repayer offer parts w ≡ ok w'
      → (w'.0 ≡ w.0)
        × ((u₁ : U) × (token.transfer ta repayer offer.lender parts.lender w.1 ≡ ok u₁))
  unfolding collect
  collect-kept ta ra repayer offer parts w {w'} h₀ =
      let (w₁, e, h₁) =
        >>=-eq-ok (beside_done w.0 (token.transfer ta repayer offer.lender parts.lender w.1)) _
          h₀ in
      let (u₁, paid, _) = >>=-eq-ok (token.transfer ta repayer offer.lender parts.lender w.1) _ e in
      (fee_kept (ltb_ℤ (pos 0) parts.fee) w₁ h₁ ∙ beside_done-kept w.0 _ e, (u₁, paid))
    where
      fee_kept :
          (due : Bool) (w₁ : Financing × U)
          → (if due
              then (registry.get_fee_recipient ra w₁.1 >>= λ who.
                  beside_done w₁.0 (token.transfer ta repayer who parts.fee w₁.1))
              else ok w₁)
            ≡ ok w'
          → w'.0 ≡ w₁.0
      fee_kept true w₁ h =
          let (who, _, k) = >>=-eq-ok (registry.get_fee_recipient ra w₁.1) _ h in
          beside_done-kept w₁.0 _ k
      fee_kept false w₁ h = sym (ap (λ x. x.0) (ok-injective _ _ h))

pub reward-kept :
    {U : Type 0} (reputation : ReputationClient U) (full : Bool) (originator : Address)
    (s : Repayment) (w : Financing × U) {w' : Financing × U}
    → reward (lift_reputation reputation) full originator s w ≡ ok w'
    → w'.0 ≡ w.0
unfolding reward
reward-kept reputation false originator s w h = sym (ap (λ x. x.0) (ok-injective _ _ h))
reward-kept reputation true originator s w h = elim (Option-cases s.repadd) [
  | inl unset ↦ sym (ap (λ x. x.0) (ok-injective _ _ (rw unset at h)))
  | inr (addr, set) ↦ beside_done-kept w.0 _ (rw set at h)
]

pub nothing_more : (a : ℤ) → a +ℤ pos 0 ≡ a
nothing_more a = omega int_laws

module _ {U : Type 0} (c : Invocation) where
  pub offer_read :
      (addr : Address) (id : Symbol) (w : Financing × U) {o : FinancingOffer}
      → (financing_client c).get_offer addr id w ≡ ok o
      → get id w.0.offers ≡ some o
  unfolding financing_client
  offer_read addr id w h = found_offer id w.0 h

  -- No fee is set in the financing contract's own storage.
  pub fee_free :
      (addr : Address) (w : Financing × U) {n : ℕ}
      → IsBooked w.0
      → (financing_client c).get_fee_bps addr w ≡ ok n
      → n ≡ 0
  unfolding financing_client get_fee_bps
  fee_free addr w b h = sym (ok-injective _ _ (rw b.free at h))

pub no_fee :
    (amt : ℤ) (fee lender : ℤ)
    → fee ≡ quot (amt *ℤ pos 0) (pos 10000)
    → lender ≡ amt -ℤ fee
    → (fee ≡ pos 0) × (lender ≡ amt)
unfolding quot ◌*ℤ◌ ◌-ℤ◌
no_fee amt fee lender e f = ground arith

module _ {U : Type 0} (token : Token U) (registry : RegistryClient U) (c : Invocation) where
  -- Without a fee the whole amount goes to the lender, and the financing contract is left alone.
  pub take_payment-whole :
      (invoice_id : Symbol) (repayer : Address) (amt : ℤ) (loan : Reading) (s : Repayment)
      (fin : Financing) (u : U) {parts : Split} {s' : Repayment} {w' : Financing × U}
      → IsBooked fin
      → take_payment
          (lift_token token)
          (lift_registry registry)
          (financing_client c)
          c
          invoice_id
          repayer
          amt
          loan
          s
          (fin, u)
        ≡ ok (parts, s', w')
      → (w'.0 ≡ fin)
        × (parts.fee ≡ pos 0)
        × (min_ℤ amt loan.owed.interest +ℤ parts.principal ≡ amt)
        × ((u₁ : U) × (token.transfer loan.token_addr repayer loan.offer.lender amt u ≡ ok u₁))
  take_payment-whole invoice_id repayer amt loan s fin u {parts} b e =
      let t =
        take_payment-Taken (lift_token token) (lift_registry registry) (financing_client c) c
          invoice_id repayer amt loan s (fin, u) e in
      let (interest, principal, fee, lender) =
        split_payment_parts loan.owed amt t.fee_bps t.divided in
      let free = fee_free c loan.financing_addr (fin, u) b t.fee_read in
      let (no_charge, whole) =
        no_fee amt parts.fee parts.lender (fee ∙ ap (λ n. quot (amt *ℤ pos n) (pos 10000)) free)
          lender in
      let (kept, (u₁, paid)) =
        collect-kept token registry loan.token_addr loan.registry_addr repayer loan.offer parts
          (fin, u) t.collected in
      (
        kept,
        no_charge,
        ap (λ z. z +ℤ parts.principal) (sym interest) ∙ sums amt parts.interest principal,
        (
          u₁,
          subst (λ z. token.transfer loan.token_addr repayer loan.offer.lender z u ≡ ok u₁) whole
              paid,
        ),
      )
