-- ===== src/Insurance/TierClaims.antt =====
-- The laws of `pay_out_tier` and `claim_payout_tier` of insurance/src/lib.rs.
use invofi_contracts.Prelude.{◌≡◌, refl, ◌⊎◌, inl, inr, arith}
use invofi_contracts.Prelude.Int.{ℤ, pos, ◌-ℤ◌, ◌≤ℤ◌, ◌<ℤ◌, int_laws, eq_of_parts, min_ℤ}
use invofi_contracts.Prelude.Maps.{get_or}
use invofi_contracts.Host.Outcome.{Address, Symbol, ok, Invocation}
use invofi_contracts.Host.MachineLaws.{sub_i128-either}
use invofi_contracts.Common.Clients.{Token, RegistryClient}
use invofi_contracts.Insurance.State.{
  Insurance, InsuranceTier, InsuranceTier_key, TierStakeKey_key, load_tier_pool,
}
use invofi_contracts.Insurance.Tiers.Payouts.{
  pay_from_tier, pay_out_tier, pay_tier_claim, claim_payout_tier,
}
use invofi_contracts.Prelude.Int.{max_ℤ, quot, ◌*ℤ◌}
use invofi_contracts.Host.MachineLaws.{mul_i128-either, div_i128-either}
use invofi_contracts.Insurance.State.{bps_denominator}
use invofi_contracts.Insurance.Tiers.Payouts.{capped}
use invofi_contracts.Insurance.TierBalance.{TiersBalanced}
use invofi_contracts.Insurance.State.{TierOfferKey_key}
use invofi_contracts.Insurance.Tiers.Payouts.{offer_key}
use invofi_contracts.Insurance.Promises.{max_of_empty, max_of_positive}
use invofi_contracts.Insurance.TierPayout.{
  pay_from_tier-fields, pay_tier_claim-fields, pay_from_tier-TiersBalanced,
  pay_tier_claim-TiersBalanced,
}
use invofi_contracts.Prelude.{◌∙◌, ap, false}
use invofi_contracts.Prelude.Int.{◌+ℤ◌}
use invofi_contracts.Prelude.Maps.{set}
use invofi_contracts.Prelude.MapLaws.{get_or-set}
use invofi_contracts.Insurance.State.{PoolRecord, same_tier, same_tier_refl}
use invofi_contracts.Insurance.TierBalance.{pool_after}
use invofi_contracts.Insurance.State.{same_offer_key_refl}
use invofi_contracts.Insurance.Transfers.{IsPaid, pay_from_tier-IsSent, pay_tier_claim-IsSent}

-- The part of a claim that the tier's cap lets through.
abbrev pub share_of_claim : ℤ → InsuranceTier → Insurance → ℤ
share_of_claim amt tier s = quot (amt *ℤ pos (load_tier_pool tier s).payout_cap_bps) bps_denominator

-- What is left of an offer's reservation in a tier.
abbrev pub tier_remaining : Symbol → InsuranceTier → Insurance → ℤ
tier_remaining k tier s =
    get_or (pos 0) (offer_key k tier) s.tresrv -ℤ get_or (pos 0) (offer_key k tier) s.tpaid

minus_nothing : (z : ℤ) → z ≡ z -ℤ pos 0
minus_nothing z = eq_of_parts _ _ (omega int_laws)

-- A payment of `p` moves the tier's record to `pool`, and no other tier.
tier_written :
    (tier : InsuranceTier) (pool : PoolRecord) (s s' : Insurance)
    → s'.pools ≡ set tier pool s.pools
    → (load_tier_pool tier s' ≡ pool)
      × ((u : InsuranceTier) → same_tier tier u ≡ false → load_tier_pool u s' ≡ load_tier_pool u s)
tier_written tier pool s s' pools = (
  pool_after tier tier pool s s' pools ∙ rw (same_tier_refl tier) refl,
  λ u other. pool_after tier u pool s s' pools ∙ rw other refl,
)

still_left : (r b p : ℤ) → r -ℤ (b +ℤ p) ≡ r -ℤ b -ℤ p
still_left r b p = eq_of_parts _ _ (omega int_laws)

module _ {W : Type 0} (token : Token W) (c : Invocation) where
  pay_out_tier-either :
      (registry : RegistryClient W) (invoice_id : Symbol) (tier : InsuranceTier)
      (beneficiary : Address) (amt : ℤ) (s : Insurance) (w : W) {p : ℤ} {s' : Insurance} {w' : W}
      → pay_out_tier token registry c invoice_id tier beneficiary amt s w ≡ ok (p, s', w')
      → ((min_ℤ (share_of_claim amt tier s) (load_tier_pool tier s).balance ≤ℤ pos 0)
          × (p ≡ pos 0)
          × (s' ≡ s)
          × (w' ≡ w))
        ⊎ ((pos 0 <ℤ min_ℤ (share_of_claim amt tier s) (load_tier_pool tier s).balance)
            × (pay_from_tier token c tier beneficiary
                  (min_ℤ (share_of_claim amt tier s) (load_tier_pool tier s).balance)
                  s
                  w
                ≡ ok (p, s', w')))
  unfolding pay_out_tier capped
  pay_out_tier-either registry invoice_id tier beneficiary amt s w h = ground (
    arith,
    mul_i128-either amt (pos (load_tier_pool tier s).payout_cap_bps),
    div_i128-either (amt *ℤ pos (load_tier_pool tier s).payout_cap_bps) bps_denominator,
  )

  -- With every tier balanced, a `pay_out_tier` that succeeds pays the claim's share under the tier's
  -- cap, rounded toward zero, or the tier's balance if that is less, or nothing if that is not
  -- positive: that amount it returns, and transfers in the configured token from its own account to
  -- the beneficiary, without any other call. The tier's balance falls by it, what is reserved in the
  -- tier and the other tiers stay as they were, and every tier is balanced after it.
  pub pay_out_tier_lem :
      (registry : RegistryClient W) (invoice_id : Symbol) (tier : InsuranceTier)
      (beneficiary : Address) (amt : ℤ) (s : Insurance) (w : W) {p : ℤ} {s' : Insurance} {w' : W}
      → TiersBalanced s
      → pay_out_tier token registry c invoice_id tier beneficiary amt s w ≡ ok (p, s', w')
      → (p ≡ max_ℤ (min_ℤ (share_of_claim amt tier s) (load_tier_pool tier s).balance) (pos 0))
        × TiersBalanced s'
        × IsPaid token c beneficiary s w p w'
        × ((load_tier_pool tier s').balance ≡ (load_tier_pool tier s).balance -ℤ p)
        × ((load_tier_pool tier s').reserved ≡ (load_tier_pool tier s).reserved)
        × ((u : InsuranceTier)
            → same_tier tier u ≡ false
            → load_tier_pool u s' ≡ load_tier_pool u s)
  pay_out_tier_lem registry invoice_id tier beneficiary amt s w {p} {s'} b h =
      elim (pay_out_tier-either registry invoice_id tier beneficiary amt s w h) [
        | inl (empty, none_paid, same, still) ↦ (
          rw (none_paid, max_of_empty _ empty) refl,
          λ u. rw same (b u),
          inl (none_paid, still),
          rw (same, none_paid) (minus_nothing (load_tier_pool tier s).balance),
          rw same refl,
          λ u other. rw same refl,
        )
        | inr (positive, done) ↦
            let payout = min_ℤ (share_of_claim amt tier s) (load_tier_pool tier s).balance in
            let (_, _, (exact, _, pools)) =
              pay_from_tier-fields token c tier beneficiary payout s w done in
            let (now, others) = tier_written tier _ s s' pools in
            (
              rw (exact, max_of_positive payout positive) refl,
              pay_from_tier-TiersBalanced token c tier beneficiary payout s w b done,
              rw exact
                  (inr (positive, pay_from_tier-IsSent token c tier beneficiary payout s w done)),
              rw exact (ap (λ x. x.balance) now),
              ap (λ x. x.reserved) now,
              others,
            )
      ]

  claim_payout_tier-either :
      (k : Symbol) (tier : InsuranceTier) (lender : Address) (amt : ℤ) (s : Insurance) (w : W)
      {p left : ℤ} {s' : Insurance} {w' : W}
      → claim_payout_tier token c k tier lender amt s w ≡ ok ((p, left), s', w')
      → ((min_ℤ (min_ℤ amt (tier_remaining k tier s)) (load_tier_pool tier s).balance ≤ℤ pos 0)
          × (p ≡ pos 0)
          × (left ≡ tier_remaining k tier s)
          × (s' ≡ s)
          × (w' ≡ w))
        ⊎ ((pos 0 <ℤ min_ℤ (min_ℤ amt (tier_remaining k tier s)) (load_tier_pool tier s).balance)
            × (pay_tier_claim token c k tier lender
                  (min_ℤ (min_ℤ amt (tier_remaining k tier s)) (load_tier_pool tier s).balance)
                  (get_or (pos 0) (offer_key k tier) s.tpaid)
                  (tier_remaining k tier s)
                  s
                  w
                ≡ ok ((p, left), s', w')))
  unfolding claim_payout_tier
  claim_payout_tier-either k tier lender amt s w h = ground (
    arith,
    sub_i128-either (get_or (pos 0) (offer_key k tier) s.tresrv)
        (get_or (pos 0) (offer_key k tier) s.tpaid),
  )

  -- With every tier balanced, a `claim_payout_tier` that succeeds pays the smallest of the amount
  -- asked for, what is left of the offer's reservation, and the tier's balance, or nothing if that is
  -- not positive: that amount it returns, and transfers in the configured token from its own account
  -- to the lender, without any other call. It returns what is then left of the reservation; the
  -- tier's balance and what is reserved in it fall by what was paid, the other tiers stay as they
  -- were, and every tier is balanced after it.
  pub claim_payout_tier_lem :
      (k : Symbol) (tier : InsuranceTier) (lender : Address) (amt : ℤ) (s : Insurance) (w : W)
      {p left : ℤ} {s' : Insurance} {w' : W}
      → TiersBalanced s
      → claim_payout_tier token c k tier lender amt s w ≡ ok ((p, left), s', w')
      → (p
          ≡ max_ℤ
              (min_ℤ (min_ℤ amt (tier_remaining k tier s)) (load_tier_pool tier s).balance)
              (pos 0))
        × (left ≡ tier_remaining k tier s -ℤ p)
        × TiersBalanced s'
        × IsPaid token c lender s w p w'
        × (tier_remaining k tier s' ≡ left)
        × ((load_tier_pool tier s').balance ≡ (load_tier_pool tier s).balance -ℤ p)
        × ((load_tier_pool tier s').reserved ≡ (load_tier_pool tier s).reserved -ℤ p)
        × ((u : InsuranceTier)
            → same_tier tier u ≡ false
            → load_tier_pool u s' ≡ load_tier_pool u s)
  claim_payout_tier_lem k tier lender amt s w {p} {left} {s'} b h =
      let rest = tier_remaining k tier s in
      elim (claim_payout_tier-either k tier lender amt s w h) [
        | inl (empty, none_paid, kept, same, still) ↦ (
          rw (none_paid, max_of_empty _ empty) refl,
          rw (kept, none_paid) (minus_nothing rest),
          λ u. rw same (b u),
          inl (none_paid, still),
          rw (same, kept) refl,
          rw (same, none_paid) (minus_nothing (load_tier_pool tier s).balance),
          rw (same, none_paid) (minus_nothing (load_tier_pool tier s).reserved),
          λ u other. rw same refl,
        )
        | inr (positive, done) ↦
            let paid = min_ℤ (min_ℤ amt rest) (load_tier_pool tier s).balance in
            let before = get_or (pos 0) (offer_key k tier) s.tpaid in
            let (_, _, (exact, kept, _, pools, promised, booked)) =
              pay_tier_claim-fields token c k tier lender paid before rest s w done in
            let (now, others) = tier_written tier _ s s' pools in
            let key = offer_key k tier in
            let total : get_or (pos 0) key s'.tpaid ≡ before +ℤ paid =
              rw
                (
                  booked,
                  get_or-set (pos 0) key key (before +ℤ paid) s.tpaid,
                  same_offer_key_refl key,
                )
                refl in
            (
              rw (exact, max_of_positive paid positive) refl,
              rw (kept, exact) refl,
              pay_tier_claim-TiersBalanced token c k tier lender paid before rest s w b done,
              rw exact (
                  inr (
                    positive,
                    pay_tier_claim-IsSent token c k tier lender paid before rest s w done,
                  )),
              rw (kept, promised, total) (still_left (get_or (pos 0) key s.tresrv) before paid),
              rw exact (ap (λ x. x.balance) now),
              rw exact (ap (λ x. x.reserved) now),
              others,
            )
      ]
