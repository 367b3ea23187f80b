-- ===== src/Insurance/TierReservations.antt =====
-- The laws of `reserve_payout_tier` of insurance/src/lib.rs.
use invofi_contracts.Prelude.{◌≡◌, refl, ◌⊎◌, inl, inr, arith}
use invofi_contracts.Prelude.Int.{ℤ, pos, ◌+ℤ◌, ◌-ℤ◌, ◌≤ℤ◌, ◌<ℤ◌, int_laws, min_ℤ, min_ℤ_le}
use invofi_contracts.Prelude.Maps.{get_or, set}
use invofi_contracts.Prelude.MapLaws.{get_or-set}
use invofi_contracts.Host.Outcome.{Symbol, ok, Invocation}
use invofi_contracts.Host.MachineLaws.{add_i128-either, sub_i128-either}
use invofi_contracts.Insurance.State.{
  Insurance, InsuranceTier, InsuranceTier_key, same_tier_refl, TierStakeKey_key, load_tier_pool,
  save_tier_pool,
}
use invofi_contracts.Prelude.Int.{max_ℤ, ◌*ℤ◌}
use invofi_contracts.Host.MachineLaws.{mul_i128-either, div_i128-either}
use invofi_contracts.Insurance.State.{bps_denominator}
use invofi_contracts.Insurance.Tiers.Payouts.{capped}
use invofi_contracts.Insurance.TierBalance.{TiersBalanced, tiers_after}
use invofi_contracts.Prelude.Int.{le-max_ℤ}
use invofi_contracts.Insurance.State.{TierOfferKey_key, same_offer_key_refl}
use invofi_contracts.Insurance.Tiers.Payouts.{offer_key, reserve_payout_tier}
use invofi_contracts.Host.Machine.{saturating_sub_i128, saturate_i128}
use invofi_contracts.Insurance.TierBalance.{pool_after}
use invofi_contracts.Insurance.TierClaims.{share_of_claim}

plus_zero : (z : ℤ) → z ≡ z +ℤ pos 0
plus_zero z = omega int_laws

saturating_below : (a b d : ℤ) → pos 0 <ℤ d → d ≤ℤ saturating_sub_i128 a b → d ≤ℤ a -ℤ b
unfolding saturating_sub_i128 saturate_i128
saturating_below a b d h k = ground arith

module _ (c : Invocation) (k : Symbol) (tier : InsuranceTier) (amt : ℤ) where
  reserve_payout_tier-either :
      (s : Insurance) {r : ℤ} {s' : Insurance}
      → reserve_payout_tier c k tier amt s ≡ ok (r, s')
      → ((r ≡ pos 0) × (s' ≡ s))
        ⊎ ((pos 0 <ℤ r)
            × (r
                ≡ min_ℤ
                    (saturating_sub_i128
                      (share_of_claim amt tier s)
                      (get_or (pos 0) (offer_key k tier) s.tresrv))
                    ((load_tier_pool tier s).balance -ℤ (load_tier_pool tier s).reserved))
            × (s'.tresrv
                ≡ set (offer_key k tier) (get_or (pos 0) (offer_key k tier) s.tresrv +ℤ r) s.tresrv)
            × (s'.tstakes ≡ s.tstakes)
            × (s'.pools
                ≡ set tier
                    (record (load_tier_pool tier s) {
                      reserved = (load_tier_pool tier s).reserved +ℤ r;
                    })
                    s.pools))
  unfolding reserve_payout_tier save_tier_pool capped
  reserve_payout_tier-either s {r} h =
      let promised = get_or (pos 0) (offer_key k tier) s.tresrv in
      let free = (load_tier_pool tier s).balance -ℤ (load_tier_pool tier s).reserved in
      let reserve = min_ℤ (saturating_sub_i128 (share_of_claim amt tier s) promised) free in
      ground (
        arith,
        mul_i128-either amt (pos (load_tier_pool tier s).payout_cap_bps),
        div_i128-either (amt *ℤ pos (load_tier_pool tier s).payout_cap_bps) bps_denominator,
        sub_i128-either (load_tier_pool tier s).balance (load_tier_pool tier s).reserved,
        add_i128-either promised reserve,
        add_i128-either (load_tier_pool tier s).reserved reserve,
      )

  pub reserve_payout_tier_lem :
      (s : Insurance) {r : ℤ} {s' : Insurance}
      → TiersBalanced s
      → reserve_payout_tier c k tier amt s ≡ ok (r, s')
      → (get_or (pos 0) (offer_key k tier) s'.tresrv
          ≡ get_or (pos 0) (offer_key k tier) s.tresrv +ℤ r)
        × (get_or (pos 0) (offer_key k tier) s'.tresrv
            ≤ℤ max_ℤ (get_or (pos 0) (offer_key k tier) s.tresrv) (share_of_claim amt tier s))
        × ((load_tier_pool tier s').reserved
            ≤ℤ max_ℤ (load_tier_pool tier s).reserved (load_tier_pool tier s).balance)
        × TiersBalanced s'
  reserve_payout_tier_lem s {r} {s'} b h =
      let key = offer_key k tier in
      let promised = get_or (pos 0) key s.tresrv in
      let pool = load_tier_pool tier s in
      let at_least = le-max_ℤ promised (share_of_claim amt tier s) in
      let reserved_bound = le-max_ℤ pool.reserved pool.balance in
      elim (reserve_payout_tier-either s h) [
        | inl (zero, same) ↦ (
          rw (same, zero) (plus_zero promised),
          rw same at_least.0,
          rw same reserved_bound.0,
          λ u. rw same (b u),
        )
        | inr (positive, exact, tresrv, stakes, pools) ↦
            let after : get_or (pos 0) key s'.tresrv ≡ promised +ℤ r =
              rw
                (
                  tresrv,
                  get_or-set (pos 0) key key (promised +ℤ r) s.tresrv,
                  same_offer_key_refl key,
                )
                refl in
            let low =
              min_ℤ_le (saturating_sub_i128 (share_of_claim amt tier s) promised)
                (pool.balance -ℤ pool.reserved) in
            let capped_at =
              saturating_below (share_of_claim amt tier s) promised r positive (rw exact low.0) in
            let free : r ≤ℤ pool.balance -ℤ pool.reserved = rw exact low.1 in
            (
              after,
              rw after (omega (int_laws, at_least.0, at_least.1, capped_at)),
              rw (pool_after tier tier _ s s' pools, same_tier_refl tier)
                  (omega (int_laws, reserved_bound.1, free)),
              tiers_after tier (pos 0) (pos 0) _ s s' b pools refl (λ u. rw stakes refl),
            )
      ]
