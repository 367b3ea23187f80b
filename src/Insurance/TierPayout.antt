-- ===== src/Insurance/TierPayout.antt =====
-- The payments from a tier of insurance/src/lib.rs: the reduction of its stakes.
use invofi_contracts.Prelude.{
  ℕ, ◌≡◌, refl, inl, inr, Bool, true, false, Bool-cases, List, [], ◌∷◌, ◌==◌, arith, ◌&&◌,
}
use invofi_contracts.Prelude.Lists.{All, length}
use invofi_contracts.Prelude.Int.{ℤ, pos, ◌+ℤ◌, ◌-ℤ◌, int_laws, parts_of_eq, eq_of_parts, leb_ℤ}
use invofi_contracts.Prelude.Maps.{Map, get_or, set, keys, balances_sum}
use invofi_contracts.Prelude.MapLaws.{selected}
use invofi_contracts.Host.Outcome.{Address, Symbol, ok, Invocation, Result-cases}
use invofi_contracts.Host.MachineLaws.{add_i128-either, sub_i128-either}
use invofi_contracts.Common.Clients.{Token}
use invofi_contracts.Insurance.State.{
  Insurance, InsuranceTier, InsuranceTier_key, same_tier, same_tier_eq, TierStakeKey,
  TierStakeKey_key, TierOfferKey_key, load_tier_pool, save_tier_pool,
}
use invofi_contracts.Insurance.Reduction.{put_balance, reduce_stakes}
use invofi_contracts.Insurance.Tiers.Payouts.{
  offer_key, keys_of_tier, reduce_tier, pay_from_tier, pay_tier_claim,
}
use invofi_contracts.Prelude.{suc}
use invofi_contracts.Host.Outcome.{ok-injective}
use invofi_contracts.Insurance.Reduction.{reduction_for, reduce_from}
use invofi_contracts.Insurance.ReductionLaws.{reduce_from-sum}
use invofi_contracts.Insurance.TierBalance.{
  in_tier, staked_in, TiersBalanced, tiers_after, put_balance-selected,
}

unmoved : (a b : ℤ) → a +ℤ pos 0 ≡ b +ℤ pos 0 → a ≡ b
unmoved a b h = omega (int_laws, parts_of_eq _ _ h)

module _ (sel : TierStakeKey → Bool) (payout pool_total : ℤ) (count : ℕ) where
  -- The loop leaves alone the sum of the stakes whose keys it does not visit.
  reduce_from-unselected :
      (i : ℕ) (keys : List TierStakeKey) (stakes : Map TierStakeKey ℤ) (reductions : ℤ)
      {out : Map TierStakeKey ℤ × ℤ}
      → All (λ key. sel key ≡ false) keys
      → reduce_from payout pool_total count i keys stakes reductions ≡ ok out
      → balances_sum sel out.0 ≡ balances_sum sel stakes
  unfolding reduce_from
  reduce_from-unselected i [] stakes reductions all h = rw (← ok-injective _ _ h) refl
  reduce_from-unselected i (key ∷ rest) stakes reductions {out} all h =
      let balance = get_or (pos 0) key stakes in
      elim (Result-cases (reduction_for payout pool_total (suc i == count) balance reductions)) [
        | inr (x, bad) ↦ absurd (ground arith)
        | inl (reduction, found) ↦
            let next = put_balance key (balance -ℤ reduction) stakes in
            let rest_ok : reduce_from payout pool_total count (suc i) rest next
                  (reductions +ℤ reduction)
                ≡ ok out =
              ground
                (arith, sub_i128-either balance reduction, add_i128-either reductions reduction) in
            rw (reduce_from-unselected (suc i) rest next (reductions +ℤ reduction) all.1 rest_ok) (
              unmoved _ _
                (rw all.0 at (put_balance-selected sel key (balance -ℤ reduction) stakes)))
      ]

All-in_tier :
    (tier u : InsuranceTier) (b : Bool) (ks : List TierStakeKey)
    → same_tier tier u ≡ b
    → All (λ key. in_tier u key ≡ b) (keys_of_tier tier ks)
All-in_tier tier u b [] h = tt
All-in_tier tier u b (key ∷ rest) h = elim (Bool-cases (same_tier key.tier tier)) [
  | inl same ↦ rw same (rw (same_tier_eq key.tier tier same) h, All-in_tier tier u b rest h)
  | inr other ↦ rw other (All-in_tier tier u b rest h)
]

same_eq : (a b : ℤ) → (leb_ℤ a b && leb_ℤ b a) ≡ true → a ≡ b
same_eq a b h = ground (arith, eq_of_parts a b)

-- A tier whose stakes are reduced loses the payout, and no other tier loses anything.
reduce_tier-staked :
    (tier : InsuranceTier) (payout original : ℤ) (s : Insurance) {stakes : Map TierStakeKey ℤ}
    → reduce_tier tier payout original s ≡ ok stakes
    → (u : InsuranceTier)
    → balances_sum (in_tier u) stakes +ℤ selected (same_tier tier u) payout
      ≡ staked_in u s +ℤ selected (same_tier tier u) (pos 0)
unfolding reduce_tier reduce_stakes
reduce_tier-staked tier payout original s {stakes} h u =
    let ks = keys_of_tier tier (keys s.tstakes) in
    let n = length ks in
    elim (Result-cases (reduce_from payout original n 0 ks s.tstakes (pos 0))) [
      | inr (x, bad) ↦ absurd (ground arith)
      | inl (out, found) ↦
          let taken : out.1 ≡ payout = ground (arith, same_eq out.1 payout) in
          let kept : stakes ≡ out.0 = ground arith in
          elim (Bool-cases (same_tier tier u)) [
            | inl same ↦
                rw (same, kept, ← taken)
                  (reduce_from-sum (in_tier u) payout original n 0 ks s.tstakes (pos 0)
                    (All-in_tier tier u true (keys s.tstakes) same) found)
            | inr other ↦
                rw
                  (
                    other,
                    kept,
                    reduce_from-unselected (in_tier u) payout original n 0 ks s.tstakes (pos 0)
                        (All-in_tier tier u false (keys s.tstakes) other) found,
                  )
                  refl
          ]
    ]

taken_out : (a d : ℤ) → a -ℤ d +ℤ d ≡ a +ℤ pos 0
taken_out a d = omega int_laws

module _ {W : Type 0} (token : Token W) (c : Invocation) where
  pub pay_from_tier-fields :
      (tier : InsuranceTier) (beneficiary : Address) (payout : ℤ) (s : Insurance) (w : W) {p : ℤ}
      {s' : Insurance} {w' : W}
      → pay_from_tier token c tier beneficiary payout s w ≡ ok (p, s', w')
      → (stakes : Map TierStakeKey ℤ) × (reduce_tier tier payout (load_tier_pool tier s).balance s
          ≡ ok stakes)
        × ((p ≡ payout)
            × (s'.tstakes ≡ stakes)
            × (s'.pools
                ≡ set tier
                    (record (load_tier_pool tier s) {
                      balance = (load_tier_pool tier s).balance -ℤ payout;
                    })
                    s.pools))
  unfolding pay_from_tier save_tier_pool
  pay_from_tier-fields tier beneficiary payout s w h =
      elim (Result-cases (reduce_tier tier payout (load_tier_pool tier s).balance s)) [
        | inr (x, bad) ↦ absurd (ground arith)
        | inl (stakes, found) ↦
            (stakes, found, ground (arith, sub_i128-either (load_tier_pool tier s).balance payout))
      ]

  pub pay_tier_claim-fields :
      (k : Symbol) (tier : InsuranceTier) (lender : Address) (paid paid_before remaining : ℤ)
      (s : Insurance) (w : W) {p left : ℤ} {s' : Insurance} {w' : W}
      → pay_tier_claim token c k tier lender paid paid_before remaining s w ≡ ok ((p, left), s', w')
      → (stakes : Map TierStakeKey ℤ) × (reduce_tier tier paid (load_tier_pool tier s).balance s
          ≡ ok stakes)
        × ((p ≡ paid)
            × (left ≡ remaining -ℤ paid)
            × (s'.tstakes ≡ stakes)
            × (s'.pools
                ≡ set tier
                    (record (load_tier_pool tier s) {
                      balance = (load_tier_pool tier s).balance -ℤ paid;
                      reserved = (load_tier_pool tier s).reserved -ℤ paid;
                    })
                    s.pools)
            × (s'.tresrv ≡ s.tresrv)
            × (s'.tpaid ≡ set (offer_key k tier) (paid_before +ℤ paid) s.tpaid))
  unfolding pay_tier_claim save_tier_pool
  pay_tier_claim-fields k tier lender paid paid_before remaining s w h =
      elim (Result-cases (reduce_tier tier paid (load_tier_pool tier s).balance s)) [
        | inr (x, bad) ↦ absurd (ground arith)
        | inl (stakes, found) ↦ (
          stakes,
          found,
          ground (
            arith,
            sub_i128-either (load_tier_pool tier s).balance paid,
            sub_i128-either (load_tier_pool tier s).reserved paid,
            sub_i128-either remaining paid,
            add_i128-either paid_before paid,
          ),
        )
      ]

  pub pay_from_tier-TiersBalanced :
      (tier : InsuranceTier) (beneficiary : Address) (payout : ℤ) (s : Insurance) (w : W) {p : ℤ}
      {s' : Insurance} {w' : W}
      → TiersBalanced s
      → pay_from_tier token c tier beneficiary payout s w ≡ ok (p, s', w')
      → TiersBalanced s'
  pay_from_tier-TiersBalanced tier beneficiary payout s w {s' = s'} b h =
      let (stakes, found, (_, kept, pools)) = pay_from_tier-fields tier beneficiary payout s w h in
      tiers_after tier payout (pos 0) _ s s' b pools
        (taken_out (load_tier_pool tier s).balance payout)
        (λ u. rw kept (reduce_tier-staked tier payout (load_tier_pool tier s).balance s found u))

  pub pay_tier_claim-TiersBalanced :
      (k : Symbol) (tier : InsuranceTier) (lender : Address) (paid paid_before remaining : ℤ)
      (s : Insurance) (w : W) {p left : ℤ} {s' : Insurance} {w' : W}
      → TiersBalanced s
      → pay_tier_claim token c k tier lender paid paid_before remaining s w ≡ ok ((p, left), s', w')
      → TiersBalanced s'
  pay_tier_claim-TiersBalanced k tier lender paid paid_before remaining s w {s' = s'} b h =
      let (stakes, found, (_, _, kept, pools, _, _)) =
        pay_tier_claim-fields k tier lender paid paid_before remaining s w h in
      tiers_after tier paid (pos 0) _ s s' b pools (taken_out (load_tier_pool tier s).balance paid)
        (λ u. rw kept (reduce_tier-staked tier paid (load_tier_pool tier s).balance s found u))
