-- ===== src/Insurance/TierBalance.antt =====
-- The balance of the tiers of insurance/src/lib.rs under `stake_tier` and `unstake_tier`.
use invofi_contracts.Prelude.{◌≡◌, inl, inr, Bool, Bool-cases, arith, if◌then◌else◌}
use invofi_contracts.Prelude.Int.{ℤ, pos, ◌+ℤ◌, ◌-ℤ◌, int_laws, parts_of_eq, is_zero, is_zero→≡}
use invofi_contracts.Prelude.Maps.{Map, get_or, set, balances_sum}
use invofi_contracts.Prelude.MapLaws.{get_or-set, sum-set, sum-remove, selected, selected_zero}
use invofi_contracts.Host.Outcome.{Address, ok, Invocation}
use invofi_contracts.Host.MachineLaws.{add_i128-either, sub_i128-either}
use invofi_contracts.Common.Clients.{Token}
use invofi_contracts.Insurance.State.{
  Insurance, InsuranceTier, InsuranceTier_key, same_tier, same_tier_eq, PoolRecord, TierStakeKey,
  TierStakeKey_key, load_tier_pool, save_tier_pool,
}
use invofi_contracts.Insurance.Reduction.{put_balance}
use invofi_contracts.Insurance.Tiers.Stakes.{tier_key, stake_tier, unstake_tier}

abbrev pub in_tier : InsuranceTier → TierStakeKey → Bool
in_tier tier key = same_tier key.tier tier

abbrev pub staked_in : InsuranceTier → Insurance → ℤ
staked_in tier s = balances_sum (in_tier tier) s.tstakes

-- Every tier's balance is the sum of the stakes in it.
abbrev pub TiersBalanced : Insurance → Type 0
TiersBalanced s = (tier : InsuranceTier) → staked_in tier s ≡ (load_tier_pool tier s).balance

pub pool_after :
    (tier u : InsuranceTier) (pool : PoolRecord) (s s' : Insurance)
    → s'.pools ≡ set tier pool s.pools
    → load_tier_pool u s' ≡ (if same_tier tier u then pool else load_tier_pool u s)
unfolding load_tier_pool
pool_after tier u pool s s' h = rw h (get_or-set _ tier u pool s.pools)

-- One tier's stakes and its balance lose `out` and gain `into`; no other tier moves.
pub tiers_after :
    (tier : InsuranceTier) (out into : ℤ) (pool : PoolRecord) (s s' : Insurance)
    → TiersBalanced s
    → s'.pools ≡ set tier pool s.pools
    → pool.balance +ℤ out ≡ (load_tier_pool tier s).balance +ℤ into
    → ((u : InsuranceTier)
        → staked_in u s' +ℤ selected (same_tier tier u) out
          ≡ staked_in u s +ℤ selected (same_tier tier u) into)
    → TiersBalanced s'
tiers_after tier out into pool s s' b pools balance sums u = elim (Bool-cases (same_tier tier u)) [
  | inl same ↦
      rw (pool_after tier u pool s s' pools, same)
        (moving _ _ out into _ _ (rw same at (sums u)) (rw (same_tier_eq tier u same) at balance)
          (b u))
  | inr other ↦
      rw (pool_after tier u pool s s' pools, other) (staying _ _ _ (rw other at (sums u)) (b u))
]
  where
    moving :
        (a a' out into p p' : ℤ) → a' +ℤ out ≡ a +ℤ into → p' +ℤ out ≡ p +ℤ into → a ≡ p → a' ≡ p'
    moving a a' out into p p' e f g =
        omega (int_laws, parts_of_eq _ _ e, parts_of_eq _ _ f, parts_of_eq _ _ g)

    staying : (a a' p : ℤ) → a' +ℤ pos 0 ≡ a +ℤ pos 0 → a ≡ p → a' ≡ p
    staying a a' p e f = omega (int_laws, parts_of_eq _ _ e, parts_of_eq _ _ f)

pub put_balance-selected :
    (sel : TierStakeKey → Bool) (key : TierStakeKey) (v : ℤ) (m : Map TierStakeKey ℤ)
    → balances_sum sel (put_balance key v m) +ℤ selected (sel key) (get_or (pos 0) key m)
      ≡ balances_sum sel m +ℤ selected (sel key) v
put_balance-selected sel key v m = elim (Bool-cases (is_zero v)) [
  | inl none ↦
      rw (none, is_zero→≡ v none, selected_zero (sel key)) (plus_zero _ _ (sum-remove sel key m))
  | inr some ↦ rw some (sum-set sel key v m)
]
  where
    plus_zero : (a b : ℤ) → a ≡ b → a ≡ b +ℤ pos 0
    plus_zero a b h = omega (int_laws, parts_of_eq _ _ h)

swap_in : (a b d : ℤ) → a +ℤ d +ℤ b ≡ a +ℤ (b +ℤ d)
swap_in a b d = omega int_laws

swap_out : (a b d : ℤ) → a -ℤ d +ℤ b ≡ a +ℤ (b -ℤ d)
swap_out a b d = omega int_laws

module _ {W : Type 0} (token : Token W) (c : Invocation) where
  stake_tier-fields :
      (staker : Address) (tier : InsuranceTier) (amt : ℤ) (s : Insurance) (w : W) {s' : Insurance}
      {w' : W}
      → stake_tier token c staker tier amt s w ≡ ok (s', w')
      → (s'.tstakes
          ≡ set
              (tier_key staker tier)
              (get_or (pos 0) (tier_key staker tier) s.tstakes +ℤ amt)
              s.tstakes)
        × (s'.pools
            ≡ set tier
                (record (load_tier_pool tier s) {
                  balance = (load_tier_pool tier s).balance +ℤ amt;
                })
                s.pools)
  unfolding stake_tier save_tier_pool
  stake_tier-fields staker tier amt s w h = ground (
    arith,
    add_i128-either (get_or (pos 0) (tier_key staker tier) s.tstakes) amt,
    add_i128-either (load_tier_pool tier s).balance amt,
  )

  unstake_tier-fields :
      (staker : Address) (tier : InsuranceTier) (amt : ℤ) (s : Insurance) (w : W) {s' : Insurance}
      {w' : W}
      → unstake_tier token c staker tier amt s w ≡ ok (s', w')
      → (s'.tstakes
          ≡ put_balance
              (tier_key staker tier)
              (get_or (pos 0) (tier_key staker tier) s.tstakes -ℤ amt)
              s.tstakes)
        × (s'.pools
            ≡ set tier
                (record (load_tier_pool tier s) {
                  balance = (load_tier_pool tier s).balance -ℤ amt;
                })
                s.pools)
  unfolding unstake_tier save_tier_pool
  unstake_tier-fields staker tier amt s w h = ground (
    arith,
    sub_i128-either (get_or (pos 0) (tier_key staker tier) s.tstakes) amt,
    sub_i128-either (load_tier_pool tier s).balance amt,
  )

  -- `stake_tier` keeps every tier balanced.
  pub stake_tier-TiersBalanced :
      (staker : Address) (tier : InsuranceTier) (amt : ℤ) (s : Insurance) (w : W) {s' : Insurance}
      {w' : W}
      → TiersBalanced s
      → stake_tier token c staker tier amt s w ≡ ok (s', w')
      → TiersBalanced s'
  stake_tier-TiersBalanced staker tier amt s w {s'} b h =
      let (stakes, pools) = stake_tier-fields staker tier amt s w h in
      let key = tier_key staker tier in
      let old = get_or (pos 0) key s.tstakes in
      tiers_after tier old (old +ℤ amt) _ s s' b pools
        (swap_in (load_tier_pool tier s).balance old amt)
        (λ u. rw stakes (sum-set (in_tier u) key (old +ℤ amt) s.tstakes))

  -- `unstake_tier` keeps every tier balanced.
  pub unstake_tier-TiersBalanced :
      (staker : Address) (tier : InsuranceTier) (amt : ℤ) (s : Insurance) (w : W) {s' : Insurance}
      {w' : W}
      → TiersBalanced s
      → unstake_tier token c staker tier amt s w ≡ ok (s', w')
      → TiersBalanced s'
  unstake_tier-TiersBalanced staker tier amt s w {s'} b h =
      let (stakes, pools) = unstake_tier-fields staker tier amt s w h in
      let key = tier_key staker tier in
      let old = get_or (pos 0) key s.tstakes in
      tiers_after tier old (old -ℤ amt) _ s s' b pools
        (swap_out (load_tier_pool tier s).balance old amt)
        (λ u. rw stakes (put_balance-selected (in_tier u) key (old -ℤ amt) s.tstakes))
