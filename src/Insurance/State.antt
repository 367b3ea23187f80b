-- ===== src/Insurance/State.antt =====
-- The data and the storage of insurance/src/lib.rs.
use invofi_contracts.Prelude.{
  ℕ, ◌≡◌, Bool, true, ◌&&◌, Option, ltb, ◌==◌, ==_refl, arith, if◌then◌else◌,
}
use invofi_contracts.Prelude.Int.{ℤ, pos}
use invofi_contracts.Prelude.Maps.{Key, Map, ℕ_key, get_or, set}
use invofi_contracts.Host.Outcome.{Address, Symbol, Result, panicked, unwrap}
use invofi_contracts.Common.Storage.{Storage}

-- 0.1 XLM or USDC
abbrev pub min_stake_amount : ℤ
min_stake_amount = pos 1000000

abbrev pub seconds_per_year : ℕ
seconds_per_year = 31536000

abbrev pub bps_denominator : ℤ
bps_denominator = pos 10000

-- 30 days
abbrev pub risk_age_secs : ℕ
risk_age_secs = 2592000

abbrev pub risk_large_invoice_amount : ℤ
risk_large_invoice_amount = pos 1000000000

pub data InsuranceTier : Type 0 where
  conservative balanced aggressive : InsuranceTier

abbrev pub tier_code : InsuranceTier → ℕ
tier_code InsuranceTier.conservative = 0
tier_code InsuranceTier.balanced = 1
tier_code InsuranceTier.aggressive = 2

pub record PoolRecord : Type 0 where
  pub balance : ℤ
  pub reserved : ℤ
  pub apy_bps : ℕ
  pub payout_cap_bps : ℕ

pub record TierStakeKey : Type 0 where
  pub staker : Address
  pub tier : InsuranceTier

pub record TierOfferKey : Type 0 where
  pub offer_id : Symbol
  pub tier : InsuranceTier

-- Keys of a structure type are compared field by field.
abbrev pub same_tier : InsuranceTier → InsuranceTier → Bool
same_tier t u = tier_code t == tier_code u

pub same_tier_refl : (t : InsuranceTier) → same_tier t t ≡ true
same_tier_refl t = ==_refl (tier_code t)

pub same_tier_eq : (t u : InsuranceTier) → same_tier t u ≡ true → t ≡ u
same_tier_eq t u h = ground arith

instance abbrev pub InsuranceTier_key : Key InsuranceTier
InsuranceTier_key = record {
  beq = same_tier;
  before = λ t u. ltb (tier_code t) (tier_code u);
  beq_refl = same_tier_refl;
  eq_of_beq = same_tier_eq;
}

abbrev pub same_stake_key : TierStakeKey → TierStakeKey → Bool
same_stake_key k j = k.staker == j.staker && same_tier k.tier j.tier

pub same_stake_key_refl : (k : TierStakeKey) → same_stake_key k k ≡ true
same_stake_key_refl k = ground (arith, same_tier_refl k.tier)

pub same_stake_key_eq : (k j : TierStakeKey) → same_stake_key k j ≡ true → k ≡ j
same_stake_key_eq k j h = ground (arith, same_tier_eq k.tier j.tier)

instance abbrev pub TierStakeKey_key : Key TierStakeKey
TierStakeKey_key = record {
  beq = same_stake_key;
  before = λ k j.
      if k.staker == j.staker
      then ltb (tier_code k.tier) (tier_code j.tier)
      else ltb k.staker j.staker;
  beq_refl = same_stake_key_refl;
  eq_of_beq = same_stake_key_eq;
}

abbrev pub same_offer_key : TierOfferKey → TierOfferKey → Bool
same_offer_key k j = k.offer_id == j.offer_id && same_tier k.tier j.tier

pub same_offer_key_refl : (k : TierOfferKey) → same_offer_key k k ≡ true
same_offer_key_refl k = ground (arith, same_tier_refl k.tier)

pub same_offer_key_eq : (k j : TierOfferKey) → same_offer_key k j ≡ true → k ≡ j
same_offer_key_eq k j h = ground (arith, same_tier_eq k.tier j.tier)

instance abbrev pub TierOfferKey_key : Key TierOfferKey
TierOfferKey_key = record {
  beq = same_offer_key;
  before = λ k j.
      if k.offer_id == j.offer_id
      then ltb (tier_code k.tier) (tier_code j.tier)
      else ltb k.offer_id j.offer_id;
  beq_refl = same_offer_key_refl;
  eq_of_beq = same_offer_key_eq;
}

-- The storage; a field is named after its storage key, and an absent map or number is empty or zero,
-- as every reader of it takes it.
pub record Insurance : Type 0 where
  pub store : Storage
  pub paycall : Option Address
  pub registry : Option Address
  pub stakes : Map Address ℤ
  pub pooltot : ℤ
  pub yldrate : ℕ
  pub stk_ts : Map Address ℕ
  pub yld_acc : Map Address ℤ
  pub tot_out : ℤ
  pub resrvd : Map Symbol ℤ
  pub paid : Map Symbol ℤ
  pub pools : Map InsuranceTier PoolRecord
  pub tstakes : Map TierStakeKey ℤ
  pub tstk_ts : Map TierStakeKey ℕ
  pub tyld_acc : Map TierStakeKey ℤ
  pub tresrv : Map TierOfferKey ℤ
  pub tpaid : Map TierOfferKey ℤ

-- The fixed economics of a tier: its yearly yield and its payout cap, in basis points.
unfoldable pub tier_parameters : InsuranceTier → ℕ × ℕ
tier_parameters InsuranceTier.conservative = (200, 5000)
tier_parameters InsuranceTier.balanced = (500, 7500)
tier_parameters InsuranceTier.aggressive = (1000, 10000)

unfoldable pub load_tier_pool : InsuranceTier → Insurance → PoolRecord
unfolding tier_parameters
load_tier_pool tier s =
    let (apy_bps, payout_cap_bps) = tier_parameters tier in
    get_or
      (record {
        balance = pos 0;
        reserved = pos 0;
        apy_bps = apy_bps;
        payout_cap_bps = payout_cap_bps;
      })
      tier s.pools

unfoldable pub save_tier_pool : InsuranceTier → PoolRecord → Insurance → Insurance
save_tier_pool tier pool s = record s { pools = set tier pool s.pools }

unfoldable pub load_token : Insurance → Result Address
load_token s = unwrap s.store.token panicked

-- `get_stake`
unfoldable pub get_stake : Address → Insurance → ℤ
get_stake staker s = get_or (pos 0) staker s.stakes

unfoldable pub get_tier_stake : Address → InsuranceTier → Insurance → ℤ
get_tier_stake staker tier s = get_or (pos 0) (record { staker = staker; tier = tier }) s.tstakes
