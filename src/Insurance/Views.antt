-- ===== src/Insurance/Views.antt =====
-- The read-only entry points of insurance/src/lib.rs.
use invofi_contracts.Prelude.{ℕ, Option}
use invofi_contracts.Prelude.Lists.{length}
use invofi_contracts.Prelude.Int.{ℤ, pos}
use invofi_contracts.Prelude.Maps.{ℕ_key, get_or}
use invofi_contracts.Host.Outcome.{Address, Symbol, Result, ok, ◌>>=◌, Invocation}
use invofi_contracts.Common.Clients.{Token}
use invofi_contracts.Insurance.State.{
  Insurance, InsuranceTier, PoolRecord, load_tier_pool, load_token,
}

unfoldable pub get_staking_token : Insurance → Result Address
get_staking_token s = load_token s

unfoldable pub get_payout_caller : Insurance → Option Address
get_payout_caller s = s.paycall

unfoldable pub get_registry : Insurance → Option Address
get_registry s = s.registry

unfoldable pub get_yield_rate : Insurance → ℕ
get_yield_rate s = s.yldrate

unfoldable pub get_pool : InsuranceTier → Insurance → PoolRecord
get_pool tier s = load_tier_pool tier s

unfoldable pub get_reserved : Symbol → Insurance → ℤ
get_reserved offer_id s = get_or (pos 0) offer_id s.resrvd

unfoldable pub get_paid : Symbol → Insurance → ℤ
get_paid offer_id s = get_or (pos 0) offer_id s.paid

unfoldable pub get_pool_total : Insurance → ℤ
get_pool_total s = s.pooltot

unfoldable pub get_stakers_count : Insurance → ℕ
get_stakers_count s = length s.stakes

module _ {W : Type 0} (token : Token W) where
  unfoldable pub get_contract_token_balance : Invocation → Insurance → W → Result ℤ
  get_contract_token_balance c s w = do
    token_addr ← load_token s
    ok (token.balance token_addr c.self w)
