-- ===== src/Insurance/Tiers/Payouts.antt =====
-- `pay_out_tier`, `reserve_payout_tier` and `claim_payout_tier` of insurance/src/lib.rs.
use invofi_contracts.Prelude.{Bool, List, [], ◌∷◌, if◌then◌else◌, ◌&&◌}
use invofi_contracts.Prelude.Int.{ℤ, pos, ltb_ℤ, leb_ℤ, min_ℤ}
use invofi_contracts.Prelude.Maps.{Map, get_or, set, keys}
use invofi_contracts.Host.Outcome.{
  Address, Symbol, Result, ok, ◌>>=◌, ◌>>◌, contract, insufficient_balance, guard, Invocation,
}
use invofi_contracts.Host.Machine.{add_i128, sub_i128, mul_i128, div_i128, saturating_sub_i128}
use invofi_contracts.Host.Events.{word, address, symbol, number, amount}
use invofi_contracts.Common.Storage.{publish}
use invofi_contracts.Common.Clients.{Token, RegistryClient}
use invofi_contracts.Insurance.State.{
  Insurance, InsuranceTier, tier_code, same_tier, PoolRecord, TierStakeKey, TierStakeKey_key,
  TierOfferKey, TierOfferKey_key, load_tier_pool, save_tier_pool, load_token, bps_denominator,
}
use invofi_contracts.Insurance.Reduction.{reduce_stakes}
use invofi_contracts.Insurance.Payout.{assert_payout_caller, assert_defaulted}

abbrev pub offer_key : Symbol → InsuranceTier → TierOfferKey
offer_key offer_id tier = record { offer_id = offer_id; tier = tier }

-- The keys of one tier, in order.
abbrev pub keys_of_tier : InsuranceTier → List TierStakeKey → List TierStakeKey
keys_of_tier tier [] = []
keys_of_tier tier (key ∷ rest) =
    if same_tier key.tier tier then key ∷ keys_of_tier tier rest else keys_of_tier tier rest

abbrev same : ℤ → ℤ → Bool
same a b = leb_ℤ a b && leb_ℤ b a

-- `amount * payout_cap_bps / BPS_DENOMINATOR`
unfoldable pub capped : ℤ → PoolRecord → Result ℤ
capped amt pool = do
  product ← mul_i128 amt (pos pool.payout_cap_bps)
  div_i128 product bps_denominator

-- The loop over the tier's stakes, and the guard that it covered the payout.
unfoldable pub reduce_tier : InsuranceTier → ℤ → ℤ → Insurance → Result (Map TierStakeKey ℤ)
reduce_tier tier payout original_balance s = do
  (stakes, reductions) ←
      reduce_stakes payout original_balance (keys_of_tier tier (keys s.tstakes)) s.tstakes
  guard (same reductions payout) (contract insufficient_balance)
  ok stakes

module _ {W : Type 0} (token : Token W) where
  unfoldable pub pay_from_tier :
      Invocation → InsuranceTier → Address → ℤ → Insurance → W → Result (ℤ × Insurance × W)
  unfolding save_tier_pool
  pay_from_tier c tier beneficiary payout s w = do
    let pool = load_tier_pool tier s
    stakes ← reduce_tier tier payout pool.balance s
    balance ← sub_i128 pool.balance payout
    token_addr ← load_token s
    w' ← token.transfer token_addr c.self beneficiary payout w
    ok (
      payout,
      save_tier_pool tier (record pool { balance = balance })
          (record s {
            tstakes = stakes;
            store =
                publish (word "pool_pay" ∷ address beneficiary ∷ number (tier_code tier) ∷ [])
                  (amount payout ∷ []) s.store;
          }),
      w',
    )

  unfoldable pub pay_out_tier :
      RegistryClient W
      → Invocation
      → Symbol
      → InsuranceTier
      → Address
      → ℤ
      → Insurance
      → W
      → Result (ℤ × Insurance × W)
  pay_out_tier registry c invoice_id tier beneficiary amt s w = do
    assert_payout_caller c amt s
    assert_defaulted registry invoice_id s w
    capped_claim ← capped amt (load_tier_pool tier s)
    let payout = min_ℤ capped_claim (load_tier_pool tier s).balance
    if leb_ℤ payout (pos 0) then ok (pos 0, s, w) else pay_from_tier c tier beneficiary payout s w

unfoldable pub reserve_payout_tier :
    Invocation → Symbol → InsuranceTier → ℤ → Insurance → Result (ℤ × Insurance)
unfolding save_tier_pool
reserve_payout_tier c offer_id tier amt s = do
  assert_payout_caller c amt s
  let pool = load_tier_pool tier s
  let key = offer_key offer_id tier
  let already_reserved = get_or (pos 0) key s.tresrv
  capped_total ← capped amt pool
  free ← sub_i128 pool.balance pool.reserved
  let reserve = min_ℤ (saturating_sub_i128 capped_total already_reserved) free
  if leb_ℤ reserve (pos 0) then ok (pos 0, s) else (do
    promised ← add_i128 already_reserved reserve
    reserved ← add_i128 pool.reserved reserve
    ok (
      reserve,
      save_tier_pool tier (record pool { reserved = reserved })
          (record s {
            tresrv = set key promised s.tresrv;
            store =
                publish (word "ins_rsrv" ∷ symbol offer_id ∷ number (tier_code tier) ∷ [])
                  (amount reserve ∷ []) s.store;
          }),
    ))

module _ {W : Type 0} (token : Token W) where
  unfoldable pub pay_tier_claim :
      Invocation
      → Symbol
      → InsuranceTier
      → Address
      → ℤ
      → ℤ
      → ℤ
      → Insurance
      → W
      → Result ((ℤ × ℤ) × Insurance × W)
  unfolding save_tier_pool
  pay_tier_claim c offer_id tier lender paid paid_before remaining s w = do
    let pool = load_tier_pool tier s
    stakes ← reduce_tier tier paid pool.balance s
    paid_total ← add_i128 paid_before paid
    balance ← sub_i128 pool.balance paid
    reserved ← sub_i128 pool.reserved paid
    token_addr ← load_token s
    w' ← token.transfer token_addr c.self lender paid w
    remaining_after ← sub_i128 remaining paid
    ok (
      (paid, remaining_after),
      save_tier_pool tier (record pool { balance = balance; reserved = reserved })
          (record s {
            tstakes = stakes;
            tpaid = set (offer_key offer_id tier) paid_total s.tpaid;
            store =
                publish (word "ins_pay" ∷ symbol offer_id ∷ number (tier_code tier) ∷ [])
                  (amount paid ∷ amount remaining_after ∷ []) s.store;
          }),
      w',
    )

  unfoldable pub claim_payout_tier :
      Invocation
      → Symbol
      → InsuranceTier
      → Address
      → ℤ
      → Insurance
      → W
      → Result ((ℤ × ℤ) × Insurance × W)
  claim_payout_tier c offer_id tier lender amt s w = do
    assert_payout_caller c amt s
    let paid_before = get_or (pos 0) (offer_key offer_id tier) s.tpaid
    remaining ← sub_i128 (get_or (pos 0) (offer_key offer_id tier) s.tresrv) paid_before
    guard (ltb_ℤ (pos 0) remaining) (contract insufficient_balance)
    let paid = min_ℤ (min_ℤ amt remaining) (load_tier_pool tier s).balance
    if leb_ℤ paid (pos 0)
        then ok ((pos 0, remaining), s, w)
        else pay_tier_claim c offer_id tier lender paid paid_before remaining s w
