-- ===== src/Insurance/Flat.antt =====
-- `stake` and `unstake` of insurance/src/lib.rs, on the flat pool.
use invofi_contracts.Prelude.{ℕ, [], ◌∷◌, if◌then◌else◌}
use invofi_contracts.Prelude.Int.{ℤ, pos, ltb_ℤ, leb_ℤ, is_zero}
use invofi_contracts.Prelude.Maps.{Map, ℕ_key, get_or, set, remove}
use invofi_contracts.Host.Outcome.{
  Address, Result, ok, ◌>>=◌, ◌>>◌, contract, invalid_input, insufficient_balance, guard,
  Invocation, require_auth,
}
use invofi_contracts.Host.Machine.{add_i128, sub_i128}
use invofi_contracts.Host.Events.{word, address, amount}
use invofi_contracts.Common.Storage.{Storage, publish, assert_not_paused}
use invofi_contracts.Common.Clients.{Token}
use invofi_contracts.Insurance.State.{Insurance, load_token, min_stake_amount}
use invofi_contracts.Insurance.Yield.{Accounts, bank_accrued_yield}

-- What is staked is set, or removed when nothing is left.
abbrev pub put_stake : Address → ℤ → Map Address ℤ → Map Address ℤ
put_stake staker balance stakes =
    if is_zero balance then remove staker stakes else set staker balance stakes

abbrev accounts_of : Insurance → Accounts Address
accounts_of s = record { timestamps = s.stk_ts; accruals = s.yld_acc }

-- A top-up banks the yield so far; a first stake starts the clock.
unfoldable pub checkpoint : Address → ℤ → ℕ → Insurance → Result (Accounts Address)
checkpoint staker existing now s =
    if ltb_ℤ (pos 0) existing
    then bank_accrued_yield s.yldrate staker s.stakes now (accounts_of s)
    else ok (record { timestamps = set staker now s.stk_ts; accruals = s.yld_acc })

-- After a withdrawal: a position that is closed leaves no accounts, any other has its yield paid.
abbrev pub settle : Address → ℤ → Accounts Address → Accounts Address
settle staker new_balance a =
    if is_zero new_balance
    then record { timestamps = remove staker a.timestamps; accruals = remove staker a.accruals }
    else record a { accruals = set staker (pos 0) a.accruals }

module _ {W : Type 0} (token : Token W) where
  unfoldable pub stake : Invocation → Address → ℤ → Insurance → W → Result (Insurance × W)
  unfolding checkpoint
  stake c staker amt s w = do
    assert_not_paused s.store
    require_auth c staker
    guard (ltb_ℤ (pos 0) amt) (contract invalid_input)
    let existing = get_or (pos 0) staker s.stakes
    increased ← add_i128 existing amt
    guard (leb_ℤ min_stake_amount increased) (contract invalid_input)
    token_addr ← load_token s
    w' ← token.transfer_from token_addr c.self staker c.self amt w
    a ← checkpoint staker existing c.now s
    total ← add_i128 s.pooltot amt
    ok (
      record s {
        stakes = set staker increased s.stakes;
        stk_ts = a.timestamps;
        yld_acc = a.accruals;
        pooltot = total;
        store = publish (word "pool_stk" ∷ address staker ∷ []) (amount amt ∷ []) s.store;
      },
      w',
    )

  -- The yield is paid by a second transfer, if there is any.
  unfoldable pub pay_yield : Address → Address → Address → ℤ → Storage → W → Result (Storage × W)
  pay_yield token_addr self staker yield_payout store w =
      if ltb_ℤ (pos 0) yield_payout
      then (do
        w' ← token.transfer token_addr self staker yield_payout w
        ok (publish (word "pool_yld" ∷ address staker ∷ []) (amount yield_payout ∷ []) store, w'))
      else ok (store, w)

  -- Not guarded by the pause.
  unfoldable pub unstake : Invocation → Address → ℤ → Insurance → W → Result (Insurance × W)
  unfolding pay_yield
  unstake c staker amt s w = do
    require_auth c staker
    guard (ltb_ℤ (pos 0) amt) (contract invalid_input)
    let balance = get_or (pos 0) staker s.stakes
    guard (leb_ℤ amt balance) (contract insufficient_balance)
    a ← bank_accrued_yield s.yldrate staker s.stakes c.now (accounts_of s)
    let yield_payout = get_or (pos 0) staker a.accruals
    new_balance ← sub_i128 balance amt
    let settled = settle staker new_balance a
    total ← sub_i128 s.pooltot amt
    token_addr ← load_token s
    w1 ← token.transfer token_addr c.self staker amt w
    (store, w2) ← pay_yield token_addr c.self staker yield_payout s.store w1
    ok (
      record s {
        stakes = put_stake staker new_balance s.stakes;
        stk_ts = settled.timestamps;
        yld_acc = settled.accruals;
        pooltot = total;
        store = publish (word "pool_un" ∷ address staker ∷ []) (amount amt ∷ []) store;
      },
      w2,
    )
