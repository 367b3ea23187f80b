-- ===== src/Insurance/FlatBalance.antt =====
-- The balance of the flat pool of insurance/src/lib.rs under `stake`, `unstake` and payouts.
use invofi_contracts.Prelude.{◌≡◌, refl, ◌⊎◌, Bool, true, false, inl, inr, List, [], ◌∷◌, arith}
use invofi_contracts.Prelude.Lists.{All, is_empty}
use invofi_contracts.Prelude.Int.{ℤ, pos, ◌+ℤ◌, ◌-ℤ◌, ◌≤ℤ◌, ◌<ℤ◌, min_ℤ, int_laws, parts_of_eq}
use invofi_contracts.Prelude.Maps.{Map, ℕ_key, get_or, set, keys, balances_sum}
use invofi_contracts.Prelude.MapLaws.{sum-set}
use invofi_contracts.Host.Outcome.{Address, Symbol, ok, Invocation, Result-cases}
use invofi_contracts.Host.MachineLaws.{add_i128-either, sub_i128-either}
use invofi_contracts.Common.Clients.{Token, RegistryClient}
use invofi_contracts.Insurance.State.{Insurance}
use invofi_contracts.Insurance.Flat.{put_stake, stake, unstake}
use invofi_contracts.Insurance.Reduction.{reduce_stakes}
use invofi_contracts.Insurance.ReductionLaws.{sum-put_balance, reduce_stakes-exact}
use invofi_contracts.Insurance.Payout.{pay_from_pool, pay_out}

abbrev pub every : Address → Bool
every _ = true

-- `get_pool_total` is the sum of all `get_stake`.
abbrev pub IsBalanced : Insurance → Type 0
IsBalanced s = balances_sum every s.stakes ≡ s.pooltot

raised :
    (total total' existing amt pooltot : ℤ)
    → total' +ℤ existing ≡ total +ℤ (existing +ℤ amt)
    → total ≡ pooltot
    → total' ≡ pooltot +ℤ amt
raised total total' existing amt pooltot e f =
    omega (int_laws, parts_of_eq _ _ e, parts_of_eq _ _ f)

lowered :
    (total total' balance amt pooltot : ℤ)
    → total' +ℤ balance ≡ total +ℤ (balance -ℤ amt)
    → total ≡ pooltot
    → total' ≡ pooltot -ℤ amt
lowered total total' balance amt pooltot e f =
    omega (int_laws, parts_of_eq _ _ e, parts_of_eq _ _ f)

spent :
    (total total' payout pooltot : ℤ)
    → total' +ℤ payout ≡ total
    → total ≡ pooltot
    → total' ≡ pooltot -ℤ payout
spent total total' payout pooltot e f = omega (int_laws, parts_of_eq _ _ e, parts_of_eq _ _ f)

module _ {W : Type 0} (token : Token W) (c : Invocation) where
  stake-fields :
      (staker : Address) (amt : ℤ) (s : Insurance) (w : W) {s' : Insurance} {w' : W}
      → stake token c staker amt s w ≡ ok (s', w')
      → (s'.stakes ≡ set staker (get_or (pos 0) staker s.stakes +ℤ amt) s.stakes)
        × (s'.pooltot ≡ s.pooltot +ℤ amt)
  unfolding stake
  stake-fields staker amt s w h =
      ground
        (arith, add_i128-either (get_or (pos 0) staker s.stakes) amt, add_i128-either s.pooltot amt)

  unstake-fields :
      (staker : Address) (amt : ℤ) (s : Insurance) (w : W) {s' : Insurance} {w' : W}
      → unstake token c staker amt s w ≡ ok (s', w')
      → (s'.stakes ≡ put_stake staker (get_or (pos 0) staker s.stakes -ℤ amt) s.stakes)
        × (s'.pooltot ≡ s.pooltot -ℤ amt)
  unfolding unstake
  unstake-fields staker amt s w h =
      ground
        (arith, sub_i128-either (get_or (pos 0) staker s.stakes) amt, sub_i128-either s.pooltot amt)

  -- `stake` keeps the pool balanced.
  pub stake-IsBalanced :
      (staker : Address) (amt : ℤ) (s : Insurance) (w : W) {s' : Insurance} {w' : W}
      → IsBalanced s
      → stake token c staker amt s w ≡ ok (s', w')
      → IsBalanced s'
  stake-IsBalanced staker amt s w b h =
      let (stakes, total) = stake-fields staker amt s w h in
      rw (stakes, total)
        (raised _ _ _ amt s.pooltot
          (sum-set every staker (get_or (pos 0) staker s.stakes +ℤ amt) s.stakes) b)

  -- `unstake` keeps the pool balanced.
  pub unstake-IsBalanced :
      (staker : Address) (amt : ℤ) (s : Insurance) (w : W) {s' : Insurance} {w' : W}
      → IsBalanced s
      → unstake token c staker amt s w ≡ ok (s', w')
      → IsBalanced s'
  unstake-IsBalanced staker amt s w b h =
      let (stakes, total) = unstake-fields staker amt s w h in
      rw (stakes, total)
        (lowered _ _ _ amt s.pooltot
          (sum-put_balance every staker (get_or (pos 0) staker s.stakes -ℤ amt) s.stakes refl) b)

All-every : (keys : List Address) → All (λ key. every key ≡ true) keys
All-every [] = tt
All-every (key ∷ rest) = (refl, All-every rest)

some_staker :
    (m : Map Address ℤ) (t : ℤ) → balances_sum every m ≡ t → pos 0 <ℤ t → is_empty (keys m) ≡ false
some_staker [] t e h = absurd (omega (arith, parts_of_eq (pos 0) t e))
some_staker ((k, v) ∷ m) t e h = refl

-- A positive payout within the pool leaves it balanced.
pub reduced :
    (payout : ℤ) (s : Insurance) {out : Map Address ℤ × ℤ}
    → IsBalanced s
    → pos 0 <ℤ payout
    → payout ≤ℤ s.pooltot
    → reduce_stakes payout s.pooltot (keys s.stakes) s.stakes ≡ ok out
    → balances_sum every out.0 ≡ s.pooltot -ℤ payout
reduced payout s b positive within h =
    spent _ _ payout s.pooltot
      (reduce_stakes-exact every payout s.pooltot (keys s.stakes) s.stakes
        (some_staker s.stakes s.pooltot b (omega arith)) (All-every (keys s.stakes)) h).1
      b

module _ {W : Type 0} (token : Token W) (c : Invocation) where
  pub pay_from_pool-fields :
      (beneficiary : Address) (payout : ℤ) (s : Insurance) (w : W) {p : ℤ} {s' : Insurance} {w' : W}
      → pay_from_pool token c beneficiary payout s w ≡ ok (p, s', w')
      → (out : Map Address ℤ × ℤ) × (reduce_stakes payout s.pooltot (keys s.stakes) s.stakes
          ≡ ok out)
        × (p ≡ payout)
        × (s'.stakes ≡ out.0)
        × (s'.pooltot ≡ s.pooltot -ℤ payout)
  unfolding pay_from_pool
  pay_from_pool-fields beneficiary payout s w h =
      elim (Result-cases (reduce_stakes payout s.pooltot (keys s.stakes) s.stakes)) [
        | inr (x, bad) ↦ absurd (ground arith)
        | inl (out, found) ↦ (
          out,
          found,
          ground (arith, sub_i128-either s.pooltot payout),
          ground (arith, sub_i128-either s.pooltot payout),
          ground (arith, sub_i128-either s.pooltot payout),
        )
      ]

  -- What `pay_out` has done: nothing, as the pool is empty, or the payout itself.
  pub pay_out-either :
      (registry : RegistryClient W) (invoice_id : Symbol) (beneficiary : Address) (amt : ℤ)
      (s : Insurance) (w : W) {p : ℤ} {s' : Insurance} {w' : W}
      → pay_out token registry c invoice_id beneficiary amt s w ≡ ok (p, s', w')
      → ((min_ℤ amt s.pooltot ≤ℤ pos 0) × (p ≡ pos 0) × (s' ≡ s) × (w' ≡ w))
        ⊎ ((pos 0 <ℤ min_ℤ amt s.pooltot)
            × (pay_from_pool token c beneficiary (min_ℤ amt s.pooltot) s w ≡ ok (p, s', w')))
  unfolding pay_out
  pay_out-either registry invoice_id beneficiary amt s w h = ground arith
