-- ===== src/Insurance/Prospective.antt =====
-- The laws of `set_yield_rate` of insurance/src/lib.rs.
use invofi_contracts.Prelude.{
  ℕ, ◌≡◌, refl, subst, ◌∙◌, ◌⊎◌, inl, inr, true, false, Bool-cases, ◌==◌, List, [], ◌∷◌, arith,
}
use invofi_contracts.Prelude.Int.{ℤ, pos, ◌≤ℤ◌, is_zero}
use invofi_contracts.Prelude.Maps.{Map, ℕ_key, get_or, keys, contains_key, ℕ_eq}
use invofi_contracts.Prelude.MapLaws.{get_or-absent}
use invofi_contracts.Host.Outcome.{Address, ok, Result-cases, Invocation, ok-injective, >>=-eq-ok}
use invofi_contracts.Insurance.State.{Insurance}
use invofi_contracts.Insurance.Yield.{Accounts, bank_accrued_yield, accrued_yield}
use invofi_contracts.Insurance.Settings.{bank_all, set_yield_rate}
use invofi_contracts.Insurance.Checkpoint.{
  seen, bank-seen, bank-start, bank-start_kept, no_time_yield,
}

module _ (rate : ℕ) (stakes : Map Address ℤ) (now : ℕ) (j : Address) where
  bank_all-seen :
      (ks : List Address) (a : Accounts Address) {a' : Accounts Address}
      → pos 0 ≤ℤ get_or (pos 0) j stakes
      → bank_all rate stakes now ks a ≡ ok a'
      → seen rate stakes now j a' ≡ seen rate stakes now j a
  unfolding bank_all
  bank_all-seen [] a low h = rw (← ok-injective _ _ h) refl
  bank_all-seen (k ∷ ks) a low h =
      let (mid, banked, rest) = >>=-eq-ok (bank_accrued_yield rate k stakes now a) _ h in
      bank_all-seen ks mid low rest ∙ bank-seen rate k stakes now a j low banked

  bank_all-kept :
      (ks : List Address) (a : Accounts Address) {a' : Accounts Address}
      → bank_all rate stakes now ks a ≡ ok a'
      → get_or now j a.timestamps ≡ now
      → get_or now j a'.timestamps ≡ now
  unfolding bank_all
  bank_all-kept [] a h start = rw (← ok-injective _ _ h) start
  bank_all-kept (k ∷ ks) a h start =
      let (mid, banked, rest) = >>=-eq-ok (bank_accrued_yield rate k stakes now a) _ h in
      bank_all-kept ks mid rest (bank-start_kept rate k stakes now a j banked start)

  -- A staker among the keys has its clock at `now` afterwards.
  bank_all-start :
      (m : Map Address ℤ) (a : Accounts Address) {a' : Accounts Address}
      → contains_key j m ≡ true
      → is_zero (get_or (pos 0) j stakes) ≡ false
      → bank_all rate stakes now (keys m) a ≡ ok a'
      → get_or now j a'.timestamps ≡ now
  unfolding bank_all
  bank_all-start [] a found some h = cc
  bank_all-start ((k, v) ∷ m) a found some h =
      let (mid, banked, rest) = >>=-eq-ok (bank_accrued_yield rate k stakes now a) _ h in
      elim (Bool-cases (k == j)) [
        | inr other ↦ bank_all-start m mid (rw other at found) some rest
        | inl same ↦ bank_all-kept (keys m) mid rest (here k (ℕ_eq k j same) banked)
      ]
    where
      here :
          (k : Address)
          → k ≡ j
          → {mid : Accounts Address} → bank_accrued_yield rate k stakes now a ≡ ok mid
          → get_or now j mid.timestamps ≡ now
      here k e {mid = mid} b =
          subst (λ i. get_or now i mid.timestamps ≡ now) e
            (elim (bank-start rate k stakes now a b) [
              | inl none ↦ let clash : false ≡ true = rw (e, some) at none in cc
              | inr start ↦ start
            ])

set_yield_rate-fields :
    (c : Invocation) (signers : List Address) (rate : ℕ) (s : Insurance) {s' : Insurance}
    → set_yield_rate c signers rate s ≡ ok s'
    → (a' : Accounts Address) × (bank_all s.yldrate s.stakes c.now
          (keys s.stakes)
          (record { timestamps = s.stk_ts; accruals = s.yld_acc })
        ≡ ok a')
      × ((s'.stakes ≡ s.stakes)
          × (s'.stk_ts ≡ a'.timestamps)
          × (s'.yld_acc ≡ a'.accruals)
          × (s'.yldrate ≡ rate))
unfolding set_yield_rate
set_yield_rate-fields c signers rate s h =
    elim (Result-cases (
      bank_all s.yldrate s.stakes c.now (keys s.stakes)
        (record { timestamps = s.stk_ts; accruals = s.yld_acc }))) [
          | inr (x, bad) ↦ absurd (ground arith)
          | inl (a', banked) ↦ (a', banked, ground arith)
        ]

-- Where no time has passed, the rate does not matter.
rate_free :
    (rate rate' : ℕ) (stakes : Map Address ℤ) (now : ℕ) (j : Address) (a : Accounts Address)
    → (is_zero (get_or (pos 0) j stakes) ≡ true) ⊎ (get_or now j a.timestamps ≡ now)
    → seen rate' stakes now j a ≡ seen rate stakes now j a
rate_free rate rate' stakes now j a (inl none) = rw none refl
rate_free rate rate' stakes now j a (inr start) =
    let p = get_or (pos 0) j stakes in
    rw (start, no_time_yield p rate now, no_time_yield p rate' now) refl

banked_at :
    (rate : ℕ) (stakes : Map Address ℤ) (now : ℕ) (j : Address) (a : Accounts Address)
    {a' : Accounts Address}
    → bank_all rate stakes now (keys stakes) a ≡ ok a'
    → (is_zero (get_or (pos 0) j stakes) ≡ true) ⊎ (get_or now j a'.timestamps ≡ now)
banked_at rate stakes now j a h = elim (Bool-cases (is_zero (get_or (pos 0) j stakes))) [
  | inl none ↦ inl none
  | inr some ↦ elim (Bool-cases (contains_key j stakes)) [
    | inl found ↦ inr (bank_all-start rate stakes now j stakes a found some h)
    | inr missing ↦ inl (rw (get_or-absent j stakes missing) refl)
  ]
]

-- A change of the yield rate is prospective: at the time of the change, every staker whose stake is
-- not negative has accrued under the new rate exactly what was accrued under the old one.
pub set_yield_rate-prospective :
    (c : Invocation) (signers : List Address) (rate : ℕ) (s : Insurance) (j : Address)
    {s' : Insurance}
    → pos 0 ≤ℤ get_or (pos 0) j s.stakes
    → set_yield_rate c signers rate s ≡ ok s'
    → accrued_yield c.now j s' ≡ accrued_yield c.now j s
unfolding accrued_yield
set_yield_rate-prospective c signers rate s j low h =
    let (a', banked, (stakes, times, accruals, new)) = set_yield_rate-fields c signers rate s h in
    let start : Accounts Address = record { timestamps = s.stk_ts; accruals = s.yld_acc } in
    rw (stakes, times, accruals, new)
      (rate_free s.yldrate rate s.stakes c.now j a'
          (banked_at s.yldrate s.stakes c.now j start banked)
        ∙ bank_all-seen s.yldrate s.stakes c.now j (keys s.stakes) start low banked)
