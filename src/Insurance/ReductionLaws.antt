-- ===== src/Insurance/ReductionLaws.antt =====
-- The sums of the reduction loop of insurance/src/lib.rs.
use invofi_contracts.Prelude.{
  ℕ, suc, ◌+◌, ◌≡◌, refl, inl, inr, Bool, true, false, Bool-cases, List, [], ◌∷◌, ◌==◌, arith,
}
use invofi_contracts.Prelude.Lists.{length, All, is_empty}
use invofi_contracts.Prelude.Int.{ℤ, pos, ◌+ℤ◌, ◌-ℤ◌, is_zero, is_zero→≡, int_laws, parts_of_eq}
use invofi_contracts.Prelude.Maps.{Key, Map, get_or, set, remove, balances_sum}
use invofi_contracts.Prelude.MapLaws.{sum-set, sum-remove, selected}
use invofi_contracts.Host.Outcome.{ok, Result-cases, ok-injective}
use invofi_contracts.Host.MachineLaws.{add_i128-either, sub_i128-either}
use invofi_contracts.Insurance.Reduction.{reduction_for, put_balance, reduce_from, reduce_stakes}

regroup :
    (total total' balance left reductions reduction out_sum out : ℤ)
    → left ≡ balance -ℤ reduction
    → total' +ℤ balance ≡ total +ℤ left
    → out_sum +ℤ out ≡ total' +ℤ (reductions +ℤ reduction)
    → out_sum +ℤ out ≡ total +ℤ reductions
regroup total total' balance left reductions reduction out_sum out e f g =
    omega (int_laws, parts_of_eq _ _ e, parts_of_eq _ _ f, parts_of_eq _ _ g)

absorbed : (payout reductions : ℤ) → reductions +ℤ (payout -ℤ reductions) ≡ payout
absorbed payout reductions = omega int_laws

module _ {K : Type 0} ⦃e : Key K⦄ (sel : K → Bool) where
  pub sum-put_balance :
      (key : K) (v : ℤ) (m : Map K ℤ)
      → sel key ≡ true
      → balances_sum sel (put_balance key v m) +ℤ get_or (pos 0) key m ≡ balances_sum sel m +ℤ v
  sum-put_balance key v m h = elim (Bool-cases (is_zero v)) [
    | inl none ↦ rw none (rw (is_zero→≡ v none) (unselect_remove (sum-remove sel key m)))
    | inr some ↦ rw some (unselect_set (sum-set sel key v m))
  ]
    where
      unselect_set :
          balances_sum sel (set key v m) +ℤ selected (sel key) (get_or (pos 0) key m)
            ≡ balances_sum sel m +ℤ selected (sel key) v
          → balances_sum sel (set key v m) +ℤ get_or (pos 0) key m ≡ balances_sum sel m +ℤ v
      unselect_set k = rw h at k

      unselect_remove :
          balances_sum sel (remove key m) +ℤ selected (sel key) (get_or (pos 0) key m)
            ≡ balances_sum sel m
          → balances_sum sel (remove key m) +ℤ get_or (pos 0) key m ≡ balances_sum sel m +ℤ pos 0
      unselect_remove k = omega (int_laws, parts_of_eq _ _ (rw h at k))

module _ {K : Type 0} ⦃e : Key K⦄ (sel : K → Bool) (payout pool_total : ℤ) (count : ℕ) where
  -- What the loop takes from the selected stakes is what it adds to the reductions.
  pub reduce_from-sum :
      (i : ℕ) (keys : List K) (stakes : Map K ℤ) (reductions : ℤ) {out : Map K ℤ × ℤ}
      → All (λ key. sel key ≡ true) keys
      → reduce_from payout pool_total count i keys stakes reductions ≡ ok out
      → balances_sum sel out.0 +ℤ out.1 ≡ balances_sum sel stakes +ℤ reductions
  unfolding reduce_from
  reduce_from-sum i [] stakes reductions all h = rw (← ok-injective _ _ h) refl
  reduce_from-sum i (key ∷ rest) stakes reductions {out} all h =
      let balance = get_or (pos 0) key stakes in
      elim (Result-cases (reduction_for payout pool_total (suc i == count) balance reductions)) [
        | inr (x, bad) ↦ absurd (ground arith)
        | inl (reduction, found) ↦
            let left = balance -ℤ reduction in
            let next = put_balance key left stakes in
            let rest_ok : reduce_from payout pool_total count (suc i) rest next
                  (reductions +ℤ reduction)
                ≡ ok out =
              ground
                (arith, sub_i128-either balance reduction, add_i128-either reductions reduction) in
            regroup _ _ balance left reductions reduction _ _ refl
              (sum-put_balance sel key left stakes all.0)
              (reduce_from-sum (suc i) rest next (reductions +ℤ reduction) all.1 rest_ok)
      ]

  -- The last key absorbs the rounding, so the reductions add up to the payout.
  pub reduce_from-exact :
      (i : ℕ) (key : K) (rest : List K) (stakes : Map K ℤ) (reductions : ℤ) {out : Map K ℤ × ℤ}
      → i + suc (length rest) ≡ count
      → reduce_from payout pool_total count i (key ∷ rest) stakes reductions ≡ ok out
      → out.1 ≡ payout
  unfolding reduce_from reduction_for
  reduce_from-exact i key [] stakes reductions last h = ground (
    arith,
    sub_i128-either payout reductions,
    sub_i128-either (get_or (pos 0) key stakes) (payout -ℤ reductions),
    add_i128-either reductions (payout -ℤ reductions),
    absorbed payout reductions,
  )
  reduce_from-exact i key (next ∷ rest) stakes reductions {out} more h =
      let balance = get_or (pos 0) key stakes in
      elim (Result-cases (reduction_for payout pool_total (suc i == count) balance reductions)) [
        | inr (x, bad) ↦ absurd (ground arith)
        | inl (reduction, found) ↦
            let left = balance -ℤ reduction in
            let stakes' = put_balance key left stakes in
            let rest_ok : reduce_from payout pool_total count (suc i) (next ∷ rest) stakes'
                  (reductions +ℤ reduction)
                ≡ ok out =
              ground
                (arith, sub_i128-either balance reduction, add_i128-either reductions reduction) in
            reduce_from-exact (suc i) next rest stakes' (reductions +ℤ reduction) (omega arith)
              rest_ok
      ]

-- A payout that is not empty-handed: the selected stakes, all of whose keys are reduced, lose exactly
-- the payout, and the reductions are the payout.
pub reduce_stakes-exact :
    {K : Type 0} ⦃e : Key K⦄ (sel : K → Bool) (payout pool_total : ℤ) (keys : List K)
    (stakes : Map K ℤ) {out : Map K ℤ × ℤ}
    → is_empty keys ≡ false
    → All (λ key. sel key ≡ true) keys
    → reduce_stakes payout pool_total keys stakes ≡ ok out
    → (out.1 ≡ payout) × (balances_sum sel out.0 +ℤ payout ≡ balances_sum sel stakes)
unfolding reduce_stakes
reduce_stakes-exact sel payout pool_total [] stakes some all h = cc
reduce_stakes-exact sel payout pool_total (key ∷ rest) stakes {out} some all h =
    let n = suc (length rest) in
    let total =
      reduce_from-exact sel payout pool_total n 0 key rest stakes (pos 0) (omega arith) h in
    let kept = reduce_from-sum sel payout pool_total n 0 (key ∷ rest) stakes (pos 0) all h in
    (total, omega (int_laws, parts_of_eq _ _ kept, parts_of_eq _ _ total))
