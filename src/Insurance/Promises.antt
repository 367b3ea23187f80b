-- ===== src/Insurance/Promises.antt =====
-- The laws of `reserve_payout` of insurance/src/lib.rs, against the ledger of what is owed.
use invofi_contracts.Prelude.{◌≡◌, refl, ◌⊎◌, inl, inr, Bool-cases, ◌==◌, arith, if◌then◌else◌}
use invofi_contracts.Prelude.Int.{
  ℤ, pos, ◌+ℤ◌, ◌-ℤ◌, ◌≤ℤ◌, ◌<ℤ◌, min_ℤ, min_ℤ_le, max_ℤ, le-max_ℤ, int_laws, parts_of_eq,
}
use invofi_contracts.Prelude.Maps.{Map, ℕ_key, get_or, ℕ_eq}
use invofi_contracts.Host.Outcome.{Symbol, ok, Invocation}
use invofi_contracts.Host.MachineLaws.{add_i128-either, sub_i128-either}
use invofi_contracts.Insurance.State.{Insurance}
use invofi_contracts.Insurance.Payout.{put_amount, reserve_payout}
use invofi_contracts.Insurance.Reservations.{
  IsReserved, entry_le_sum, shift, get_or-put_amount, zero_kept, owed_more,
}

reserve_payout-either :
    (c : Invocation) (k : Symbol) (amt : ℤ) (s : Insurance) {r : ℤ} {s' : Insurance}
    → reserve_payout c k amt s ≡ ok (r, s')
    → ((min_ℤ amt (s.pooltot -ℤ s.tot_out) ≤ℤ pos 0) × (r ≡ pos 0) × (s' ≡ s))
      ⊎ ((pos 0 <ℤ r)
          × (r ≡ min_ℤ amt (s.pooltot -ℤ s.tot_out))
          × (s'.resrvd ≡ put_amount k (get_or (pos 0) k s.resrvd +ℤ r) s.resrvd)
          × (s'.tot_out ≡ s.tot_out +ℤ r)
          × (s'.pooltot ≡ s.pooltot)
          × (s'.stakes ≡ s.stakes)
          × (s'.paid ≡ s.paid))
unfolding reserve_payout
reserve_payout-either c k amt s h = ground (
  arith,
  sub_i128-either s.pooltot s.tot_out,
  add_i128-either (get_or (pos 0) k s.resrvd) (min_ℤ amt (s.pooltot -ℤ s.tot_out)),
  add_i128-either s.tot_out (min_ℤ amt (s.pooltot -ℤ s.tot_out)),
)

pub max_of_empty : (z : ℤ) → z ≤ℤ pos 0 → max_ℤ z (pos 0) ≡ pos 0
unfolding max_ℤ
max_of_empty z h = ground arith

pub max_of_positive : (z : ℤ) → pos 0 <ℤ z → max_ℤ z (pos 0) ≡ z
unfolding max_ℤ
max_of_positive z h = ground arith

within : (amt total tot_out : ℤ) → tot_out +ℤ min_ℤ amt (total -ℤ tot_out) ≤ℤ max_ℤ tot_out total
within amt total tot_out =
    let below = (min_ℤ_le amt (total -ℤ tot_out)).1 in
    let above = (le-max_ℤ tot_out total).1 in omega int_laws

-- On a pool whose reservations are accounted for by the ledger `owed`, a `reserve_payout` that
-- succeeds reserves the smaller of the amount asked for and what is not yet reserved, or nothing if
-- that is not positive; the pool then covers what it promised, unless it was short before, its total
-- and its stakes are as before, and the ledger that owes this offer the new amount on top accounts for
-- the reservations.
pub reserve_payout_lem :
    (c : Invocation) (k : Symbol) (amt : ℤ) (s : Insurance) (owed : Map Symbol ℤ) {r : ℤ}
    {s' : Insurance}
    → IsReserved s owed
    → reserve_payout c k amt s ≡ ok (r, s')
    → (r ≡ max_ℤ (min_ℤ amt (s.pooltot -ℤ s.tot_out)) (pos 0))
      × (s'.tot_out ≤ℤ max_ℤ s.tot_out s.pooltot)
      × (s'.pooltot ≡ s.pooltot)
      × (s'.stakes ≡ s.stakes)
      × IsReserved s' (shift k r owed)
reserve_payout_lem c k amt s owed {r} {s'} inv h = elim (reserve_payout-either c k amt s h) [
  | inl (empty, zero_reserved, same) ↦ (
    rw (zero_reserved, max_of_empty _ empty) refl,
    rw same (le-max_ℤ s.tot_out s.pooltot).0,
    rw same refl,
    rw same refl,
    rw (same, zero_reserved)
        (owed_more k (pos 0) s s owed inv (omega arith)
          (λ j. nothing k j (λ i. get_or (pos 0) i s.resrvd)) (zero_kept s.tot_out) refl),
  )
  | inr (positive, exact, resrvd, total, pool, stakes, paid) ↦
      let low = (entry_le_sum k owed inv.1).0 in
      let (promise, unpaid) = inv.2 k in
      (
        rw (exact, max_of_positive _ (rw exact at positive)) refl,
        rw (total, exact) (within amt s.pooltot s.tot_out),
        pool,
        stakes,
        owed_more k r s s' owed inv (omega arith)
            (λ j. rw resrvd (
              get_or-put_amount k j (get_or (pos 0) k s.resrvd +ℤ r) s.resrvd
                (omega (int_laws, parts_of_eq _ _ promise))))
            total paid,
      )
]
  where
    nothing : (k j : Symbol) (f : Symbol → ℤ) → f j ≡ (if k == j then f k +ℤ pos 0 else f j)
    nothing k j f = elim (Bool-cases (k == j)) [
      | inl same ↦ rw (same, ← ℕ_eq k j same) (zero_kept (f k))
      | inr other ↦ rw other refl
    ]
