-- ===== src/Insurance/Settlement.antt =====
-- How a payment of insurance/src/lib.rs moves the ledger of what is owed.
use invofi_contracts.Prelude.{◌≡◌, refl, inl, inr, Bool-cases, ◌==◌, if◌then◌else◌}
use invofi_contracts.Prelude.Int.{ℤ, pos, ◌+ℤ◌, ◌-ℤ◌, ◌≤ℤ◌, int_laws, parts_of_eq}
use invofi_contracts.Prelude.Maps.{Map, ℕ_key, get_or, set, ℕ_eq}
use invofi_contracts.Prelude.MapLaws.{get_or-set, sum-set}
use invofi_contracts.Host.Outcome.{Symbol}
use invofi_contracts.Insurance.State.{Insurance}
use invofi_contracts.Insurance.FlatBalance.{every}
use invofi_contracts.Insurance.Reservations.{NonNegative-set, IsReserved, zero_kept}

unshift : (a p o d : ℤ) → a ≡ p +ℤ o → a ≡ p +ℤ d +ℤ (o -ℤ d)
unshift a p o d h = omega (int_laws, parts_of_eq _ _ h)

-- At `k` the paid side of an account grows by `d` and the owed side shrinks by it.
passed :
    (k j : Symbol) (d : ℤ) (reserved paid owed : Symbol → ℤ)
    → ((i : Symbol) → reserved i ≡ paid i +ℤ owed i)
    → reserved j
      ≡ (if k == j then paid k +ℤ d else paid j) +ℤ (if k == j then owed k -ℤ d else owed j)
passed k j d reserved paid owed h = elim (Bool-cases (k == j)) [
  | inl same ↦ rw (same, ← ℕ_eq k j same) (unshift _ _ _ d (h k))
  | inr other ↦ rw other (h j)
]

-- The ledger after `d` is paid for the offer `k`.
abbrev pub settle_owed : Symbol → ℤ → Map Symbol ℤ → Map Symbol ℤ
settle_owed k d owed = set k (get_or (pos 0) k owed -ℤ d) owed

pub owed_less :
    (k : Symbol) (d : ℤ) (s s' : Insurance) (owed : Map Symbol ℤ)
    → IsReserved s owed
    → pos 0 ≤ℤ d
    → d ≤ℤ get_or (pos 0) k owed
    → ((j : Symbol)
        → get_or (pos 0) j s'.paid
          ≡ (if k == j then get_or (pos 0) k s.paid +ℤ d else get_or (pos 0) j s.paid))
    → s'.tot_out ≡ s.tot_out -ℤ d
    → s'.resrvd ≡ s.resrvd
    → IsReserved s' (settle_owed k d owed)
owed_less k d s s' owed (sums, low, each) positive enough paid total same =
    let total_owed = sum-set every k (get_or (pos 0) k owed -ℤ d) owed in
    (
      rw total (omega (int_laws, parts_of_eq _ _ sums, parts_of_eq _ _ total_owed)),
      NonNegative-set k (get_or (pos 0) k owed -ℤ d) owed (omega int_laws) low,
      λ j. (
        rw (same, paid j, get_or-set (pos 0) k j (get_or (pos 0) k owed -ℤ d) owed)
            (passed k j d (λ i. get_or (pos 0) i s.resrvd) (λ i. get_or (pos 0) i s.paid)
              (λ i. get_or (pos 0) i owed) (λ i. (each i).0)),
        rw (paid j) (still j),
      ),
    )
  where
    still :
        (j : Symbol)
        → pos 0 ≤ℤ (if k == j then get_or (pos 0) k s.paid +ℤ d else get_or (pos 0) j s.paid)
    still j = elim (Bool-cases (k == j)) [
      | inl here ↦ rw here (omega (int_laws, (each k).1))
      | inr other ↦ rw other (each j).1
    ]

pub same_paid : (k j : Symbol) (f : Symbol → ℤ) → f j ≡ (if k == j then f k +ℤ pos 0 else f j)
same_paid k j f = elim (Bool-cases (k == j)) [
  | inl same ↦ rw (same, ← ℕ_eq k j same) (zero_kept (f k))
  | inr other ↦ rw other refl
]

pub minus_zero : (z : ℤ) → z -ℤ pos 0 ≡ z
minus_zero z = omega int_laws
