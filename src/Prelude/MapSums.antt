-- ===== src/Prelude/MapSums.antt =====
-- Sums of a measure over the values of a map.
use invofi_contracts.Prelude.Tests.{Bool-cases}
use invofi_contracts.Prelude.Int.{ℤ, pos, ◌+ℤ◌, int_laws, parts_of_eq}
use invofi_contracts.Prelude.Maps.{
  Key, Map, get, get_or, contains_key, replace, insert_sorted, set, balances_sum,
}
use invofi_contracts.Prelude.MapLaws.{sum-set}
use mathlib.Core.Path.{◌≡◌, refl, sym}
use mathlib.Core.Logic.{inl, inr}
use mathlib.Core.Bool.{true}
use mathlib.Core.Option.{Option, none, some}
use mathlib.Core.List.{[], ◌∷◌}
use native.Mathlib.Omega.{arith}

-- The measure of a value that may be absent.
abbrev pub measure? : {V : Type 0} → (V → ℤ) → Option V → ℤ
measure? f none = pos 0
measure? f (some v) = f v

module _ {K V : Type 0} (f : V → ℤ) where
  abbrev pub measures : Map K V → Map K ℤ
  measures [] = []
  measures ((k, v) ∷ m) = (k, f v) ∷ measures m

  -- The sum of the measures of all values.
  abbrev pub sum_of : Map K V → ℤ
  sum_of m = balances_sum (λ k. true) (measures m)

module _ {K V : Type 0} ⦃e : Key K⦄ (f : V → ℤ) where
  contains_key-measures : (k : K) (m : Map K V) → contains_key k (measures f m) ≡ contains_key k m
  contains_key-measures k [] = refl
  contains_key-measures k ((j, v) ∷ m) = ground (arith, contains_key-measures k m)

  replace-measures :
      (k : K) (v : V) (m : Map K V) → measures f (replace k v m) ≡ replace k (f v) (measures f m)
  replace-measures k v [] = refl
  replace-measures k v ((j, w) ∷ m) = elim (Bool-cases (e.beq j k)) [
    | inl same ↦ rw same refl
    | inr other ↦ rw (other, replace-measures k v m) refl
  ]

  insert_sorted-measures :
      (k : K) (v : V) (m : Map K V)
      → measures f (insert_sorted k v m) ≡ insert_sorted k (f v) (measures f m)
  insert_sorted-measures k v [] = refl
  insert_sorted-measures k v ((j, w) ∷ m) = elim (Bool-cases (e.before k j)) [
    | inl first ↦ rw first refl
    | inr later ↦ rw (later, insert_sorted-measures k v m) refl
  ]

  set-measures : (k : K) (v : V) (m : Map K V) → measures f (set k v m) ≡ set k (f v) (measures f m)
  unfolding set
  set-measures k v m = elim (Bool-cases (contains_key k m)) [
    | inl h ↦ rw (contains_key-measures k m, h) (replace-measures k v m)
    | inr h ↦ rw (contains_key-measures k m, h) (insert_sorted-measures k v m)
  ]

  get_or-measures : (k : K) (m : Map K V) → get_or (pos 0) k (measures f m) ≡ measure? f (get k m)
  get_or-measures k [] = refl
  get_or-measures k ((j, v) ∷ m) = elim (Bool-cases (e.beq j k)) [
    | inl same ↦ rw same refl
    | inr other ↦ rw other (get_or-measures k m)
  ]

  -- A write takes the old value's measure out of the sum and puts the new one in.
  pub sum_of-set :
      (k : K) (v : V) (m : Map K V)
      → sum_of f (set k v m) +ℤ measure? f (get k m) ≡ sum_of f m +ℤ f v
  sum_of-set k v m =
      rw (set-measures k v m, sym (get_or-measures k m))
        (sum-set (λ j. true) k (f v) (measures f m))

  -- A write of a value with the same measure keeps the sum.
  pub sum_of-set_same :
      (k : K) (v w : V) (m : Map K V)
      → get k m ≡ some w
      → f v ≡ f w
      → sum_of f (set k v m) ≡ sum_of f m
  sum_of-set_same k v w m found same =
      eq_of_sum _ _ (f v) (rw (found, sym same) at (sum_of-set k v m))
    where
      eq_of_sum : (a b c : ℤ) → a +ℤ c ≡ b +ℤ c → a ≡ b
      eq_of_sum a b c h = omega (int_laws, parts_of_eq _ _ h)
