-- ===== src/Prelude/MapLaws.antt =====
-- The laws of the maps: what a read finds after a write, and how a write moves a sum of balances.
use invofi_contracts.Prelude.Tests.{Bool-cases, if◌then◌else◌}
use invofi_contracts.Prelude.Int.{ℤ, pos, ◌+ℤ◌, int_laws, parts_of_eq, +ℤ_step, +ℤ_swap}
use invofi_contracts.Prelude.Maps.{
  Key, Map, get, get_or, contains_key, replace, insert_sorted, set, remove, balances_sum,
}
use mathlib.Core.Path.{◌≡◌, refl}
use mathlib.Core.Logic.{inl, inr}
use mathlib.Core.Bool.{Bool, true, false}
use mathlib.Core.Option.{none, some}
use mathlib.Core.List.{[], ◌∷◌}
use native.Mathlib.Omega.{arith}

module _ {K V : Type 0} ⦃e : Key K⦄ where
  get-replace :
      (k j : K) (v : V) (m : Map K V)
      → contains_key k m ≡ true
      → get j (replace k v m) ≡ (if e.beq k j then some v else get j m)
  get-replace k j v [] h = cc
  get-replace k j v ((i, w) ∷ m) h = ground (
    arith,
    get-replace k j v m,
    e.eq_of_beq i k,
    e.eq_of_beq i j,
    e.eq_of_beq k j,
    e.beq_refl k,
    e.beq_refl j,
  )

  get-insert_sorted :
      (k j : K) (v : V) (m : Map K V)
      → contains_key k m ≡ false
      → get j (insert_sorted k v m) ≡ (if e.beq k j then some v else get j m)
  get-insert_sorted k j v [] h = refl
  get-insert_sorted k j v ((i, w) ∷ m) h = ground (
    arith,
    get-insert_sorted k j v m,
    e.eq_of_beq i j,
    e.eq_of_beq k j,
    e.beq_refl k,
    e.beq_refl j,
  )

  pub get-set :
      (k j : K) (v : V) (m : Map K V) → get j (set k v m) ≡ (if e.beq k j then some v else get j m)
  unfolding set
  get-set k j v m = elim (Bool-cases (contains_key k m)) [
    | inl h ↦ rw h (get-replace k j v m h)
    | inr h ↦ rw h (get-insert_sorted k j v m h)
  ]

  get_or-get :
      (d : V) (k : K) (m : Map K V) → get_or d k m ≡ elim (get k m) [ none ↦ d | some v ↦ v ]
  get_or-get d k [] = refl
  get_or-get d k ((j, v) ∷ m) = ground (arith, get_or-get d k m)

  pub get_or-set :
      (d : V) (k j : K) (v : V) (m : Map K V)
      → get_or d j (set k v m) ≡ (if e.beq k j then v else get_or d j m)
  get_or-set d k j v m =
      ground (arith, get_or-get d j (set k v m), get_or-get d j m, get-set k j v m)

  pub get-remove_ne : (k j : K) (m : Map K V) → e.beq k j ≡ false → get j (remove k m) ≡ get j m
  unfolding remove
  get-remove_ne k j [] h = refl
  get-remove_ne k j ((i, w) ∷ m) h =
      ground (arith, get-remove_ne k j m h, e.eq_of_beq i k, e.eq_of_beq i j)

  pub get_or-remove_ne :
      (d : V) (k j : K) (m : Map K V) → e.beq k j ≡ false → get_or d j (remove k m) ≡ get_or d j m
  get_or-remove_ne d k j m h =
      ground (arith, get_or-get d j (remove k m), get_or-get d j m, get-remove_ne k j m h)

-- The part of a value that a sum over the selected keys counts.
abbrev pub selected : Bool → ℤ → ℤ
selected b v = if b then v else pos 0

module _ {K : Type 0} ⦃e : Key K⦄ where
  pub get_or-absent : (k : K) (m : Map K ℤ) → contains_key k m ≡ false → get_or (pos 0) k m ≡ pos 0
  get_or-absent k [] h = refl
  get_or-absent k ((j, w) ∷ m) h = ground (arith, get_or-absent k m)

pub selected_zero : (b : Bool) → selected b (pos 0) ≡ pos 0
selected_zero true = refl
selected_zero false = refl

module _ {K : Type 0} ⦃e : Key K⦄ (p : K → Bool) where
  sum-replace :
      (k : K) (v : ℤ) (m : Map K ℤ)
      → contains_key k m ≡ true
      → balances_sum p (replace k v m) +ℤ selected (p k) (get_or (pos 0) k m)
        ≡ balances_sum p m +ℤ selected (p k) v
  sum-replace k v [] h = cc
  sum-replace k v ((j, w) ∷ m) h = elim (Bool-cases (e.beq j k)) [
    | inl same ↦ rw (same, e.eq_of_beq j k same) (+ℤ_swap _ _ _)
    | inr other ↦ rw other (+ℤ_step _ _ _ _ _ (sum-replace k v m (ground arith)))
  ]

  sum-insert_sorted :
      (k : K) (v : ℤ) (m : Map K ℤ)
      → contains_key k m ≡ false
      → balances_sum p (insert_sorted k v m) ≡ balances_sum p m +ℤ selected (p k) v
  sum-insert_sorted k v [] h = omega int_laws
  sum-insert_sorted k v ((j, w) ∷ m) h = elim (Bool-cases (e.before k j)) [
    | inl first ↦ rw first (omega int_laws)
    | inr later ↦
        let ih = sum-insert_sorted k v m (ground arith) in
        rw later (omega (int_laws, parts_of_eq _ _ ih))
  ]

  pub sum-set :
      (k : K) (v : ℤ) (m : Map K ℤ)
      → balances_sum p (set k v m) +ℤ selected (p k) (get_or (pos 0) k m)
        ≡ balances_sum p m +ℤ selected (p k) v
  unfolding set
  sum-set k v m = elim (Bool-cases (contains_key k m)) [
    | inl h ↦ rw h (sum-replace k v m h)
    | inr h ↦
        rw (h, get_or-absent k m h, selected_zero (p k), sum-insert_sorted k v m h) (omega int_laws)
  ]

  pub sum-remove :
      (k : K) (m : Map K ℤ)
      → balances_sum p (remove k m) +ℤ selected (p k) (get_or (pos 0) k m) ≡ balances_sum p m
  unfolding remove
  sum-remove k [] = rw (selected_zero (p k)) (omega int_laws)
  sum-remove k ((j, w) ∷ m) = elim (Bool-cases (e.beq j k)) [
    | inl same ↦ rw (same, e.eq_of_beq j k same) (omega int_laws)
    | inr other ↦ rw other (omega (int_laws, parts_of_eq _ _ (sum-remove k m)))
  ]
