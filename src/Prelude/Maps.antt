-- ===== src/Prelude/Maps.antt =====
-- Maps in key order, `soroban_sdk::Map` in the source: `get`, `set`, `remove`, `keys`, and the sum
-- of the values of a map of balances.
use invofi_contracts.Prelude.Tests.{ltb, ◌==◌, ==_refl, if◌then◌else◌}
use invofi_contracts.Prelude.Int.{ℤ, pos, ◌+ℤ◌}
use Prim.Native.Nat.{ℕ}
use mathlib.Core.Path.{◌≡◌}
use mathlib.Core.Bool.{Bool, true, false}
use mathlib.Core.Option.{Option, none, some}
use mathlib.Core.List.{List, [], ◌∷◌}
use native.Mathlib.Omega.{arith}

-- What a key type gives: equality and the host's total order.
pub record Key (K : Type 0) : Type 0 where
  pub beq : K → K → Bool
  pub before : K → K → Bool
  pub beq_refl : (a : K) → beq a a ≡ true
  pub eq_of_beq : (a b : K) → beq a b ≡ true → a ≡ b

pub ℕ_eq : (a b : ℕ) → (a == b) ≡ true → a ≡ b
ℕ_eq a b h = ground arith

-- Addresses and symbols are numbers, in the host's order.
instance abbrev pub ℕ_key : Key ℕ
ℕ_key = record { beq = ◌==◌; before = ltb; beq_refl = ==_refl; eq_of_beq = ℕ_eq }

abbrev pub Map : Type 0 → Type 0 → Type 0
Map K V = List (K × V)

module _ {K V : Type 0} ⦃e : Key K⦄ where
  abbrev pub get : K → Map K V → Option V
  get k [] = none
  get k ((j, v) ∷ m) = if e.beq j k then some v else get k m

  -- `m.get(k).unwrap_or(d)`
  abbrev pub get_or : V → K → Map K V → V
  get_or d k [] = d
  get_or d k ((j, v) ∷ m) = if e.beq j k then v else get_or d k m

  -- `m.contains_key(k)`
  abbrev pub contains_key : K → Map K V → Bool
  contains_key k [] = false
  contains_key k ((j, _) ∷ m) = if e.beq j k then true else contains_key k m

  abbrev pub replace : K → V → Map K V → Map K V
  replace k v [] = []
  replace k v ((j, w) ∷ m) = if e.beq j k then (j, v) ∷ m else (j, w) ∷ replace k v m

  abbrev pub insert_sorted : K → V → Map K V → Map K V
  insert_sorted k v [] = (k, v) ∷ []
  insert_sorted k v ((j, w) ∷ m) =
      if e.before k j then (k, v) ∷ (j, w) ∷ m else (j, w) ∷ insert_sorted k v m

  -- `m.set(k, v)`
  unfoldable pub set : K → V → Map K V → Map K V
  set k v m = if contains_key k m then replace k v m else insert_sorted k v m

  -- `m.remove(k)`
  unfoldable pub remove : K → Map K V → Map K V
  remove k [] = []
  remove k ((j, w) ∷ m) = if e.beq j k then m else (j, w) ∷ remove k m

abbrev pub keys : {K V : Type 0} → Map K V → List K
keys [] = []
keys ((j, _) ∷ m) = j ∷ keys m

-- The sum of the balances whose key is selected.
abbrev pub balances_sum {κ} : {K : Type κ} → (K → Bool) → List (K × ℤ) → ℤ
balances_sum p [] = pos 0
balances_sum p ((j, v) ∷ m) = (if p j then v else pos 0) +ℤ balances_sum p m
