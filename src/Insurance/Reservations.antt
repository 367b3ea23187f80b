-- ===== src/Insurance/Reservations.antt =====
-- The reservations of the flat pool against an abstract ledger of what is still owed to each offer.
use invofi_contracts.Prelude.{◌≡◌, inl, inr, Bool-cases, ◌==◌, [], ◌∷◌, arith, if◌then◌else◌}
use invofi_contracts.Prelude.Lists.{All}
use invofi_contracts.Prelude.Int.{ℤ, pos, ◌+ℤ◌, ◌≤ℤ◌, ◌<ℤ◌, int_laws, parts_of_eq}
use invofi_contracts.Prelude.Maps.{
  Map, ℕ_key, get_or, contains_key, replace, insert_sorted, set, balances_sum, ℕ_eq,
}
use invofi_contracts.Prelude.MapLaws.{get_or-set, sum-set}
use invofi_contracts.Host.Outcome.{Symbol}
use invofi_contracts.Insurance.State.{Insurance}
use invofi_contracts.Insurance.Payout.{put_amount}
use invofi_contracts.Insurance.FlatBalance.{every}

abbrev pub NonNegative : Map Symbol ℤ → Type 0
NonNegative m = All (λ entry. pos 0 ≤ℤ entry.1) m

-- The ledger `owed` accounts for the reservations: its sum is `tot_out`, it owes nothing negative, and
-- what was reserved for an offer is what was paid for it and what is still owed.
abbrev pub IsReserved : Insurance → Map Symbol ℤ → Type 0
IsReserved s owed =
    (balances_sum every owed ≡ s.tot_out)
    × NonNegative owed
    × ((k : Symbol)
        → (get_or (pos 0) k s.resrvd ≡ get_or (pos 0) k s.paid +ℤ get_or (pos 0) k owed)
          × (pos 0 ≤ℤ get_or (pos 0) k s.paid))

NonNegative-replace :
    (k : Symbol) (v : ℤ) (m : Map Symbol ℤ)
    → pos 0 ≤ℤ v
    → NonNegative m
    → NonNegative (replace k v m)
NonNegative-replace k v [] h n = tt
NonNegative-replace k v ((j, w) ∷ m) h n = ground (arith, NonNegative-replace k v m h n.1)

NonNegative-insert :
    (k : Symbol) (v : ℤ) (m : Map Symbol ℤ)
    → pos 0 ≤ℤ v
    → NonNegative m
    → NonNegative (insert_sorted k v m)
NonNegative-insert k v [] h n = (h, tt)
NonNegative-insert k v ((j, w) ∷ m) h n = ground (arith, NonNegative-insert k v m h n.1)

pub NonNegative-set :
    (k : Symbol) (v : ℤ) (m : Map Symbol ℤ) → pos 0 ≤ℤ v → NonNegative m → NonNegative (set k v m)
unfolding set
NonNegative-set k v m h n = elim (Bool-cases (contains_key k m)) [
  | inl present ↦ rw present (NonNegative-replace k v m h n)
  | inr absent ↦ rw absent (NonNegative-insert k v m h n)
]

sum_NonNegative : (m : Map Symbol ℤ) → NonNegative m → pos 0 ≤ℤ balances_sum every m
sum_NonNegative [] n = omega arith
sum_NonNegative ((j, w) ∷ m) n =
    let rest = sum_NonNegative m n.1 in let here = n.0 in omega int_laws

-- An entry of a ledger is at most its sum.
pub entry_le_sum :
    (k : Symbol) (m : Map Symbol ℤ)
    → NonNegative m
    → (pos 0 ≤ℤ get_or (pos 0) k m) × (get_or (pos 0) k m ≤ℤ balances_sum every m)
entry_le_sum k [] n = (omega arith, omega arith)
entry_le_sum k ((j, w) ∷ m) n =
    let rest = sum_NonNegative m n.1 in
    let here = n.0 in
    elim (Bool-cases (j == k)) [
      | inl same ↦ rw same (omega int_laws, omega int_laws)
      | inr other ↦ let (low, high) = entry_le_sum k m n.1 in rw other (low, omega int_laws)
    ]

-- The entry of `k` moves by `d`.
abbrev pub shift : Symbol → ℤ → Map Symbol ℤ → Map Symbol ℤ
shift k d owed = set k (get_or (pos 0) k owed +ℤ d) owed

pub moved :
    (k : Symbol) (d total : ℤ) (owed : Map Symbol ℤ)
    → balances_sum every owed ≡ total
    → balances_sum every (shift k d owed) ≡ total +ℤ d
moved k d total owed h =
    let sums = sum-set every k (get_or (pos 0) k owed +ℤ d) owed in
    omega (int_laws, parts_of_eq _ _ h, parts_of_eq _ _ sums)

pub get_or-put_amount :
    (k j : Symbol) (v : ℤ) (m : Map Symbol ℤ)
    → pos 0 <ℤ v
    → get_or (pos 0) j (put_amount k v m) ≡ (if k == j then v else get_or (pos 0) j m)
get_or-put_amount k j v m h = ground (arith, get_or-set (pos 0) k j v m)

pub zero_kept : (z : ℤ) → z ≡ z +ℤ pos 0
zero_kept z = omega int_laws

grown : (a b d : ℤ) → a +ℤ d +ℤ b ≡ a +ℤ (b +ℤ d)
grown a b d = omega int_laws

added : (a p o r : ℤ) → a ≡ p +ℤ o → a +ℤ r ≡ p +ℤ (o +ℤ r)
added a p o r h = omega (int_laws, parts_of_eq _ _ h)

-- Both sides of an account move by `r` at `k`.
pub both_moved :
    (k j : Symbol) (r : ℤ) (reserved paid owed : Symbol → ℤ)
    → ((i : Symbol) → reserved i ≡ paid i +ℤ owed i)
    → (if k == j then reserved k +ℤ r else reserved j)
      ≡ paid j +ℤ (if k == j then owed k +ℤ r else owed j)
both_moved k j r reserved paid owed h = elim (Bool-cases (k == j)) [
  | inl same ↦ rw (same, ← ℕ_eq k j same) (added _ _ _ r (h k))
  | inr other ↦ rw other (h j)
]

-- Reserving `r` for the offer `k` moves what is owed to it by `r`.
pub owed_more :
    (k : Symbol) (r : ℤ) (s s' : Insurance) (owed : Map Symbol ℤ)
    → IsReserved s owed
    → pos 0 ≤ℤ r
    → ((j : Symbol)
        → get_or (pos 0) j s'.resrvd
          ≡ (if k == j then get_or (pos 0) k s.resrvd +ℤ r else get_or (pos 0) j s.resrvd))
    → s'.tot_out ≡ s.tot_out +ℤ r
    → s'.paid ≡ s.paid
    → IsReserved s' (shift k r owed)
owed_more k r s s' owed (sums, low, each) positive resrvd total same =
    let here = (entry_le_sum k owed low).0 in
    (
      rw total (moved k r s.tot_out owed sums),
      NonNegative-set k (get_or (pos 0) k owed +ℤ r) owed (omega int_laws) low,
      λ j. (
        rw (same, resrvd j, get_or-set (pos 0) k j (get_or (pos 0) k owed +ℤ r) owed)
            (both_moved k j r (λ i. get_or (pos 0) i s.resrvd) (λ i. get_or (pos 0) i s.paid)
              (λ i. get_or (pos 0) i owed) (λ i. (each i).0)),
        rw same (each j).1,
      ),
    )
