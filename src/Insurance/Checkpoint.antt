-- ===== src/Insurance/Checkpoint.antt =====
-- The checkpoints of the flat pool's yield: `bank_accrued_yield` of insurance/src/lib.rs.
use invofi_contracts.Prelude.{
  ℕ, ◌-◌, ◌≡◌, refl, sym, subst, ◌⊎◌, inl, inr, Bool, true, false, Bool-cases, ◌==◌, arith,
  if◌then◌else◌, ==_refl,
}
use invofi_contracts.Prelude.Int.{ℤ, pos, negsuc, ◌+ℤ◌, ◌≤ℤ◌, is_zero, ltb_ℤ, int_laws}
use invofi_contracts.Prelude.Maps.{Map, ℕ_key, get_or, set, ℕ_eq}
use invofi_contracts.Prelude.MapLaws.{get_or-set}
use invofi_contracts.Host.Outcome.{
  Address, Result, ok, ◌>>=◌, Result-cases, ok-injective, >>=-eq-ok,
}
use invofi_contracts.Host.Machine.{add_i128}
use invofi_contracts.Insurance.Yield.{compute_yield, Accounts, credit, bank_accrued_yield}
use invofi_contracts.Insurance.YieldLaws.{compute_yield-floor}

-- The yield that a staker sees at `now` under a rate.
abbrev pub seen : ℕ → Map Address ℤ → ℕ → Address → Accounts Address → Result ℤ
seen rate stakes now j a =
    if is_zero (get_or (pos 0) j stakes)
    then ok (get_or (pos 0) j a.accruals)
    else compute_yield (get_or (pos 0) j stakes) rate (now - get_or now j a.timestamps)
      >>= add_i128 (get_or (pos 0) j a.accruals)

pub no_time_yield : (p : ℤ) (rate now : ℕ) → compute_yield p rate (now - now) ≡ ok (pos 0)
unfolding compute_yield
no_time_yield p rate now = ground arith

-- Once added, a total can be read again.
add_zero : (a b t : ℤ) → add_i128 a b ≡ ok t → add_i128 t (pos 0) ≡ ok t
unfolding add_i128
add_zero a b t h = let same : t +ℤ pos 0 ≡ t = omega int_laws in rw same (ground arith)

credit-either :
    (k : Address) (y : ℤ) (accruals : Map Address ℤ) {accruals' : Map Address ℤ}
    → credit k y accruals ≡ ok accruals'
    → ((ltb_ℤ (pos 0) y ≡ false) × (accruals' ≡ accruals))
      ⊎ ((t : ℤ) × (add_i128 (get_or (pos 0) k accruals) y ≡ ok t) × (accruals' ≡ set k t accruals))
unfolding credit
credit-either k y accruals {accruals'} h = elim (Bool-cases (ltb_ℤ (pos 0) y)) [
  | inr flat ↦ inl (flat, ground arith)
  | inl positive ↦
      let (t, added, stored) =
        >>=-eq-ok (add_i128 (get_or (pos 0) k accruals) y) _ (rw positive at h) in
      inr (t, added, sym (ok-injective _ _ stored))
]

bank_fields :
    (rate : ℕ) (k : Address) (stakes : Map Address ℤ) (now : ℕ) (a : Accounts Address)
    {a' : Accounts Address}
    → bank_accrued_yield rate k stakes now a ≡ ok a'
    → ((is_zero (get_or (pos 0) k stakes) ≡ true) × (a' ≡ a))
      ⊎ ((is_zero (get_or (pos 0) k stakes) ≡ false)
          × (a'.timestamps ≡ set k now a.timestamps)
          × ((y : ℤ) × (compute_yield
                  (get_or (pos 0) k stakes)
                  rate
                  (now - get_or now k a.timestamps)
                ≡ ok y)
              × (((ltb_ℤ (pos 0) y ≡ false) × (a'.accruals ≡ a.accruals))
                  ⊎ ((t : ℤ) × (add_i128 (get_or (pos 0) k a.accruals) y ≡ ok t)
                      × (a'.accruals ≡ set k t a.accruals)))))
unfolding bank_accrued_yield
bank_fields rate k stakes now a {a'} h = elim (Bool-cases (is_zero (get_or (pos 0) k stakes))) [
  | inl none ↦ inl (none, ground arith)
  | inr some ↦
      elim (Result-cases
        (compute_yield (get_or (pos 0) k stakes) rate (now - get_or now k a.timestamps))) [
          | inr (x, bad) ↦ absurd (ground arith)
          | inl (y, found) ↦ elim (Result-cases (credit k y a.accruals)) [
            | inr (x, bad) ↦ absurd (ground arith)
            | inl (accruals, credited) ↦
                let same : a'.accruals ≡ accruals = ground arith in
                inr
                  (some, ground arith, (y, found, rw same (credit-either k y a.accruals credited)))
          ]
        ]
]

-- A position whose principal is not negative: banking it does not change what is seen of it.
banked_here :
    (rate : ℕ) (p : ℕ) (now start : ℕ) (banked : ℤ) {y : ℤ} (banked' : ℤ)
    → compute_yield (pos p) rate (now - start) ≡ ok y
    → (((ltb_ℤ (pos 0) y ≡ false) × (banked' ≡ banked))
        ⊎ ((t : ℤ) × (add_i128 banked y ≡ ok t) × (banked' ≡ t)))
    → (compute_yield (pos p) rate (now - now) >>= add_i128 banked')
      ≡ (compute_yield (pos p) rate (now - start) >>= add_i128 banked)
banked_here rate p now start banked {y} banked' found either =
    let floor = compute_yield-floor p rate (now - start) found in
    rw (no_time_yield (pos p) rate now, found)
      (elim either [
        | inl (flat, same) ↦ let zero_y : y ≡ pos 0 = ground arith in rw (same, zero_y) refl
        | inr (t, added, same) ↦ rw (same, added) (add_zero banked y t added)
      ])

as_pos : (z : ℤ) → pos 0 ≤ℤ z → (n : ℕ) × (z ≡ pos n)
as_pos (pos n) h = (n, refl)
as_pos (negsuc n) h = absurd (omega (arith, h))

-- What banking `y` for `k` did to the accruals.
abbrev Credited : Address → ℤ → Map Address ℤ → Map Address ℤ → Type 0
Credited k y accruals accruals' =
    ((ltb_ℤ (pos 0) y ≡ false) × (accruals' ≡ accruals))
    ⊎ ((t : ℤ) × (add_i128 (get_or (pos 0) k accruals) y ≡ ok t) × (accruals' ≡ set k t accruals))

accrual_of_other :
    (k j : Address) (y : ℤ) (accruals accruals' : Map Address ℤ)
    → Credited k y accruals accruals'
    → (k == j) ≡ false
    → get_or (pos 0) j accruals' ≡ get_or (pos 0) j accruals
accrual_of_other k j y accruals accruals' (inl (_, same)) h = rw same refl
accrual_of_other k j y accruals accruals' (inr (t, _, stored)) h =
    rw (stored, get_or-set (pos 0) k j t accruals, h) refl

accrual_here :
    (k : Address) (y : ℤ) (accruals accruals' : Map Address ℤ)
    → Credited k y accruals accruals'
    → ((ltb_ℤ (pos 0) y ≡ false) × (get_or (pos 0) k accruals' ≡ get_or (pos 0) k accruals))
      ⊎ ((t : ℤ) × (add_i128 (get_or (pos 0) k accruals) y ≡ ok t)
          × (get_or (pos 0) k accruals' ≡ t))
accrual_here k y accruals accruals' (inl (flat, same)) = inl (flat, rw same refl)
accrual_here k y accruals accruals' (inr (t, added, stored)) =
    inr (t, added, rw (stored, get_or-set (pos 0) k k t accruals, ==_refl k) refl)

seen_here :
    (rate : ℕ) (k : Address) (stakes : Map Address ℤ) (now : ℕ) (a a' : Accounts Address) (n : ℕ)
    {y : ℤ}
    → get_or (pos 0) k stakes ≡ pos n
    → a'.timestamps ≡ set k now a.timestamps
    → compute_yield (pos n) rate (now - get_or now k a.timestamps) ≡ ok y
    → Credited k y a.accruals a'.accruals
    → is_zero (pos n) ≡ false
    → seen rate stakes now k a' ≡ seen rate stakes now k a
seen_here rate k stakes now a a' n {y} e times found either some =
    rw (e, some, times, get_or-set now k k now a.timestamps, ==_refl k)
      (banked_here rate n now (get_or now k a.timestamps) (get_or (pos 0) k a.accruals) _ found
        (accrual_here k y a.accruals a'.accruals either))

-- Banking a staker's yield changes what no staker with a non-negative stake sees of it.
pub bank-seen :
    (rate : ℕ) (k : Address) (stakes : Map Address ℤ) (now : ℕ) (a : Accounts Address)
    {a' : Accounts Address} (j : Address)
    → pos 0 ≤ℤ get_or (pos 0) j stakes
    → bank_accrued_yield rate k stakes now a ≡ ok a'
    → seen rate stakes now j a' ≡ seen rate stakes now j a
bank-seen rate k stakes now a {a'} j low h = elim (bank_fields rate k stakes now a h) [
  | inl (none, same) ↦ rw same refl
  | inr (some, times, (y, found, either)) ↦ elim (Bool-cases (k == j)) [
    | inr other ↦
        rw
          (
            accrual_of_other k j y a.accruals a'.accruals either other,
            times,
            get_or-set now k j now a.timestamps,
            other,
          )
          refl
    | inl same ↦
        let here : k ≡ j = ℕ_eq k j same in
        let (n, e) = as_pos (get_or (pos 0) k stakes) (rw (← here) at low) in
        subst (λ i. seen rate stakes now i a' ≡ seen rate stakes now i a) here
          (seen_here rate k stakes now a a' n e times (rw e at found) either (rw e at some))
  ]
]

pub bank-start :
    (rate : ℕ) (k : Address) (stakes : Map Address ℤ) (now : ℕ) (a : Accounts Address)
    {a' : Accounts Address}
    → bank_accrued_yield rate k stakes now a ≡ ok a'
    → (is_zero (get_or (pos 0) k stakes) ≡ true) ⊎ (get_or now k a'.timestamps ≡ now)
bank-start rate k stakes now a h = elim (bank_fields rate k stakes now a h) [
  | inl (none, _) ↦ inl none
  | inr (_, times, _) ↦ inr (rw (times, get_or-set now k k now a.timestamps, ==_refl k) refl)
]

pub bank-start_kept :
    (rate : ℕ) (k : Address) (stakes : Map Address ℤ) (now : ℕ) (a : Accounts Address)
    {a' : Accounts Address} (j : Address)
    → bank_accrued_yield rate k stakes now a ≡ ok a'
    → get_or now j a.timestamps ≡ now
    → get_or now j a'.timestamps ≡ now
bank-start_kept rate k stakes now a j h start = elim (bank_fields rate k stakes now a h) [
  | inl (_, same) ↦ rw same start
  | inr (_, times, _) ↦
      rw (times, get_or-set now k j now a.timestamps, start) (either_way (k == j) now)
]
  where
    either_way : (b : Bool) (now : ℕ) → (if b then now else now) ≡ now
    either_way true now = refl
    either_way false now = refl
