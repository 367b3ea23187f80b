-- ===== src/Host/Transactions.antt =====
-- A sequence of transactions on a contract: the host undoes one that traps.
use invofi_contracts.Prelude.{◌≡◌, inl, inr, List, [], ◌∷◌}
use invofi_contracts.Host.Outcome.{Result, ok, err, Result-cases}

abbrev pub after_transaction {ℓ} : {S : Type ℓ} → Result S → S → S
after_transaction (ok next) before = next
after_transaction (err _) before = before

module _ {ℓ κ} {S : Type ℓ} {C : Type κ} (perform : C → S → Result S) where
  unfoldable pub run_all : List C → S → S
  run_all [] s = s
  run_all (call ∷ rest) s = run_all rest (after_transaction (perform call s) s)

-- What every transaction that succeeds keeps, a sequence of transactions keeps.
pub run_all-invariant {ℓ κ μ} :
    {S : Type ℓ} {C : Type κ} (perform : C → S → Result S) (P : S → Type μ)
    → ((call : C) (s s' : S) → P s → perform call s ≡ ok s' → P s')
    → (calls : List C) (s : S) → P s
    → P (run_all perform calls s)
unfolding run_all
run_all-invariant perform P keeps [] s p = p
run_all-invariant perform P keeps (call ∷ rest) s p = elim (Result-cases (perform call s)) [
  | inl (s', e) ↦ rw e (run_all-invariant perform P keeps rest s' (keeps call s s' p e))
  | inr (trap, e) ↦ rw e (run_all-invariant perform P keeps rest s p)
]
