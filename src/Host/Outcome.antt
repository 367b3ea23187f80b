-- ===== src/Host/Outcome.antt =====
-- How a contract call ends. Every error traps, and the host then undoes the whole transaction, so a
-- failed call has no state: common/src/lib.rs (`ContractError`) and the panics of the contracts.
use invofi_contracts.Prelude.{
  ℕ, ◌≡◌, refl, ◌⊎◌, inl, inr, Bool, true, false, not, if◌then◌else◌, Option, none, some,
}

abbrev pub Address : Type 0
Address = ℕ

abbrev pub Symbol : Type 0
Symbol = ℕ

-- `BytesN<32>`
abbrev pub Hash : Type 0
Hash = ℕ

pub data ContractError : Type 0 where
  unauthorized not_found invalid_transition paused insufficient_balance : ContractError
  invalid_input already_exists blacklisted invalid_version upgrade_pending : ContractError
  upgrade_not_pending rollback_unavailable offer_expired : ContractError

-- `contract e` is `panic_with_error(e)`, `panicked` a `panic!` or a failed `assert!`, `overflow` an
-- arithmetic trap (overflow-checks are on), `not_authorized` a failed `require_auth`, and
-- `call_failed` a trap inside a token contract.
pub data Fault : Type 0 where
  contract : ContractError → Fault
  panicked overflow not_authorized call_failed : Fault

pub data Result {ℓ} (A : Type ℓ) : Type ℓ where
  ok : A → Result A
  err : Fault → Result A

abbrev pub Done : Type 0
Done = Result (Unit {0})

infixl 5 ◌>>=◌ ◌>>◌
-- The rest of a call runs only if this step did not trap.
abbrev pub ◌>>=◌ {ℓ ν} : {S : Type ℓ} {T : Type ν} → Result S → (S → Result T) → Result T
step >>= rest = elim step [ ok v ↦ rest v | err trap ↦ err trap ]

abbrev pub ◌>>◌ {ν} : {T : Type ν} → Done → Result T → Result T
check >> rest = check >>= (λ _. rest)

-- `if !b { panic }`
abbrev pub guard : Bool → Fault → Done
guard b fault = if b then ok tt else err fault

-- `o.unwrap_or_else(|| panic)`
abbrev pub unwrap {ℓ} : {A : Type ℓ} → Option A → Fault → Result A
unwrap none e = err e
unwrap (some a) _ = ok a

-- One invocation: the contract's own address, the ledger's timestamp, and the addresses whose
-- authorization the host finds for it (a signer's, or the calling contract's).
pub record Invocation : Type 0 where
  pub self : Address
  pub now : ℕ
  pub auth : Address → Bool

-- `address.require_auth()`
abbrev pub require_auth : Invocation → Address → Done
require_auth c who = guard (c.auth who) not_authorized

-- A call that returned has run both steps.
pub >>=-eq-ok {ℓ ν} :
    {S : Type ℓ} {T : Type ν} (step : Result S) (rest : S → Result T) {out : T}
    → (step >>= rest) ≡ ok out
    → (v : S) × (step ≡ ok v) × (rest v ≡ ok out)
>>=-eq-ok (err trap) rest returned = cc
>>=-eq-ok (ok v) rest returned = (v, refl, returned)

-- Inversion of a guarded step that succeeded: the test passed, and the rest succeeded.
pub guard-then {ℓ} :
    {A : Type ℓ} (b : Bool) (e : Fault) (k : Result A) {r : A}
    → (guard b e >> k) ≡ ok r
    → (b ≡ true) × (k ≡ ok r)
guard-then true e k h = (refl, h)
guard-then false e k h = cc

pub guard-eq-ok : (b : Bool) (e : Fault) → guard b e ≡ ok tt → b ≡ true
guard-eq-ok true e h = refl
guard-eq-ok false e h = cc

pub unwrap-eq-ok {ℓ} :
    {A : Type ℓ} (o : Option A) (e : Fault) {a : A} → unwrap o e ≡ ok a → o ≡ some a
unwrap-eq-ok none e h = cc
unwrap-eq-ok (some b) e h = cc

pub not-eq-true : (b : Bool) → not b ≡ true → b ≡ false
not-eq-true true h = cc
not-eq-true false h = refl

pub >>-eq-ok {ℓ} :
    {A : Type ℓ} (m : Done) (k : Result A) {r : A} → (m >> k) ≡ ok r → (m ≡ ok tt) × (k ≡ ok r)
>>-eq-ok (ok tt) k h = (refl, h)
>>-eq-ok (err e) k h = cc

pub ok-injective {ℓ} : {A : Type ℓ} (a b : A) → ok a ≡ ok b → a ≡ b
ok-injective a b h = cc

pub Result-cases {ℓ} :
    {A : Type ℓ} (r : Result A) → ((a : A) × (r ≡ ok a)) ⊎ ((e : Fault) × (r ≡ err e))
Result-cases (ok a) = inl (a, refl)
Result-cases (err e) = inr (e, refl)
