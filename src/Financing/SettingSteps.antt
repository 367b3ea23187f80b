-- ===== src/Financing/SettingSteps.antt =====
-- The settings and the constructor of financing/src/lib.rs on the statistics.
use invofi_contracts.Prelude.{◌≡◌, refl, ◌∙◌, subst, inl, inr, none, some, List, [], ◌∷◌, ℕ, arith}
use invofi_contracts.Prelude.Maps.{ℕ_key}
use invofi_contracts.Host.Outcome.{
  Address, Symbol, Hash, Result, ok, err, ◌>>◌, Invocation, >>=-eq-ok, >>-eq-ok, ok-injective,
  Result-cases,
}
use invofi_contracts.Common.Types.{Text}
use invofi_contracts.Common.Storage.{assert_not_paused, register_currency}
use invofi_contracts.Common.Version.{parse_semantic_version}
use invofi_contracts.Common.Upgrade.{initialize_contract_version}
use invofi_contracts.Common.Governance.{init_admin_config, assert_admin}
use invofi_contracts.Common.Contract.Calls.{AdminCall, administer}
use invofi_contracts.Common.Contract.Administration.{IsGoverned, one_signer, administer-IsGoverned}
use invofi_contracts.Financing.State.{Financing, no_stats}
use invofi_contracts.Financing.Settings as Settings
use invofi_contracts.Financing.Calls.{alone, valued, settled}
use invofi_contracts.Financing.Books.{IsBooked}
use invofi_contracts.Financing.Steps.{same_books, books_kept}

module _ {W : Type 0} where
  pub alone-IsBooked :
      (w : W) (r : Result Financing) (x : Financing × W)
      → ((s' : Financing) → r ≡ ok s' → IsBooked s')
      → alone w r ≡ ok x
      → IsBooked x.0
  alone-IsBooked w (err trap) x keeps h = cc
  alone-IsBooked w (ok s) x keeps h = subst (λ y. IsBooked y.0) (ok-injective _ _ h) (keeps s refl)

  pub valued-IsBooked :
      {A : Type 0} (w : W) (r : Result (A × Financing)) (x : Financing × W)
      → ((a : A) (s' : Financing) → r ≡ ok (a, s') → IsBooked s')
      → valued w r ≡ ok x
      → IsBooked x.0
  valued-IsBooked w (err trap) x keeps h = cc
  valued-IsBooked w (ok (a, s)) x keeps h =
      subst (λ y. IsBooked y.0) (ok-injective _ _ h) (keeps a s refl)

  pub settled-IsBooked :
      {A : Type 0} (r : Result (A × Financing × W)) (x : Financing × W)
      → ((a : A) (s' : Financing) (w' : W) → r ≡ ok (a, s', w') → IsBooked s')
      → settled r ≡ ok x
      → IsBooked x.0
  settled-IsBooked (err trap) x keeps h = cc
  settled-IsBooked (ok (a, s, w)) x keeps h =
      subst (λ y. IsBooked y.0) (ok-injective _ _ h) (keeps a s w refl)

-- The guards that every setting shares.
admitted :
    (c : Invocation) (signers : List Address) (s s' : Financing) (rest : Result Financing)
    → (assert_not_paused s.store >> (assert_admin c signers s.store >> rest)) ≡ ok s'
    → rest ≡ ok s'
admitted c signers s s' rest h =
    let (_, h₁) = >>-eq-ok (assert_not_paused s.store) _ h in
    let (_, h₂) = >>-eq-ok (assert_admin c signers s.store) _ h₁ in h₂

settings-IsBooked :
    (s s' : Financing)
    → s'.offers ≡ s.offers
    → s'.lstats ≡ s.lstats
    → s'.stats ≡ s.stats
    → s'.feebps ≡ s.feebps
    → IsGoverned s'.store
    → IsBooked s
    → IsBooked s'
settings-IsBooked s s' offers lstats stats fee governed b = record {
  amounts = λ l. rw (offers, lstats) (b.amounts l);
  numbers = λ l. rw (offers, lstats) (b.numbers l);
  count = rw (offers, stats) b.count;
  free = fee ∙ b.free;
  governed = governed;
}

pub repayment-IsBooked :
    (c : Invocation) (signers : List Address) (addr : Address) (s : Financing) {s' : Financing}
    → Settings.set_repayment_contract c signers addr s ≡ ok s'
    → IsBooked s
    → IsBooked s'
unfolding Settings.set_repayment_contract
repayment-IsBooked c signers addr s h b =
    subst IsBooked (ok-injective _ _ (admitted c signers s _ _ h))
      (books_kept s _ (same_books _ _ refl refl refl refl refl) b)

pub position-IsBooked :
    (c : Invocation) (signers : List Address) (addr : Address) (s : Financing) {s' : Financing}
    → Settings.set_position_token c signers addr s ≡ ok s'
    → IsBooked s
    → IsBooked s'
unfolding Settings.set_position_token
position-IsBooked c signers addr s h b =
    subst IsBooked (ok-injective _ _ (admitted c signers s _ _ h))
      (books_kept s _ (same_books _ _ refl refl refl refl refl) b)

pub currency-IsBooked :
    (c : Invocation) (signers : List Address) (currency : Symbol) (addr : Address) (s : Financing)
    {s' : Financing}
    → Settings.register_currency c signers currency addr s ≡ ok s'
    → IsBooked s
    → IsBooked s'
unfolding Settings.register_currency register_currency
currency-IsBooked c signers currency addr s h b =
    subst IsBooked (ok-injective _ _ (admitted c signers s _ _ h))
      (books_kept s _ (same_books _ _ refl refl refl refl refl) b)

pub window-IsBooked :
    (c : Invocation) (signers : List Address) (window : ℕ) (s : Financing) {s' : Financing}
    → Settings.set_negotiation_window c signers window s ≡ ok s'
    → IsBooked s
    → IsBooked s'
unfolding Settings.set_negotiation_window
window-IsBooked c signers window s h b =
    let (_, k) = >>-eq-ok _ _ (admitted c signers s _ _ h) in
    subst IsBooked (ok-injective _ _ k) (books_kept s _ (same_books _ _ refl refl refl refl refl) b)

pub administer-IsBooked :
    (c : Invocation) (signers : List Address) (call : AdminCall) (s : Financing) {s' : Financing}
    → Settings.administer_financing c signers call s ≡ ok s'
    → IsBooked s
    → IsBooked s'
unfolding Settings.administer_financing
administer-IsBooked c signers call s h b =
    let (store, e, k) = >>=-eq-ok (administer c signers call s.store) _ h in
    subst IsBooked (ok-injective _ _ k) (
      settings-IsBooked s (record s { store = store }) refl refl refl refl
        (administer-IsGoverned c signers call s.store b.governed e) b)

constructor_fields :
    (wasm : Hash) (admin registry_addr token_addr : Address) (version : Text) {s : Financing}
    → Settings.constructor wasm admin registry_addr token_addr version ≡ ok s
    → (s.store.admcfg ≡ some (record { signers = admin ∷ []; threshold = 1 }))
      × (s.offers ≡ [])
      × (s.lstats ≡ [])
      × (s.stats ≡ no_stats)
      × (s.feebps ≡ none)
unfolding Settings.constructor init_admin_config initialize_contract_version
constructor_fields wasm admin ra ta version h =
    elim (Result-cases (parse_semantic_version version)) [
      | inr (e, bad) ↦ absurd (ground arith)
      | inl (v, parsed) ↦ ground arith
    ]

pub constructed :
    (wasm : Hash) (admin registry_addr token_addr : Address) (version : Text) {s : Financing}
    → Settings.constructor wasm admin registry_addr token_addr version ≡ ok s
    → IsBooked s
constructed wasm admin ra ta version h =
    let (admcfg, offers, lstats, stats, fee) = constructor_fields wasm admin ra ta version h in
    record {
      amounts = λ l. rw (offers, lstats) refl;
      numbers = λ l. rw (offers, lstats) refl;
      count = rw (offers, stats) refl;
      free = fee;
      governed = record {
        cfg = record { signers = admin ∷ []; threshold = 1 };
        stored = admcfg;
        formed = one_signer admin;
      };
    }
