-- ===== src/Protocol/Links.antt =====
-- The clients of common/src/lib.rs, with the called contract's state beside the state `U` of all the
-- rest. A call's invoker authorizes its own address to the called contract.
use invofi_contracts.Prelude.{◌∙◌, ◌≡◌, sym, ap, ◌||◌, ◌==◌}
use invofi_contracts.Host.Outcome.{Address, Result, ok, ◌>>=◌, Invocation, >>=-eq-ok, ok-injective}
use invofi_contracts.Common.Clients.{
  Token, RegistryClient, FinancingClient, InsuranceClient, ReputationClient,
}
use invofi_contracts.Insurance.State.{Insurance}
use invofi_contracts.Insurance.Payout as Payout
use invofi_contracts.Financing.State.{Financing, get_offer}
use invofi_contracts.Financing.Callbacks as Callbacks
use invofi_contracts.Financing.Schedules as Schedules

-- The invocation that a call to `callee` makes.
unfoldable pub nested : Invocation → Address → Invocation
nested c callee = record { self = callee; now = c.now; auth = λ who. who == c.self || c.auth who }

module _ {S U : Type 0} where
  -- A call that does not reach the state set apart.
  abbrev pub beside {ℓ} : {A : Type ℓ} → S → Result (A × U) → Result (A × (S × U))
  beside s r = r >>= λ x. ok (x.0, (s, x.1))

  abbrev pub beside_done : S → Result U → Result (S × U)
  beside_done s r = r >>= λ u. ok (s, u)

  abbrev pub lift_registry : RegistryClient U → RegistryClient (S × U)
  lift_registry r = record {
    get_invoice = λ a id w. r.get_invoice a id w.1;
    mark_invoice_overdue = λ a id w. beside w.0 (r.mark_invoice_overdue a id w.1);
    financing_marks_invoice_financed =
        λ a id w. beside w.0 (r.financing_marks_invoice_financed a id w.1);
    repayment_marks_invoice_repaid =
        λ a id fully w. beside w.0 (r.repayment_marks_invoice_repaid a id fully w.1);
    repayment_marks_defaulted = λ a id w. beside w.0 (r.repayment_marks_defaulted a id w.1);
    is_blacklisted = λ a who w. r.is_blacklisted a who w.1;
    get_fee_recipient = λ a w. r.get_fee_recipient a w.1;
  }

  abbrev pub lift_financing : FinancingClient U → FinancingClient (S × U)
  lift_financing f = record {
    get_offer = λ a id w. f.get_offer a id w.1;
    update_offer_status = λ a id status w. beside_done w.0 (f.update_offer_status a id status w.1);
    update_offer_amount_repaid =
        λ a id amt w. beside_done w.0 (f.update_offer_amount_repaid a id amt w.1);
    update_lender_stats_repaid =
        λ a who fully w. beside_done w.0 (f.update_lender_stats_repaid a who fully w.1);
    update_stats_repaid = λ a amt fee w. beside_done w.0 (f.update_stats_repaid a amt fee w.1);
    get_fee_bps = λ a w. f.get_fee_bps a w.1;
    get_installment_due = λ a id w. f.get_installment_due a id w.1;
  }

  abbrev pub lift_reputation : ReputationClient U → ReputationClient (S × U)
  lift_reputation p = record {
    record_outcome = λ a who outcome w. beside_done w.0 (p.record_outcome a who outcome w.1);
  }

  abbrev pub lift_token : Token U → Token (S × U)
  lift_token t = record {
    transfer = λ a from to amt w. beside_done w.0 (t.transfer a from to amt w.1);
    transfer_from =
        λ a spender from to amt w. beside_done w.0 (t.transfer_from a spender from to amt w.1);
    mint = λ a to amt w. beside_done w.0 (t.mint a to amt w.1);
    balance = λ a who w. t.balance a who w.1;
  }

-- The insurance contract's `pay_out`, called by the contract whose invocation is `c`.
unfoldable pub insurance_client :
    {U : Type 0} → Token U → RegistryClient U → Invocation → InsuranceClient (Insurance × U)
insurance_client token registry c = record {
  pay_out = λ addr invoice_id who amt w.
      Payout.pay_out token registry (nested c addr) invoice_id who amt w.0 w.1 >>= λ x.
      ok (x.0, (x.1, x.2));
}

-- The financing contract, called by the contract whose invocation is `c`.
unfoldable pub financing_client : {U : Type 0} → Invocation → FinancingClient (Financing × U)
financing_client c = record {
  get_offer = λ addr id w. get_offer id w.0;
  update_offer_status = λ addr id status w.
      Callbacks.update_offer_status (nested c addr) id status w.0 >>= λ s. ok (s, w.1);
  update_offer_amount_repaid = λ addr id amt w.
      Callbacks.update_offer_amount_repaid (nested c addr) id amt w.0 >>= λ s. ok (s, w.1);
  update_lender_stats_repaid = λ addr who fully w.
      Callbacks.update_lender_stats_repaid (nested c addr) who fully w.0 >>= λ s. ok (s, w.1);
  update_stats_repaid = λ addr amt fee w.
      Callbacks.update_stats_repaid (nested c addr) amt fee w.0 >>= λ s. ok (s, w.1);
  get_fee_bps = λ addr w. ok (Callbacks.get_fee_bps w.0);
  get_installment_due = λ addr id w. Schedules.get_installment_due (nested c addr) id w.0;
}

module _ {S U : Type 0} where
  -- The state set apart stays.
  pub beside_done-kept : (s : S) (r : Result U) {w : S × U} → beside_done s r ≡ ok w → w.0 ≡ s
  beside_done-kept s r h =
      let (u, _, e) = >>=-eq-ok r _ h in sym (ap (λ x. x.0) (ok-injective _ _ e))

  pub beside-kept {ℓ} :
      {A : Type ℓ} (s : S) (r : Result (A × U)) {x : A × (S × U)} → beside s r ≡ ok x → x.1.0 ≡ s
  beside-kept s r h = let (u, _, e) = >>=-eq-ok r _ h in sym (ap (λ x. x.1.0) (ok-injective _ _ e))

  -- The call beside it was made.
  pub beside_done-called : (s : S) (r : Result U) {w : S × U} → beside_done s r ≡ ok w → r ≡ ok w.1
  beside_done-called s r h =
      let (u, e, k) = >>=-eq-ok r _ h in e ∙ ap (λ x. ok (x.1)) (ok-injective _ _ k)

  pub beside-called {ℓ} :
      {A : Type ℓ} (s : S) (r : Result (A × U)) {x : A × (S × U)}
      → beside s r ≡ ok x
      → r ≡ ok (x.0, x.1.1)
  beside-called s r h =
      let (u, e, k) = >>=-eq-ok r _ h in e ∙ ap (λ x. ok (x.0, x.1.1)) (ok-injective _ _ k)
