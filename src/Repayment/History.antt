-- ===== src/Repayment/History.antt =====
-- The histories of the contract of repayment/src/lib.rs.
use invofi_contracts.Prelude.{
  ℕ, ◌+◌, ◌≡◌, refl, sym, ap, inl, inr, some, List, [], ◌∷◌, subst, leb, leb→le, arith,
}
use invofi_contracts.Prelude.Lists.{length}
use invofi_contracts.Prelude.Int.{ℤ}
use invofi_contracts.Prelude.Maps.{ℕ_key}
use invofi_contracts.Host.Outcome.{
  Address, Symbol, Hash, ok, Invocation, >>=-eq-ok, >>-eq-ok, ok-injective, guard-then,
  Result-cases, contract, invalid_input,
}
use invofi_contracts.Host.Transactions.{run_all, run_all-invariant}
use invofi_contracts.Common.Types.{Invoice, FinancingOffer, OfferStatus, Text}
use invofi_contracts.Common.Storage.{assert_not_paused}
use invofi_contracts.Common.Version.{parse_semantic_version}
use invofi_contracts.Common.Upgrade.{initialize_contract_version}
use invofi_contracts.Common.Governance.{init_admin_config, assert_admin}
use invofi_contracts.Common.Clients.{
  Token, RegistryClient, FinancingClient, InsuranceClient, ReputationClient,
}
use invofi_contracts.Common.Contract.Calls.{administer}
use invofi_contracts.Common.Contract.Administration.{one_signer, administer-IsGoverned}
use invofi_contracts.Repayment.State.{Repayment, load_payments, max_penalty_bps}
use invofi_contracts.Repayment.Interest.{frozen_base}
use invofi_contracts.Repayment.Repay as Repay
use invofi_contracts.Repayment.Reclaim as Reclaim
use invofi_contracts.Repayment.Settings as Settings
use invofi_contracts.Repayment.Payoff.{repay_invoice_lem, repay_invoice_frame}
use invofi_contracts.Repayment.Cleared.{payment_of}
use invofi_contracts.Repayment.Calls.{RepaymentCall, perform}
use invofi_contracts.Repayment.Kept.{
  IsSplit, IsNumbered-append, IsKept, settings_step, same_governed,
}

module _ {W : Type 0} (token : Token W) (registry : RegistryClient W)
    (financing : FinancingClient W) (reputation : ReputationClient W) where
  repay_step :
      (c : Invocation) (invoice_id offer_id : Symbol) (repayer : Address) (amt : ℤ) (s : Repayment)
      (w : W) {invoice' : Invoice} {s' : Repayment} {w' : W}
      → IsKept s
      → Repay.repay_invoice token registry financing reputation c invoice_id offer_id repayer amt s
          w
        ≡ ok (invoice', s', w')
      → IsKept s'
  repay_step c invoice_id offer_id repayer amt s w {invoice'} {s'} k h =
      let (
        loan, fee_bps, parts, w₁, w₂, _, positive, _, _, interest, principal, sum, _, _, _, _,
        grown, others,
      ) =
        repay_invoice_lem token registry financing reputation c invoice_id offer_id repayer amt s w
          h in
      let (rate, cap, admin) =
        repay_invoice_frame token registry financing reputation c invoice_id offer_id repayer amt s
          w h in
      let number = length (load_payments invoice_id s) + 1 in
      let whole : IsSplit (payment_of c repayer amt parts number) = record {
        positive = positive;
        interest = interest;
        principal = principal;
        sum = sum;
      } in
      let extended =
        IsNumbered-append 0 (load_payments invoice_id s) (payment_of c repayer amt parts number)
          (k.histories invoice_id) (omega arith) whole in
      record {
        histories = λ id. elim (others id) [
          | inl same ↦ rw (same, grown) extended
          | inr kept ↦ rw kept (k.histories id)
        ];
        rate = rw rate k.rate;
        cap = rw cap k.cap;
        governed = same_governed s.store s'.store admin k.governed;
      }

penalty_step :
    (c : Invocation) (signers : List Address) (bps cap : ℕ) (s : Repayment) {s' : Repayment}
    → IsKept s
    → Settings.set_penalty c signers bps cap s ≡ ok s'
    → IsKept s'
unfolding Settings.set_penalty load_payments
penalty_step c signers bps cap s k h =
    let (_, h₁) = >>-eq-ok (assert_not_paused s.store) _ h in
    let (_, h₂) = >>-eq-ok (assert_admin c signers s.store) _ h₁ in
    let (rate, h₃) = guard-then (leb bps max_penalty_bps) (contract invalid_input) _ h₂ in
    let (most, h₄) = guard-then (leb cap 10000) (contract invalid_input) _ h₃ in
    subst IsKept (ok-injective _ _ h₄) (record {
      histories = k.histories;
      rate = leb→le bps max_penalty_bps rate;
      cap = leb→le cap 10000 most;
      governed = k.governed;
    })

constructor_fields :
    (wasm : Hash) (admin registry_addr financing_addr token_addr : Address) (version : Text)
    {s : Repayment}
    → Settings.constructor wasm admin registry_addr financing_addr token_addr version ≡ ok s
    → (s.store.admcfg ≡ some (record { signers = admin ∷ []; threshold = 1 }))
      × (s.pays ≡ [])
      × (s.penbps ≡ 0)
      × (s.pencap ≡ 0)
unfolding Settings.constructor init_admin_config initialize_contract_version
constructor_fields wasm admin ra fa ta version h =
    elim (Result-cases (parse_semantic_version version)) [
      | inr (e, bad) ↦ absurd (ground arith)
      | inl (v, parsed) ↦ ground arith
    ]

constructed :
    (wasm : Hash) (admin registry_addr financing_addr token_addr : Address) (version : Text)
    {s : Repayment}
    → Settings.constructor wasm admin registry_addr financing_addr token_addr version ≡ ok s
    → IsKept s
unfolding load_payments
constructed wasm admin ra fa ta version h =
    let (admcfg, pays, rate, cap) = constructor_fields wasm admin ra fa ta version h in
    record {
      histories = λ id. rw pays tt;
      rate = omega (arith, rate);
      cap = omega (arith, cap);
      governed = record {
        cfg = record { signers = admin ∷ []; threshold = 1 };
        stored = admcfg;
        formed = one_signer admin;
      };
    }

module _ {W : Type 0} (token : Token W) (registry : RegistryClient W)
    (financing : FinancingClient W) (insurance : InsuranceClient W)
    (reputation : ReputationClient W) where
  reclaim_fields :
      (c : Invocation) (invoice_id offer_id : Symbol) (lender : Address) (s : Repayment) (w : W)
      {offer' : FinancingOffer} {s' : Repayment} {w' : W}
      → Reclaim.reclaim_invoice registry financing insurance reputation c invoice_id offer_id lender
          s w
        ≡ ok (offer', s', w')
      → (s'.pays ≡ s.pays)
        × (s'.penbps ≡ s.penbps)
        × (s'.pencap ≡ s.pencap)
        × (s'.store.admcfg ≡ s.store.admcfg)
  unfolding Reclaim.reclaim_invoice
  reclaim_fields c invoice_id offer_id lender s w h₀ =
      let (loan, _, h₁) =
        >>=-eq-ok (Reclaim.read_default registry financing c invoice_id offer_id lender s w) _ h₀ in
      let (w₁, _, h₂) =
        >>=-eq-ok
          (financing.update_offer_status loan.financing_addr offer_id OfferStatus.defaulted w) _
          h₁ in
      let (marked, _, h₃) =
        >>=-eq-ok (registry.repayment_marks_defaulted loan.registry_addr invoice_id w₁) _ h₂ in
      let (total, _, h₄) = >>=-eq-ok (frozen_base loan.offer) _ h₃ in
      let (due, _, h₅) = >>=-eq-ok (Reclaim.remaining_due total loan.offer) _ h₄ in
      let (paid, _, h₆) =
        >>=-eq-ok (Reclaim.insure insurance invoice_id loan.offer.lender due s marked.1) _ h₅ in
      let (w₄, _, h₇) =
        >>=-eq-ok (Reclaim.blame reputation loan.invoice.originator s paid.1) _ h₆ in
      let e = sym (ap (λ x. x.1) (ok-injective _ _ h₇)) in
      (ap (λ x. x.pays) e, ap (λ x. x.penbps) e, ap (λ x. x.pencap) e, ap (λ x. x.store.admcfg) e)

  -- Every entry point that succeeds keeps the contract as it should be.
  pub perform-IsKept :
      (call : Invocation × RepaymentCall) (x x' : Repayment × W)
      → IsKept x.0
      → perform token registry financing insurance reputation call x ≡ ok x'
      → IsKept x'.0
  unfolding perform
  perform-IsKept (c, RepaymentCall.repay_invoice invoice_id offer_id repayer amt) (s, w) x' k h =
      let (out, e, f) =
        >>=-eq-ok
          (Repay.repay_invoice token registry financing reputation c invoice_id offer_id repayer amt
            s w)
          _ h in
      subst (λ z. IsKept z.0) (ok-injective _ _ f)
        (repay_step token registry financing reputation c invoice_id offer_id repayer amt s w k e)
  perform-IsKept (c, RepaymentCall.mark_overdue invoice_id) (s, w) x' k h =
      let (out, _, f) = >>=-eq-ok (Reclaim.mark_overdue registry invoice_id s w) _ h in
      subst (λ z. IsKept z.0) (ok-injective _ _ f) k
  perform-IsKept (c, RepaymentCall.reclaim_invoice invoice_id offer_id lender) (s, w) x' k h =
      let (out, e, f) =
        >>=-eq-ok
          (Reclaim.reclaim_invoice registry financing insurance reputation c invoice_id offer_id
            lender s w)
          _ h in
      let (pays, rate, cap, admin) = reclaim_fields c invoice_id offer_id lender s w e in
      subst (λ z. IsKept z.0) (ok-injective _ _ f)
        (settings_step s out.1 pays rate cap k (same_governed s.store out.1.store admin k.governed))
  perform-IsKept (c, RepaymentCall.set_insurance signers addr) (s, w) x' k h =
      let (out, e, f) = >>=-eq-ok (Settings.set_insurance c signers addr s) _ h in
      subst (λ z. IsKept z.0) (ok-injective _ _ f)
        (unfold Settings.set_insurance in
          (let (_, e₁) = >>-eq-ok (assert_not_paused s.store) _ e in
            let (_, e₂) = >>-eq-ok (assert_admin c signers s.store) _ e₁ in
            subst IsKept (ok-injective _ _ e₂)
              (settings_step s (record s { insadd = some addr }) refl refl refl k k.governed)))
  perform-IsKept (c, RepaymentCall.set_reputation signers addr) (s, w) x' k h =
      let (out, e, f) = >>=-eq-ok (Settings.set_reputation c signers addr s) _ h in
      subst (λ z. IsKept z.0) (ok-injective _ _ f)
        (unfold Settings.set_reputation in
          (let (_, e₁) = >>-eq-ok (assert_not_paused s.store) _ e in
            let (_, e₂) = >>-eq-ok (assert_admin c signers s.store) _ e₁ in
            subst IsKept (ok-injective _ _ e₂)
              (settings_step s (record s { repadd = some addr }) refl refl refl k k.governed)))
  perform-IsKept (c, RepaymentCall.set_penalty signers bps cap) (s, w) x' k h =
      let (out, e, f) = >>=-eq-ok (Settings.set_penalty c signers bps cap s) _ h in
      subst (λ z. IsKept z.0) (ok-injective _ _ f) (penalty_step c signers bps cap s k e)
  perform-IsKept (c, RepaymentCall.administer signers call) (s, w) x' k h =
      let (out, e, f) = >>=-eq-ok (Settings.administer_repayment c signers call s) _ h in
      subst (λ z. IsKept z.0) (ok-injective _ _ f)
        (unfold Settings.administer_repayment in
          (let (store, e₁, e₂) = >>=-eq-ok (administer c signers call s.store) _ e in
            subst IsKept (ok-injective _ _ e₂) (
              settings_step s (record s { store = store }) refl refl refl k
                (administer-IsGoverned c signers call s.store k.governed e₁))))

  -- From deployment on, through any sequence of calls in which one that traps is undone, every
  -- invoice's payments are numbered from one without a gap, each was positive and is the sum of its
  -- interest and its principal, which are not negative; the penalty's rate is at most 500 and its cap
  -- at most 10_000 basis points; and the signer set is well-formed.
  pub run-IsKept_from_constructor :
      (wasm : Hash) (admin registry_addr financing_addr token_addr : Address) (version : Text)
      (calls : List (Invocation × RepaymentCall)) (w : W) {s : Repayment}
      → Settings.constructor wasm admin registry_addr financing_addr token_addr version ≡ ok s
      → IsKept (run_all (perform token registry financing insurance reputation) calls (s, w)).0
  run-IsKept_from_constructor wasm admin ra fa ta version calls w {s} h =
      run_all-invariant (perform token registry financing insurance reputation) (λ x. IsKept x.0)
        perform-IsKept calls (s, w) (constructed wasm admin ra fa ta version h)
