-- ===== src/Financing/History.antt =====
-- The histories of the contract of financing/src/lib.rs.
use invofi_contracts.Prelude.{◌≡◌, List}
use invofi_contracts.Prelude.Maps.{ℕ_key}
use invofi_contracts.Host.Outcome.{Address, Hash, ok, Invocation}
use invofi_contracts.Host.Transactions.{run_all, run_all-invariant}
use invofi_contracts.Common.Types.{Text}
use invofi_contracts.Common.Clients.{Token, RegistryClient}
use invofi_contracts.Financing.State.{Financing}
use invofi_contracts.Financing.Settings as Settings
use invofi_contracts.Financing.Calls.{FinancingCall, perform}
use invofi_contracts.Financing.Books.{IsBooked}
use invofi_contracts.Financing.Steps.{withdraw-IsBooked}
use invofi_contracts.Financing.OfferSteps.{
  create-IsBooked, reject-IsBooked, close-IsBooked, schedule-IsBooked, status-IsBooked,
  amount_repaid-IsBooked, lender_stats-IsBooked, stats-IsBooked,
}
use invofi_contracts.Financing.SettlementSteps.{accept-IsBooked, amend-IsBooked, counter-IsBooked}
use invofi_contracts.Financing.SettingSteps.{
  alone-IsBooked, valued-IsBooked, settled-IsBooked, repayment-IsBooked, position-IsBooked,
  currency-IsBooked, window-IsBooked, administer-IsBooked, constructed,
}

module _ {W : Type 0} (token : Token W) (registry : RegistryClient W) where
  perform-IsBooked :
      (call : Invocation × FinancingCall) (x x' : Financing × W)
      → IsBooked x.0
      → perform token registry call x ≡ ok x'
      → IsBooked x'.0
  unfolding perform
  perform-IsBooked
        (c, FinancingCall.create_offer id invoice_id who amt currency rate duration expires) (s, w)
        x' b h =
      valued-IsBooked w _ x'
        (λ o s' e.
          create-IsBooked registry c id invoice_id who amt currency rate duration expires s w e b)
        h
  perform-IsBooked (c, FinancingCall.withdraw_offer id who) (s, w) x' b h =
      valued-IsBooked w _ x' (λ o s' e. withdraw-IsBooked c id who s e b) h
  perform-IsBooked (c, FinancingCall.accept_offer id who) (s, w) x' b h =
      settled-IsBooked _ x' (λ o s' w' e. accept-IsBooked token registry c id who s w e b) h
  perform-IsBooked (c, FinancingCall.reject_offer id who) (s, w) x' b h =
      valued-IsBooked w _ x' (λ o s' e. reject-IsBooked registry c id who s w e b) h
  perform-IsBooked (c, FinancingCall.close_negotiation id who) (s, w) x' b h =
      valued-IsBooked w _ x' (λ o s' e. close-IsBooked registry c id who s w e b) h
  perform-IsBooked (c, FinancingCall.amend_offer id who round terms) (s, w) x' b h =
      settled-IsBooked _ x'
        (λ o s' w' e. amend-IsBooked token registry c id who round terms s w e b) h
  perform-IsBooked (c, FinancingCall.counter_offer id who round terms) (s, w) x' b h =
      settled-IsBooked _ x'
        (λ o s' w' e. counter-IsBooked token registry c id who round terms s w e b) h
  perform-IsBooked (c, FinancingCall.update_offer_status id status) (s, w) x' b h =
      alone-IsBooked w _ x' (λ s' e. status-IsBooked c id status s e b) h
  perform-IsBooked (c, FinancingCall.update_offer_amount_repaid id amt) (s, w) x' b h =
      alone-IsBooked w _ x' (λ s' e. amount_repaid-IsBooked c id amt s e b) h
  perform-IsBooked (c, FinancingCall.update_lender_stats_repaid who fully) (s, w) x' b h =
      alone-IsBooked w _ x' (λ s' e. lender_stats-IsBooked c who fully s e b) h
  perform-IsBooked (c, FinancingCall.update_stats_repaid amt fee) (s, w) x' b h =
      alone-IsBooked w _ x' (λ s' e. stats-IsBooked c amt fee s e b) h
  perform-IsBooked (c, FinancingCall.schedule_repayment id who frequency count first_due) (s, w) x'
        b h =
      valued-IsBooked w _ x'
        (λ o s' e. schedule-IsBooked registry c id who frequency count first_due s w e b) h
  perform-IsBooked (c, FinancingCall.set_repayment_contract signers addr) (s, w) x' b h =
      alone-IsBooked w _ x' (λ s' e. repayment-IsBooked c signers addr s e b) h
  perform-IsBooked (c, FinancingCall.set_position_token signers addr) (s, w) x' b h =
      alone-IsBooked w _ x' (λ s' e. position-IsBooked c signers addr s e b) h
  perform-IsBooked (c, FinancingCall.register_currency signers currency addr) (s, w) x' b h =
      alone-IsBooked w _ x' (λ s' e. currency-IsBooked c signers currency addr s e b) h
  perform-IsBooked (c, FinancingCall.set_negotiation_window signers window) (s, w) x' b h =
      alone-IsBooked w _ x' (λ s' e. window-IsBooked c signers window s e b) h
  perform-IsBooked (c, FinancingCall.administer signers call) (s, w) x' b h =
      alone-IsBooked w _ x' (λ s' e. administer-IsBooked c signers call s e b) h

  -- From deployment on, through any sequence of calls in which one that traps is undone: each
  -- lender's total_offered is the sum of the amounts of the offers that the lender ever made, as they
  -- stand now, each lender's offers_pending is their number, whatever became of them, and
  -- total_offers is the number of all; no protocol fee is ever set; and the signer set is well-formed.
  pub run-IsBooked_from_constructor :
      (wasm : Hash) (admin registry_addr token_addr : Address) (version : Text)
      (calls : List (Invocation × FinancingCall)) (w : W) {s : Financing}
      → Settings.constructor wasm admin registry_addr token_addr version ≡ ok s
      → IsBooked (run_all (perform token registry) calls (s, w)).0
  run-IsBooked_from_constructor wasm admin ra ta version calls w {s} h =
      run_all-invariant (perform token registry) (λ x. IsBooked x.0) perform-IsBooked calls (s, w)
        (constructed wasm admin ra ta version h)
