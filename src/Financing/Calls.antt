-- ===== src/Financing/Calls.antt =====
-- The entry points of financing/src/lib.rs that change state as one dispatcher.
use invofi_contracts.Prelude.{ℕ, Bool, List}
use invofi_contracts.Prelude.Int.{ℤ}
use invofi_contracts.Host.Outcome.{Address, Symbol, Result, ok, ◌>>=◌, Invocation}
use invofi_contracts.Common.Types.{OfferStatus}
use invofi_contracts.Common.Domain.{ScheduleFrequency}
use invofi_contracts.Common.Clients.{Token, RegistryClient}
use invofi_contracts.Common.Contract.Calls.{AdminCall}
use invofi_contracts.Financing.State.{Financing}
use invofi_contracts.Financing.Negotiation.{Terms}
use invofi_contracts.Financing.Offers as Offers
use invofi_contracts.Financing.Acceptance as Acceptance
use invofi_contracts.Financing.Rounds as Rounds
use invofi_contracts.Financing.Callbacks as Callbacks
use invofi_contracts.Financing.Schedules as Schedules
use invofi_contracts.Financing.Settings as Settings

pub data FinancingCall : Type 0 where
  create_offer : Symbol → Symbol → Address → ℤ → Symbol → ℕ → ℕ → ℕ → FinancingCall
  withdraw_offer accept_offer reject_offer close_negotiation : Symbol → Address → FinancingCall
  amend_offer counter_offer : Symbol → Address → ℕ → Terms → FinancingCall
  update_offer_status : Symbol → OfferStatus → FinancingCall
  update_offer_amount_repaid : Symbol → ℤ → FinancingCall
  update_lender_stats_repaid : Address → Bool → FinancingCall
  update_stats_repaid : ℤ → ℤ → FinancingCall
  schedule_repayment : Symbol → Address → ScheduleFrequency → ℕ → ℕ → FinancingCall
  set_repayment_contract set_position_token : List Address → Address → FinancingCall
  register_currency : List Address → Symbol → Address → FinancingCall
  set_negotiation_window : List Address → ℕ → FinancingCall
  administer : List Address → AdminCall → FinancingCall

module _ {W : Type 0} where
  -- An entry point that calls no other contract leaves `w` alone.
  abbrev pub alone : W → Result Financing → Result (Financing × W)
  alone w r = r >>= λ s. ok (s, w)

  -- The value that an entry point returns is not part of the state.
  abbrev pub valued {ℓ} : {A : Type ℓ} → W → Result (A × Financing) → Result (Financing × W)
  valued w r = r >>= λ x. ok (x.1, w)

  abbrev pub settled {ℓ} : {A : Type ℓ} → Result (A × Financing × W) → Result (Financing × W)
  settled r = r >>= λ x. ok (x.1, x.2)

module _ {W : Type 0} (token : Token W) (registry : RegistryClient W) where
  unfoldable pub perform : Invocation × FinancingCall → Financing × W → Result (Financing × W)
  perform (c, FinancingCall.create_offer id invoice_id who amt currency rate duration expires)
        (s, w) =
      valued w
        (Offers.create_offer registry c id invoice_id who amt currency rate duration expires s w)
  perform (c, FinancingCall.withdraw_offer id who) (s, w) =
      valued w (Offers.withdraw_offer c id who s)
  perform (c, FinancingCall.accept_offer id who) (s, w) =
      settled (Acceptance.accept_offer token registry c id who s w)
  perform (c, FinancingCall.reject_offer id who) (s, w) =
      valued w (Acceptance.reject_offer registry c id who s w)
  perform (c, FinancingCall.close_negotiation id who) (s, w) =
      valued w (Rounds.close_negotiation registry c id who s w)
  perform (c, FinancingCall.amend_offer id who round terms) (s, w) =
      settled (Rounds.amend_offer token registry c id who round terms s w)
  perform (c, FinancingCall.counter_offer id who round terms) (s, w) =
      settled (Rounds.counter_offer token registry c id who round terms s w)
  perform (c, FinancingCall.update_offer_status id status) (s, w) =
      alone w (Callbacks.update_offer_status c id status s)
  perform (c, FinancingCall.update_offer_amount_repaid id amt) (s, w) =
      alone w (Callbacks.update_offer_amount_repaid c id amt s)
  perform (c, FinancingCall.update_lender_stats_repaid who fully) (s, w) =
      alone w (Callbacks.update_lender_stats_repaid c who fully s)
  perform (c, FinancingCall.update_stats_repaid amt fee) (s, w) =
      alone w (Callbacks.update_stats_repaid c amt fee s)
  perform (c, FinancingCall.schedule_repayment id who frequency count first_due) (s, w) =
      valued w (Schedules.schedule_repayment registry c id who frequency count first_due s w)
  perform (c, FinancingCall.set_repayment_contract signers addr) (s, w) =
      alone w (Settings.set_repayment_contract c signers addr s)
  perform (c, FinancingCall.set_position_token signers addr) (s, w) =
      alone w (Settings.set_position_token c signers addr s)
  perform (c, FinancingCall.register_currency signers currency addr) (s, w) =
      alone w (Settings.register_currency c signers currency addr s)
  perform (c, FinancingCall.set_negotiation_window signers window) (s, w) =
      alone w (Settings.set_negotiation_window c signers window s)
  perform (c, FinancingCall.administer signers call) (s, w) =
      alone w (Settings.administer_financing c signers call s)
