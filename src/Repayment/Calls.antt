-- ===== src/Repayment/Calls.antt =====
-- The entry points of repayment/src/lib.rs that change state as one dispatcher.
use invofi_contracts.Prelude.{ℕ, List}
use invofi_contracts.Prelude.Int.{ℤ}
use invofi_contracts.Host.Outcome.{Address, Symbol, Result, ok, ◌>>=◌, Invocation}
use invofi_contracts.Common.Clients.{
  Token, RegistryClient, FinancingClient, InsuranceClient, ReputationClient,
}
use invofi_contracts.Common.Contract.Calls.{AdminCall}
use invofi_contracts.Repayment.State.{Repayment}
use invofi_contracts.Repayment.Repay as Repay
use invofi_contracts.Repayment.Reclaim as Reclaim
use invofi_contracts.Repayment.Settings as Settings

pub data RepaymentCall : Type 0 where
  repay_invoice : Symbol → Symbol → Address → ℤ → RepaymentCall
  mark_overdue : Symbol → RepaymentCall
  reclaim_invoice : Symbol → Symbol → Address → RepaymentCall
  set_insurance set_reputation : List Address → Address → RepaymentCall
  set_penalty : List Address → ℕ → ℕ → RepaymentCall
  administer : List Address → AdminCall → RepaymentCall

module _ {W : Type 0} (token : Token W) (registry : RegistryClient W)
    (financing : FinancingClient W) (insurance : InsuranceClient W)
    (reputation : ReputationClient W) where
  unfoldable pub perform : Invocation × RepaymentCall → Repayment × W → Result (Repayment × W)
  perform (c, RepaymentCall.repay_invoice invoice_id offer_id repayer amt) (s, w) =
      Repay.repay_invoice token registry financing reputation c invoice_id offer_id repayer amt s w
      >>= λ x. ok (x.1, x.2)
  perform (c, RepaymentCall.mark_overdue invoice_id) (s, w) =
      Reclaim.mark_overdue registry invoice_id s w >>= λ x. ok (s, x.1)
  perform (c, RepaymentCall.reclaim_invoice invoice_id offer_id lender) (s, w) =
      Reclaim.reclaim_invoice registry financing insurance reputation c invoice_id offer_id lender s
        w
      >>= λ x. ok (x.1, x.2)
  perform (c, RepaymentCall.set_insurance signers addr) (s, w) =
      Settings.set_insurance c signers addr s >>= λ x. ok (x, w)
  perform (c, RepaymentCall.set_reputation signers addr) (s, w) =
      Settings.set_reputation c signers addr s >>= λ x. ok (x, w)
  perform (c, RepaymentCall.set_penalty signers penalty_bps cap_bps) (s, w) =
      Settings.set_penalty c signers penalty_bps cap_bps s >>= λ x. ok (x, w)
  perform (c, RepaymentCall.administer signers call) (s, w) =
      Settings.administer_repayment c signers call s >>= λ x. ok (x, w)
