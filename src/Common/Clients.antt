-- ===== src/Common/Clients.antt =====
-- The cross-contract interfaces of common/src/lib.rs, and the SEP-41 token contract, which is not
-- part of the repository. `W` is the state of everything outside the calling contract. A call that
-- traps has no result; the address is that of the called contract.
use invofi_contracts.Prelude.{ℕ, Bool}
use invofi_contracts.Prelude.Int.{ℤ}
use invofi_contracts.Host.Outcome.{Address, Symbol, Result}
use invofi_contracts.Common.Types.{Invoice, FinancingOffer, OfferStatus}

-- `token::TokenClient` and `token::StellarAssetClient`: any behaviour at all.
pub record Token (W : Type 0) : Type 0 where
  pub transfer : Address → Address → Address → ℤ → W → Result W
  pub transfer_from : Address → Address → Address → Address → ℤ → W → Result W
  pub mint : Address → Address → ℤ → W → Result W
  pub balance : Address → Address → W → ℤ

pub record RegistryClient (W : Type 0) : Type 0 where
  pub get_invoice : Address → Symbol → W → Result Invoice
  pub mark_invoice_overdue : Address → Symbol → W → Result (Invoice × W)
  pub financing_marks_invoice_financed : Address → Symbol → W → Result (Invoice × W)
  pub repayment_marks_invoice_repaid : Address → Symbol → Bool → W → Result (Invoice × W)
  pub repayment_marks_defaulted : Address → Symbol → W → Result (Invoice × W)
  pub is_blacklisted : Address → Address → W → Result Bool
  pub get_fee_recipient : Address → W → Result Address

pub record FinancingClient (W : Type 0) : Type 0 where
  pub get_offer : Address → Symbol → W → Result FinancingOffer
  pub update_offer_status : Address → Symbol → OfferStatus → W → Result W
  pub update_offer_amount_repaid : Address → Symbol → ℤ → W → Result W
  pub update_lender_stats_repaid : Address → Address → Bool → W → Result W
  pub update_stats_repaid : Address → ℤ → ℤ → W → Result W
  pub get_fee_bps : Address → W → Result ℕ
  pub get_installment_due : Address → Symbol → W → Result ℕ

pub record InsuranceClient (W : Type 0) : Type 0 where
  pub pay_out : Address → Symbol → Address → ℤ → W → Result (ℤ × W)

pub record ReputationClient (W : Type 0) : Type 0 where
  pub record_outcome : Address → Address → ℕ → W → Result W
