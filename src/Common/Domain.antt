-- ===== src/Common/Domain.antt =====
-- The data of common/src/lib.rs that the registry, the financing and the repayment contracts keep,
-- and the protocol's limits.
use invofi_contracts.Prelude.{ℕ, List, [], ◌∷◌}
use invofi_contracts.Prelude.Int.{ℤ, pos}
use invofi_contracts.Host.Outcome.{Address, Symbol, Hash}
use invofi_contracts.Common.Types.{InvoiceStatus}

abbrev pub min_offer_duration_secs : ℕ
min_offer_duration_secs = 86400

abbrev pub max_offer_duration_secs : ℕ
max_offer_duration_secs = 31536000

abbrev pub max_interest_bps : ℕ
max_interest_bps = 10000

abbrev pub min_invoice_amount : ℤ
min_invoice_amount = pos 10000000

abbrev pub default_negotiation_window_secs : ℕ
default_negotiation_window_secs = 259200

abbrev pub min_negotiation_window_secs : ℕ
min_negotiation_window_secs = 3600

abbrev pub max_negotiation_window_secs : ℕ
max_negotiation_window_secs = 2592000

abbrev pub max_negotiation_rounds : ℕ
max_negotiation_rounds = 20

abbrev pub default_attestation_validity_secs : ℕ
default_attestation_validity_secs = 7776000

abbrev pub min_attestation_validity_secs : ℕ
min_attestation_validity_secs = 86400

abbrev pub max_attestation_validity_secs : ℕ
max_attestation_validity_secs = 31536000

abbrev pub max_verification_fee_bps : ℕ
max_verification_fee_bps = 500

abbrev pub max_verifiers : ℕ
max_verifiers = 20

abbrev pub max_attestations_per_invoice : ℕ
max_attestations_per_invoice = 60

pub data RiskTier : Type 0 where
  a b c : RiskTier

pub record InvoiceTokenMetadata : Type 0 where
  pub token_id : Hash
  pub invoice_id : Symbol
  pub originator : Address
  pub owner : Address
  pub amount : ℤ
  pub currency : Symbol
  pub due_date : ℕ
  pub status : InvoiceStatus

pub data AmendmentField : Type 0 where
  amount due_date : AmendmentField

pub data AmendmentStatus : Type 0 where
  pending approved rejected : AmendmentStatus

pub record AmendmentRecord : Type 0 where
  pub field : AmendmentField
  pub old_amount : ℤ
  pub new_amount : ℤ
  pub old_due_date : ℕ
  pub new_due_date : ℕ
  pub reason : Symbol
  pub timestamp : ℕ
  pub status : AmendmentStatus

pub record ProtocolStats : Type 0 where
  pub total_invoices : ℕ
  pub total_offers : ℕ
  pub total_financed : ℤ
  pub total_repaid : ℤ
  pub total_fee_revenue : ℤ

pub record LenderStats : Type 0 where
  pub total_offered : ℤ
  pub total_accepted : ℤ
  pub offers_pending : ℕ
  pub offers_repaid : ℕ

pub data ScheduleFrequency : Type 0 where
  daily weekly monthly : ScheduleFrequency

unfoldable pub period_secs : ScheduleFrequency → ℕ
period_secs ScheduleFrequency.daily = 86400
period_secs ScheduleFrequency.weekly = 604800
period_secs ScheduleFrequency.monthly = 2592000

pub record RepaymentSchedule : Type 0 where
  pub offer_id : Symbol
  pub count : ℕ
  pub frequency : ScheduleFrequency
  pub installment_amount : ℤ
  pub first_due : ℕ

pub data NegotiationParty : Type 0 where
  lender originator : NegotiationParty

pub record NegotiationRecord : Type 0 where
  pub party : NegotiationParty
  pub amount : ℤ
  pub interest_rate : ℕ
  pub duration : ℕ
  pub timestamp : ℕ

pub data NegotiationStatus : Type 0 where
  none opened expired closed accepted : NegotiationStatus

pub data VerificationType : Type 0 where
  document_hash business_registration tax_compliance : VerificationType

abbrev pub verification_types : List VerificationType
verification_types =
    VerificationType.document_hash ∷ VerificationType.business_registration
    ∷ VerificationType.tax_compliance ∷ []

pub data VerificationStatus : Type 0 where
  pending verified rejected expired : VerificationStatus

pub record Attestation : Type 0 where
  pub verifier : Address
  pub v_type : VerificationType
  pub hash : Hash
  pub timestamp : ℕ
  pub valid_until : ℕ
  pub status : VerificationStatus

pub record EventRecord : Type 0 where
  pub event_id : ℕ
  pub event_type : Symbol
  pub timestamp : ℕ
  pub actor : Address
  pub contract_id : Address
  pub data_key : Symbol
