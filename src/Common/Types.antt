-- ===== src/Common/Types.antt =====
-- The shared data of common/src/lib.rs, and its constants.
use invofi_contracts.Prelude.{ℕ, List}
use invofi_contracts.Prelude.Int.{ℤ}
use invofi_contracts.Host.Outcome.{Address, Symbol, Hash}

abbrev pub max_admin_signers : ℕ
max_admin_signers = 20

-- 7 days
abbrev pub grace_period_secs : ℕ
grace_period_secs = 604800

pub data InvoiceStatus : Type 0 where
  pending financed repaid overdue cancelled disputed defaulted : InvoiceStatus

pub record Invoice : Type 0 where
  pub id : Symbol
  pub originator : Address
  pub amount : ℤ
  pub currency : Symbol
  pub due_date : ℕ
  pub status : InvoiceStatus

pub record TransitionRecord : Type 0 where
  pub from_status : InvoiceStatus
  pub to_status : InvoiceStatus
  pub actor : Address
  pub timestamp : ℕ

pub data OfferStatus : Type 0 where
  pending accepted rejected financed repaid defaulted : OfferStatus

pub record FinancingOffer : Type 0 where
  pub id : Symbol
  pub invoice_id : Symbol
  pub lender : Address
  pub amount : ℤ
  pub currency : Symbol
  pub interest_rate : ℕ
  pub duration : ℕ
  pub expires_at : ℕ
  pub status : OfferStatus
  pub funded_at : ℕ
  pub amount_repaid : ℤ

pub record PaymentRecord : Type 0 where
  pub payment_id : ℕ
  pub amount : ℤ
  pub interest_paid : ℤ
  pub principal_paid : ℤ
  pub timestamp : ℕ
  pub payer : Address

pub record AdminConfig : Type 0 where
  pub signers : List Address
  pub threshold : ℕ

pub record SemanticVersion : Type 0 where
  pub major : ℕ
  pub minor : ℕ
  pub patch : ℕ

-- A version is the text's bytes.
abbrev pub Text : Type 0
Text = List ℕ

pub record PendingUpgrade : Type 0 where
  pub version : Text
  pub wasm_hash : Hash
