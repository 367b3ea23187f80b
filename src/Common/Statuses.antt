-- ===== src/Common/Statuses.antt =====
-- Equality of the statuses of invoices and offers, which common/src/lib.rs derives.
use invofi_contracts.Prelude.{ℕ, ◌≡◌, Bool, true, ◌==◌, arith}
use invofi_contracts.Common.Types.{InvoiceStatus, OfferStatus}
use invofi_contracts.Common.Transition.{status_code}

-- The discriminants of `OfferStatus`.
abbrev pub offer_status_code : OfferStatus → ℕ
offer_status_code OfferStatus.pending = 0
offer_status_code OfferStatus.accepted = 1
offer_status_code OfferStatus.rejected = 2
offer_status_code OfferStatus.financed = 3
offer_status_code OfferStatus.repaid = 4
offer_status_code OfferStatus.defaulted = 5

abbrev pub is_invoice_status : InvoiceStatus → InvoiceStatus → Bool
is_invoice_status a b = status_code a == status_code b

abbrev pub is_offer_status : OfferStatus → OfferStatus → Bool
is_offer_status a b = offer_status_code a == offer_status_code b

-- The derived equality decides equality.
pub is_invoice_status→≡ : (a b : InvoiceStatus) → is_invoice_status a b ≡ true → a ≡ b
is_invoice_status→≡ a b h = ground arith

pub is_offer_status→≡ : (a b : OfferStatus) → is_offer_status a b ≡ true → a ≡ b
is_offer_status→≡ a b h = ground arith
