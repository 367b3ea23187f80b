-- ===== src/Financing/Installments.antt =====
-- What `get_installment_due` of financing/src/lib.rs reports.
use invofi_contracts.Prelude.{ℕ, ◌+◌, ◌*◌, ◌≤◌, ◌<◌, ◌≡◌, ◌⊎◌, false}
use invofi_contracts.Prelude.Int.{pos, ◌≤ℤ◌, ◌<ℤ◌, ◌*ℤ◌}
use invofi_contracts.Prelude.Maps.{ℕ_key}
use invofi_contracts.Host.Outcome.{Invocation}
use invofi_contracts.Common.Types.{FinancingOffer, OfferStatus}
use invofi_contracts.Common.Domain.{RepaymentSchedule, period_secs}
use invofi_contracts.Common.Statuses.{is_offer_status}
use invofi_contracts.Financing.State.{Financing}

-- The installment has come due, and the principal repaid covers all installments before it but not it.
pub record IsDue (c : Invocation) (offer : FinancingOffer) (schedule : RepaymentSchedule) (n : ℕ)
    : Type 0 where
  pub earlier : ℕ
  pub number : n ≡ earlier + 1
  pub covered : schedule.installment_amount *ℤ pos earlier ≤ℤ offer.amount_repaid
  pub uncovered : offer.amount_repaid <ℤ schedule.installment_amount *ℤ pos (earlier + 1)
  pub within : n ≤ schedule.count
  pub due : schedule.first_due + earlier * period_secs schedule.frequency ≤ c.now

-- The principal repaid covers every installment that has come due, together with those before it.
abbrev pub IsPaidUp : Invocation → FinancingOffer → RepaymentSchedule → Type 0
IsPaidUp c offer schedule =
    (k : ℕ)
    → k < schedule.count
    → schedule.first_due + k * period_secs schedule.frequency ≤ c.now
    → schedule.installment_amount *ℤ pos (k + 1) ≤ℤ offer.amount_repaid

-- The offer's loan is over.
abbrev pub IsOver : FinancingOffer → Type 0
IsOver offer = (offer.status ≡ OfferStatus.repaid) ⊎ (offer.status ≡ OfferStatus.defaulted)

-- What is reported, and why.
abbrev pub IsReported : Invocation → FinancingOffer → RepaymentSchedule → ℕ → Type 0
IsReported c offer schedule n =
    ((n ≡ 0) × (IsOver offer ⊎ IsPaidUp c offer schedule))
    ⊎ ((is_offer_status offer.status OfferStatus.repaid ≡ false)
        × (is_offer_status offer.status OfferStatus.defaulted ≡ false)
        × IsDue c offer schedule n)
