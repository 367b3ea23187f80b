-- ===== src/Financing/Schedules.antt =====
-- Installment schedules of financing/src/lib.rs.
use invofi_contracts.Prelude.{
  ℕ, ◌-◌, ◌/◌, ◌%◌, not, ◌||◌, Option, none, some, ltb, leb, ◌==◌, if◌then◌else◌,
}
use invofi_contracts.Prelude.Int.{ℤ, pos, negsuc, ltb_ℤ, is_zero, quot}
use invofi_contracts.Prelude.Maps.{ℕ_key, get, set}
use invofi_contracts.Host.Outcome.{
  Address, Symbol, Result, ok, Done, ◌>>=◌, ◌>>◌, contract, unauthorized, invalid_transition,
  panicked, guard, Invocation, require_auth,
}
use invofi_contracts.Host.Machine.{add_i128, mul_i128, div_i128, add_u32, add_u64, u32_bound}
use invofi_contracts.Common.Types.{FinancingOffer, OfferStatus}
use invofi_contracts.Common.Domain.{ScheduleFrequency, RepaymentSchedule, period_secs}
use invofi_contracts.Common.Statuses.{is_offer_status}
use invofi_contracts.Common.Storage.{assert_not_paused}
use invofi_contracts.Common.Clients.{RegistryClient}
use invofi_contracts.Financing.State.{Financing, get_offer}
use invofi_contracts.Financing.Offers.{load_invoice}

-- The assertions on the arguments.
unfoldable pub assert_plan : Invocation → ℕ → ℕ → Done
assert_plan c count first_due = do
  guard (leb 1 count) panicked
  guard (leb count 1200) panicked
  guard (ltb c.now first_due) panicked

-- Neither rejected, nor repaid, nor in default.
unfoldable pub assert_live : FinancingOffer → Done
assert_live offer =
    guard
      (not (
        (is_offer_status offer.status OfferStatus.rejected
          || is_offer_status offer.status OfferStatus.repaid)
        || is_offer_status offer.status OfferStatus.defaulted))
      (contract invalid_transition)

-- An equal slice of the principal, and the flat yield on it.
unfoldable pub installment : FinancingOffer → ℕ → Result ℤ
installment offer count = do
  installment_principal ← div_i128 offer.amount (pos count)
  product ← mul_i128 installment_principal (pos offer.interest_rate)
  add_i128 installment_principal (quot product (pos 10000))

module _ {W : Type 0} (registry : RegistryClient W) where
  unfoldable pub schedule_repayment :
      Invocation
      → Symbol
      → Address
      → ScheduleFrequency
      → ℕ
      → ℕ
      → Financing
      → W
      → Result (RepaymentSchedule × Financing)
  unfolding assert_plan assert_live installment
  schedule_repayment c offer_id caller frequency count first_due s w = do
    assert_not_paused s.store
    require_auth c caller
    assert_plan c count first_due
    offer ← get_offer offer_id s
    assert_live offer
    invoice ← load_invoice registry offer.invoice_id s w
    guard (caller == offer.lender || caller == invoice.originator) (contract unauthorized)
    installment_amount ← installment offer count
    guard (ltb_ℤ (pos 0) installment_amount) panicked
    let schedule : RepaymentSchedule = record {
      offer_id = offer_id;
      count = count;
      frequency = frequency;
      installment_amount = installment_amount;
      first_due = first_due;
    }
    ok (schedule, record s { scheds = set offer_id schedule s.scheds })

unfoldable pub get_schedule : Symbol → Financing → Option RepaymentSchedule
get_schedule offer_id s = get offer_id s.scheds

-- `z as u32`: the low 32 bits.
abbrev pub as_u32 : ℤ → ℕ
as_u32 (pos n) = n % u32_bound
as_u32 (negsuc n) = u32_bound - 1 - n % u32_bound

-- How many installments have come due, the count at most.
unfoldable pub elapsed_installments : Invocation → RepaymentSchedule → Result ℕ
unfolding period_secs
elapsed_installments c schedule = do
  elapsed ← add_u64 ((c.now - schedule.first_due) / period_secs schedule.frequency) 1
  ok (if leb elapsed schedule.count then elapsed else schedule.count)

-- How many installments the principal repaid covers.
unfoldable pub paid_installments : FinancingOffer → RepaymentSchedule → Result ℕ
paid_installments offer schedule =
    if is_zero schedule.installment_amount then ok schedule.count else (do
      covered ← div_i128 offer.amount_repaid schedule.installment_amount
      ok (as_u32 covered))

-- The first installment that has come due and is not covered, or zero.
unfoldable pub first_unpaid : Invocation → FinancingOffer → RepaymentSchedule → Result ℕ
first_unpaid c offer schedule = do
  elapsed ← elapsed_installments c schedule
  paid_count ← paid_installments offer schedule
  if leb elapsed paid_count then ok 0 else add_u32 paid_count 1

unfoldable pub installment_due : Invocation → Option FinancingOffer → RepaymentSchedule → Result ℕ
installment_due c none schedule = ok 0
installment_due c (some offer) schedule =
    if is_offer_status offer.status OfferStatus.repaid
      || is_offer_status offer.status OfferStatus.defaulted
    then ok 0
    else if ltb c.now schedule.first_due
    then ok 0
    else first_unpaid c offer schedule

unfoldable pub get_installment_due : Invocation → Symbol → Financing → Result ℕ
get_installment_due c offer_id s = elim (get offer_id s.scheds) [
  | none ↦ ok 0
  | some schedule ↦ installment_due c (get offer_id s.offers) schedule
]
