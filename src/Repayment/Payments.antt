-- ===== src/Repayment/Payments.antt =====
-- The laws of `repay_invoice` of repayment/src/lib.rs.
use invofi_contracts.Prelude.{
  ℕ, ◌+◌, ◌-◌, ◌/◌, ◌≡◌, refl, subst, ap, ◌∙◌, [], ◌∷◌, ◌++◌, ◌==◌, if◌then◌else◌, List, arith,
}
use invofi_contracts.Prelude.Lists.{length}
use invofi_contracts.Prelude.Int.{ℤ, pos, ◌≤ℤ◌, ◌<ℤ◌, ◌+ℤ◌, ◌-ℤ◌, ◌*ℤ◌, quot, min_ℤ, ltb_ℤ}
use invofi_contracts.Prelude.Maps.{ℕ_key}
use invofi_contracts.Prelude.MapLaws.{get_or-set}
use invofi_contracts.Host.Outcome.{
  Address, Symbol, ok, Invocation, >>=-eq-ok, guard-then, ok-injective, contract,
  invalid_transition,
}
use invofi_contracts.Host.Machine.{add_i128}
use invofi_contracts.Host.MachineLaws.{
  add_i128-either, sub_i128-either, mul_i128-either, add_u32-either, sub_unsigned-either,
}
use invofi_contracts.Common.Types.{Invoice, FinancingOffer, PaymentRecord}
use invofi_contracts.Common.Storage.{Storage}
use invofi_contracts.Repayment.State.{Repayment, secs_per_day, load_payments, save_payments}
use invofi_contracts.Repayment.Interest.{
  pro_rata_interest, days_since_funded, remaining_principal, penalty_due,
}
use invofi_contracts.Repayment.Formulas.{pro_rata_interest_nonneg}
use invofi_contracts.Repayment.Repay.{record_payment}
use invofi_contracts.Repayment.Owed.{Obligation, obligation, Split, split_payment}

-- The two divisions of an amount.
pub split_payment_parts :
    (owed : Obligation) (amt : ℤ) (fee_bps : ℕ) {parts : Split}
    → split_payment owed amt fee_bps ≡ ok parts
    → (parts.interest ≡ min_ℤ amt owed.interest)
      × (parts.principal ≡ amt -ℤ parts.interest)
      × (parts.fee ≡ quot (amt *ℤ pos fee_bps) (pos 10000))
      × (parts.lender ≡ amt -ℤ parts.fee)
unfolding split_payment
split_payment_parts owed amt fee_bps {parts} h = ground (
  arith,
  sub_i128-either amt (min_ℤ amt owed.interest),
  mul_i128-either amt (pos fee_bps),
  sub_i128-either amt (quot (amt *ℤ pos fee_bps) (pos 10000)),
)

days_nonneg :
    (c : Invocation) (offer : FinancingOffer) {d : ℤ}
    → days_since_funded c offer ≡ ok d
    → (n : ℕ) × (d ≡ pos n)
unfolding days_since_funded
days_nonneg c offer {d} h = (
  (c.now - offer.funded_at) / secs_per_day,
  ground (arith, sub_unsigned-either c.now offer.funded_at),
)

-- What an obligation is made of.
pub obligation_parts :
    (c : Invocation) (invoice_id : Symbol) (invoice : Invoice) (offer : FinancingOffer)
    (s : Repayment) {owed : Obligation}
    → obligation c invoice_id invoice offer s ≡ ok owed
    → (remaining_principal offer (load_payments invoice_id s) ≡ ok owed.remaining)
      × (pos 0 <ℤ owed.remaining)
      × (pos 0 ≤ℤ owed.interest)
      × (penalty_due c offer invoice s ≡ ok owed.penalty)
      × (owed.total ≡ owed.remaining +ℤ owed.interest +ℤ owed.penalty)
unfolding obligation
obligation_parts c invoice_id invoice offer s {owed} h₀ =
    let (remaining, e, h₁) =
      >>=-eq-ok (remaining_principal offer (load_payments invoice_id s)) _ h₀ in
    let (positive, h₂) = guard-then (ltb_ℤ (pos 0) remaining) (contract invalid_transition) _ h₁ in
    let (days, f, h₃) = >>=-eq-ok (days_since_funded c offer) _ h₂ in
    let (n, whole) = days_nonneg c offer f in
    let (penalty, g, h₄) = >>=-eq-ok (penalty_due c offer invoice s) _ h₃ in
    let interest = pro_rata_interest remaining offer.interest_rate days in
    let (part, k, h₅) = >>=-eq-ok (add_i128 remaining interest) _ h₄ in
    let (total, l, h₆) = >>=-eq-ok (add_i128 part penalty) _ h₅ in
    let sum : part ≡ remaining +ℤ interest = ground (arith, add_i128-either remaining interest) in
    let sum' : total ≡ part +ℤ penalty = ground (arith, add_i128-either part penalty) in
    subst
      (λ o.
        (remaining_principal offer (load_payments invoice_id s) ≡ ok o.remaining)
        × (pos 0 <ℤ o.remaining)
        × (pos 0 ≤ℤ o.interest)
        × (penalty_due c offer invoice s ≡ ok o.penalty)
        × (o.total ≡ o.remaining +ℤ o.interest +ℤ o.penalty))
      (ok-injective _ _ h₆)
      (
        e,
        ground arith,
        rw whole (pro_rata_interest_nonneg remaining offer.interest_rate n),
        g,
        sum' ∙ ap (λ x. x +ℤ penalty) sum,
      )

pub record_payment_history :
    (c : Invocation) (invoice_id : Symbol) (repayer : Address) (amt : ℤ) (parts : Split)
    (s : Repayment) {s' : Repayment}
    → record_payment c invoice_id repayer amt parts s ≡ ok s'
    → let payment : PaymentRecord = record {
      payment_id = length (load_payments invoice_id s) + 1;
      amount = amt;
      interest_paid = parts.interest;
      principal_paid = parts.principal;
      timestamp = c.now;
      payer = repayer;
    } in
      s' ≡ save_payments invoice_id (load_payments invoice_id s ++ payment ∷ []) s
unfolding record_payment
record_payment_history c invoice_id repayer amt parts s h =
    ground (arith, add_u32-either (length (load_payments invoice_id s)) 1)

pub load_payments-saved :
    (i j : Symbol) (payments : List PaymentRecord) (s : Repayment)
    → load_payments j (save_payments i payments s)
      ≡ (if i == j then payments else load_payments j s)
unfolding load_payments save_payments
load_payments-saved i j payments s = get_or-set [] i j payments s.pays

-- The event log is apart from the histories.
pub load_payments-stored :
    (j : Symbol) (s : Repayment) (store : Storage)
    → load_payments j (record s { store = store }) ≡ load_payments j s
unfolding load_payments
load_payments-stored j s store = refl
