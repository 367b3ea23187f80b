-- ===== src/Repayment/Tests.antt =====
-- A concrete loan, and the theorems on it.
use invofi_contracts.Prelude.{
  ℕ, suc, ◌+◌, ◌≤◌, ◌≡◌, refl, ◌⊎◌, ◌↔◌, Bool, true, false, some, [], ◌∷◌, ◌++◌, if◌then◌else◌,
  arith,
}
use invofi_contracts.Prelude.Lists.{length}
use invofi_contracts.Prelude.Int.{ℤ, pos, ◌+ℤ◌, ◌-ℤ◌, ◌*ℤ◌, quot, min_ℤ, max_ℤ, ◌≤ℤ◌, ◌<ℤ◌}
use invofi_contracts.Prelude.Maps.{ℕ_key, set}
use invofi_contracts.Host.Outcome.{Symbol, ok, Invocation}
use invofi_contracts.Host.Machine.{
  add_i128, sub_i128, mul_i128, saturate_i128, saturating_mul_i128, sub_unsigned, add_u32,
}
use invofi_contracts.Common.Types.{Invoice, InvoiceStatus, FinancingOffer, OfferStatus}
use invofi_contracts.Common.Storage.{
  empty_storage, assert_not_paused, contract_is_paused, resolve_token, get_currency_token,
}
use invofi_contracts.Common.Clients.{RegistryClient, FinancingClient, ReputationClient}
use invofi_contracts.Repayment.State.{
  Repayment, load_payments, save_payments, load_penalty_config, secs_per_day,
}
use invofi_contracts.Repayment.Interest.{
  accrued_penalty, pro_rata_interest, principal_loop, total_principal_repaid, frozen_base,
  days_since_funded, remaining_principal, penalty_due,
}
use invofi_contracts.Repayment.Repay.{
  collect, record_payment, update_offer, reward, publish_payment, Reading, read_invoice, read_offer,
  read_repayment, take_payment, close_payment, repay_invoice,
}
use invofi_contracts.Repayment.Owed.{
  assert_financed, assert_running, Obligation, obligation, assert_payable, Split, split_payment,
}
use invofi_contracts.Repayment.Formulas.{
  days_overdue, penalty_formula, accrued_penalty_exact, accrued_penalty_bounds,
}
use invofi_contracts.Repayment.Guards.{repay_invoice_guarded}
use invofi_contracts.Repayment.Loans.{IsRead}
use invofi_contracts.Repayment.Cleared.{IsFeePaid}
use invofi_contracts.Repayment.Payoff.{repay_invoice_lem, repay_invoice_payoff}
use invofi_contracts.Repayment.Cleared.{payment_of}
use invofi_contracts.Repayment.Accrual.{repay_invoice-interest_only}
use invofi_contracts.Insurance.Tests.{counting_token}

abbrev pub loan_invoice : InvoiceStatus → Invoice
loan_invoice status = record {
  id = 70;
  originator = 80;
  amount = pos 2000000;
  currency = 5;
  due_date = 40000000;
  status = status;
}

-- A registry in which every invoice has the status, for what is reported.
abbrev pub loan_registry : InvoiceStatus → RegistryClient ℕ
loan_registry status = record {
  get_invoice = λ registry id w. ok (loan_invoice status);
  mark_invoice_overdue = λ registry id w. ok (loan_invoice InvoiceStatus.overdue, w);
  financing_marks_invoice_financed = λ registry id w. ok (loan_invoice InvoiceStatus.financed, w);
  repayment_marks_invoice_repaid = λ registry id fully w. ok (loan_invoice InvoiceStatus.repaid, w);
  repayment_marks_defaulted = λ registry id w. ok (loan_invoice InvoiceStatus.defaulted, w);
  is_blacklisted = λ registry who w. ok false;
  get_fee_recipient = λ registry w. ok 90;
}

-- One million lent at ten percent a year, at time 1.
abbrev pub loan_offer : FinancingOffer
loan_offer = record {
  id = 30;
  invoice_id = 70;
  lender = 4;
  amount = pos 1000000;
  currency = 5;
  interest_rate = 1000;
  duration = 86400;
  expires_at = 0;
  status = OfferStatus.accepted;
  funded_at = 1;
  amount_repaid = pos 0;
}

-- A fee of one percent; the state counts the updates.
abbrev pub loan_financing : FinancingClient ℕ
loan_financing = record {
  get_offer = λ financing id w. ok loan_offer;
  update_offer_status = λ financing id status w. ok (suc w);
  update_offer_amount_repaid = λ financing id amt w. ok (suc w);
  update_lender_stats_repaid = λ financing who fully w. ok (suc w);
  update_stats_repaid = λ financing amt fee w. ok (suc w);
  get_fee_bps = λ financing w. ok 100;
  get_installment_due = λ financing id w. ok 0;
}

abbrev pub loan_reputation : ReputationClient ℕ
loan_reputation = record { record_outcome = λ addr who outcome w. ok (suc w) }

-- A year after the funding.
abbrev pub loan_call : Invocation
loan_call = record { self = 99; now = 31536001; auth = λ who. true }

abbrev pub loans : Repayment
loans = record {
  store = record (empty_storage 7) { token = some 50 };
  registry = some 61;
  financing = some 62;
  insadd = some 63;
  repadd = some 64;
  penbps = 10;
  pencap = 2000;
  pays = [];
}

abbrev owed_now : Obligation
owed_now = record {
  remaining = pos 1000000;
  interest = pos 100000;
  penalty = pos 0;
  total = pos 1100000;
}

owed_now-computed :
    obligation loan_call 70 (loan_invoice InvoiceStatus.financed) loan_offer loans ≡ ok owed_now
unfolding obligation load_payments remaining_principal total_principal_repaid principal_loop
    days_since_funded pro_rata_interest penalty_due frozen_base accrued_penalty load_penalty_config
    saturating_mul_i128 saturate_i128 add_i128 sub_i128 mul_i128 sub_unsigned ◌+ℤ◌ ◌-ℤ◌ ◌*ℤ◌ quot
    max_ℤ min_ℤ
owed_now-computed = refl

abbrev paid_down : Split → ℤ → Bool → ℤ → Repayment
unfolding publish_payment
paid_down parts amt fully left = record loans {
  pays = (70, payment_of loan_call 80 amt parts 1 ∷ []) ∷ [];
  store = publish_payment 70 30 fully amt parts left loans.store;
}

abbrev half : Split
half = record { interest = pos 100000; principal = pos 500000; fee = pos 6000; lender = pos 594000 }

repay_half :
    repay_invoice counting_token
      (loan_registry InvoiceStatus.financed)
      loan_financing
      loan_reputation
      loan_call
      70
      30
      80
      (pos 600000)
      loans
      0
    ≡ ok (loan_invoice InvoiceStatus.repaid, paid_down half (pos 600000) false (pos 500000), 6)
unfolding repay_invoice read_repayment read_invoice read_offer assert_financed assert_running
    assert_payable take_payment split_payment collect record_payment close_payment update_offer
    reward publish_payment save_payments set resolve_token get_currency_token assert_not_paused
    obligation load_payments remaining_principal total_principal_repaid principal_loop
    days_since_funded pro_rata_interest penalty_due frozen_base accrued_penalty load_penalty_config
    saturating_mul_i128 saturate_i128 add_i128 sub_i128 mul_i128 sub_unsigned add_u32 ◌+ℤ◌ ◌-ℤ◌ ◌*ℤ◌
    quot max_ℤ min_ℤ
repay_half = refl

abbrev financed_registry : RegistryClient ℕ
financed_registry = loan_registry InvoiceStatus.financed

repay_invoice_guarded_example :
    (contract_is_paused loans.store ≡ false)
    × (true ≡ true)
    × ((loan : Reading) × (loans.registry ≡ some loan.registry_addr)
        × (financed_registry.get_invoice loan.registry_addr 70 0 ≡ ok loan.invoice)
        × (loan.invoice.originator ≡ 80)
        × (loan.invoice.status ≡ InvoiceStatus.financed)
        × (loans.financing ≡ some loan.financing_addr)
        × (loan_financing.get_offer loan.financing_addr 30 0 ≡ ok loan.offer)
        × (loan.offer.invoice_id ≡ 70)
        × ((loan.offer.status ≡ OfferStatus.accepted) ⊎ (loan.offer.status ≡ OfferStatus.financed))
        × (obligation loan_call 70 loan.invoice loan.offer loans ≡ ok loan.owed)
        × (pos 0 <ℤ loan.owed.remaining)
        × (loan.owed.total ≡ loan.owed.remaining +ℤ loan.owed.interest +ℤ loan.owed.penalty)
        × (pos 0 <ℤ pos 600000)
        × (pos 600000 ≤ℤ loan.owed.total)
        × ((quot (loan.offer.amount *ℤ pos 100) (pos 10000) ≤ℤ pos 600000)
            ⊎ (loan.owed.total ≤ℤ pos 600000)))
repay_invoice_guarded_example =
    repay_invoice_guarded counting_token financed_registry loan_financing loan_reputation loan_call
      70 30 80 (pos 600000) loans 0 repay_half

repay_invoice_lem_example :
    (loan : Reading) × (fee_bps : ℕ) × (parts : Split) × (w₁ w₂ : ℕ) × IsRead financed_registry
      loan_financing loan_call 70 30 loans 0 loan
    × (pos 0 <ℤ pos 600000)
    × (loan_financing.get_fee_bps loan.financing_addr 0 ≡ ok fee_bps)
    × (parts.interest ≡ min_ℤ (pos 600000) loan.owed.interest)
    × (pos 0 ≤ℤ parts.interest)
    × (pos 0 ≤ℤ parts.principal)
    × (parts.interest +ℤ parts.principal ≡ pos 600000)
    × (parts.fee ≡ quot (pos 600000 *ℤ pos fee_bps) (pos 10000))
    × (parts.fee +ℤ parts.lender ≡ pos 600000)
    × (counting_token.transfer loan.token_addr 80 loan.offer.lender parts.lender 0 ≡ ok w₁)
    × IsFeePaid counting_token financed_registry loan.token_addr loan.registry_addr 80 parts.fee w₁
        w₂
    × (load_payments 70 (paid_down half (pos 600000) false (pos 500000))
        ≡ load_payments 70 loans
          ++ payment_of loan_call 80 (pos 600000) parts (length (load_payments 70 loans) + 1) ∷ [])
    × ((j : Symbol)
        → (j ≡ 70)
          ⊎ (load_payments j (paid_down half (pos 600000) false (pos 500000))
              ≡ load_payments j loans))
repay_invoice_lem_example =
    repay_invoice_lem counting_token financed_registry loan_financing loan_reputation loan_call 70
      30 80 (pos 600000) loans 0 repay_half

repay_invoice_payoff_example :
    (loan : Reading) × (fully_repaid : Bool) × (w₁ w₂ w₃ w₄ : ℕ) × (marked : Invoice) × IsRead
      financed_registry loan_financing loan_call 70 30 loans 0 loan
    × ((fully_repaid ≡ true) ↔ (loan.owed.remaining +ℤ loan.owed.interest ≤ℤ pos 600000))
    × (loan_financing.update_offer_status loan.financing_addr 30
          (if fully_repaid then OfferStatus.repaid else OfferStatus.financed)
          w₁
        ≡ ok w₂)
    × (financed_registry.repayment_marks_invoice_repaid loan.registry_addr 70 fully_repaid w₃
        ≡ ok (marked, w₄))
repay_invoice_payoff_example =
    repay_invoice_payoff counting_token financed_registry loan_financing loan_reputation loan_call
      70 30 80 (pos 600000) loans 0 repay_half

-- A payment of 50_000 when 100_000 of interest has accrued.
abbrev part_interest : Split
part_interest = record {
  interest = pos 50000;
  principal = pos 0;
  fee = pos 500;
  lender = pos 49500;
}

repay_interest :
    repay_invoice counting_token financed_registry loan_financing loan_reputation loan_call 70 30 80
      (pos 50000)
      loans
      0
    ≡ ok (
      loan_invoice InvoiceStatus.repaid,
      paid_down part_interest (pos 50000) false (pos 1000000),
      6,
    )
unfolding repay_invoice read_repayment read_invoice read_offer assert_financed assert_running
    assert_payable take_payment split_payment collect record_payment close_payment update_offer
    reward publish_payment save_payments set resolve_token get_currency_token assert_not_paused
    obligation load_payments remaining_principal total_principal_repaid principal_loop
    days_since_funded pro_rata_interest penalty_due frozen_base accrued_penalty load_penalty_config
    saturating_mul_i128 saturate_i128 add_i128 sub_i128 mul_i128 sub_unsigned add_u32 ◌+ℤ◌ ◌-ℤ◌ ◌*ℤ◌
    quot max_ℤ min_ℤ
repay_interest = refl

repay_invoice-interest_only_example :
    obligation loan_call 70
      (loan_invoice InvoiceStatus.financed)
      loan_offer
      (paid_down part_interest (pos 50000) false (pos 1000000))
    ≡ ok owed_now
repay_invoice-interest_only_example =
    repay_invoice-interest_only counting_token financed_registry loan_financing loan_reputation
      loan_call 70 30 80 (pos 50000) loans 0 (loan_invoice InvoiceStatus.financed) loan_offer 61 62
      refl refl refl refl owed_now-computed (omega arith) repay_interest

accrued_penalty_exact_example :
    accrued_penalty loan_call (pos 1100000) 30000000 10 2000
    ≡ pos (penalty_formula 1100000 10 2000 (days_overdue 31536001 30000000))
accrued_penalty_exact_example =
    accrued_penalty_exact loan_call 1100000 30000000 10 2000 (omega arith) (omega arith)

accrued_penalty_bounds_example :
    (pos 0 ≤ℤ accrued_penalty loan_call (pos 1100000) 30000000 10 2000)
    × (accrued_penalty loan_call (pos 1100000) 30000000 10 2000 ≤ℤ max_ℤ (pos 1100000) (pos 0))
    × ((30000000 + secs_per_day ≤ 31536001)
        ⊎ (accrued_penalty loan_call (pos 1100000) 30000000 10 2000 ≡ pos 0))
accrued_penalty_bounds_example =
    accrued_penalty_bounds loan_call (pos 1100000) 30000000 10 2000 (omega arith)
