-- ===== src/Protocol/Tests.antt =====
-- A default of a concrete loan that the pool insures.
use invofi_contracts.Prelude.{ℕ, zero, suc, ◌≡◌, refl, true, false, [], ◌∷◌}
use invofi_contracts.Prelude.Int.{ℤ, pos, ◌+ℤ◌, ◌-ℤ◌, ◌*ℤ◌, quot, min_ℤ, max_ℤ}
use invofi_contracts.Prelude.Maps.{ℕ_key, set, remove}
use invofi_contracts.Host.Outcome.{ok, Invocation}
use invofi_contracts.Host.Machine.{
  add_i128, sub_i128, mul_i128, div_i128, saturate_i128, saturating_mul_i128, add_u64,
}
use invofi_contracts.Host.Events.{word, symbol, address, amount}
use invofi_contracts.Common.Types.{Invoice, InvoiceStatus, OfferStatus}
use invofi_contracts.Common.Storage.{assert_not_paused, publish}
use invofi_contracts.Common.Clients.{RegistryClient}
use invofi_contracts.Repayment.State.{Repayment, load_penalty_config}
use invofi_contracts.Repayment.Interest.{accrued_penalty, frozen_base}
use invofi_contracts.Repayment.Reclaim.{
  assert_reclaimable, assert_lent, remaining_due, insure, blame, Default, read_default,
  reclaim_invoice,
}
use invofi_contracts.Repayment.Tests.{
  loan_invoice, loan_offer, loan_financing, loan_reputation, loans,
}
use invofi_contracts.Insurance.State.{Insurance, load_token}
use invofi_contracts.Insurance.FlatBalance.{IsBalanced}
use invofi_contracts.Insurance.Payout.{
  assert_payout_caller, assert_defaulted, pay_from_pool, pay_out,
}
use invofi_contracts.Insurance.Reduction.{reduction_for, reduce_from, reduce_stakes}
use invofi_contracts.Insurance.Tests.{counting_token, pool, pool-IsBalanced}
use invofi_contracts.Protocol.Links.{
  nested, lift_registry, lift_financing, lift_reputation, insurance_client,
}
use invofi_contracts.Repayment.Defaults.{IsDefault}
use invofi_contracts.Insurance.Transfers.{IsPaid}
use invofi_contracts.Protocol.Defaulting.{reclaim_invoice_insured}

-- A registry that reports the invoice as overdue until it is told of the default.
abbrev overdue_registry : RegistryClient ℕ
overdue_registry = record {
  get_invoice = λ registry id w.
      ok (loan_invoice (elim w [ zero ↦ InvoiceStatus.overdue | suc _ ↦ InvoiceStatus.defaulted ]));
  mark_invoice_overdue = λ registry id w. ok (loan_invoice InvoiceStatus.overdue, w);
  financing_marks_invoice_financed = λ registry id w. ok (loan_invoice InvoiceStatus.financed, w);
  repayment_marks_invoice_repaid = λ registry id fully w. ok (loan_invoice InvoiceStatus.repaid, w);
  repayment_marks_defaulted = λ registry id w. ok (loan_invoice InvoiceStatus.defaulted, suc w);
  is_blacklisted = λ registry who w. ok false;
  get_fee_recipient = λ registry w. ok 90;
}

abbrev late_call : Invocation
late_call = record { self = 60; now = 50000000; auth = λ who. true }

abbrev paid_pool : Insurance
paid_pool = record pool {
  stakes = (1, pos 2340000) ∷ (2, pos 1560000) ∷ [];
  pooltot = pos 3900000;
  store = publish (word "pool_pay" ∷ address 4 ∷ []) (amount (pos 1100000) ∷ []) pool.store;
}

abbrev after_default : Repayment
after_default = record loans {
  store =
      publish (word "off_def" ∷ symbol 30 ∷ [])
        (symbol 70 ∷ address 4 ∷ amount (pos 1100000) ∷ amount (pos 126500) ∷ []) loans.store;
}

reclaim_insured :
    reclaim_invoice
      (lift_registry overdue_registry)
      (lift_financing loan_financing)
      (insurance_client counting_token overdue_registry late_call)
      (lift_reputation loan_reputation)
      late_call
      70
      30
      4
      loans
      (pool, 0)
    ≡ ok (record loan_offer { status = OfferStatus.defaulted }, after_default, (paid_pool, 4))
unfolding reclaim_invoice read_default assert_reclaimable assert_lent remaining_due insure blame
    frozen_base accrued_penalty load_penalty_config insurance_client nested pay_out
    assert_payout_caller assert_defaulted pay_from_pool reduce_stakes reduce_from reduction_for
    load_token assert_not_paused saturating_mul_i128 saturate_i128 add_u64 add_i128 sub_i128
    mul_i128 div_i128 ◌+ℤ◌ ◌-ℤ◌ ◌*ℤ◌ quot max_ℤ min_ℤ set remove
reclaim_insured = refl

reclaim_invoice_insured_example :
    (loan : Default) × (total payout : ℤ) × (marked : Invoice) × (u₁ u₂ u₃ : ℕ) × IsDefault
      overdue_registry loan_financing late_call 70 30 4 loans 0 loan
    × (total
        ≡ loan.offer.amount +ℤ quot (loan.offer.amount *ℤ pos loan.offer.interest_rate) (pos 10000))
    × (payout
        ≡ max_ℤ (min_ℤ (max_ℤ (total -ℤ loan.offer.amount_repaid) (pos 0)) pool.pooltot) (pos 0))
    × (paid_pool.pooltot ≡ pool.pooltot -ℤ payout)
    × IsBalanced paid_pool
    × (loan_financing.update_offer_status loan.financing_addr 30 OfferStatus.defaulted 0 ≡ ok u₁)
    × (overdue_registry.repayment_marks_defaulted loan.registry_addr 70 u₁ ≡ ok (marked, u₂))
    × IsPaid counting_token (nested late_call 63) 4 pool u₂ payout u₃
    × (blame loan_reputation loan.invoice.originator loans u₃ ≡ ok 4)
reclaim_invoice_insured_example =
    reclaim_invoice_insured counting_token overdue_registry loan_financing loan_reputation late_call
      70 30 4 63 loans pool 0 refl pool-IsBalanced reclaim_insured
