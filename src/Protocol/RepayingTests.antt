-- ===== src/Protocol/RepayingTests.antt =====
-- A repayment of a concrete loan, with the financing contract behind it.
use invofi_contracts.Prelude.{
  ℕ, ◌≡◌, refl, inl, inr, false, some, [], ◌∷◌, Bool-cases, ◌==◌, if◌then◌else◌,
}
use invofi_contracts.Prelude.Int.{ℤ, pos, ◌+ℤ◌, ◌-ℤ◌, ◌*ℤ◌, quot, min_ℤ, max_ℤ, leb_ℤ}
use invofi_contracts.Prelude.Maps.{ℕ_key, get, set}
use invofi_contracts.Host.Outcome.{ok}
use invofi_contracts.Host.Machine.{
  add_i128, sub_i128, mul_i128, saturate_i128, saturating_mul_i128, sub_unsigned, add_u32,
}
use invofi_contracts.Common.Types.{InvoiceStatus, OfferStatus}
use invofi_contracts.Common.Storage.{assert_not_paused, resolve_token, get_currency_token}
use invofi_contracts.Common.Contract.Administration.{one_signer}
use invofi_contracts.Financing.State.{Financing, get_offer, no_stats}
use invofi_contracts.Financing.Callbacks.{
  assert_only_repayment, update_offer_status, update_offer_amount_repaid,
  update_lender_stats_repaid, update_stats_repaid, get_fee_bps,
}
use invofi_contracts.Financing.Books.{IsBooked}
use invofi_contracts.Financing.Tests.{funded, financed}
use invofi_contracts.Repayment.State.{Repayment, load_payments, save_payments, load_penalty_config}
use invofi_contracts.Repayment.Interest.{
  accrued_penalty, pro_rata_interest, principal_loop, total_principal_repaid, frozen_base,
  days_since_funded, remaining_principal, penalty_due,
}
use invofi_contracts.Repayment.Repay.{
  collect, record_payment, update_offer, reward, publish_payment, Reading, read_invoice, read_offer,
  read_repayment, take_payment, close_payment, repay_invoice,
}
use invofi_contracts.Repayment.Owed.{
  assert_financed, assert_running, obligation, assert_payable, Split, split_payment,
}
use invofi_contracts.Repayment.Cleared.{payment_of}
use invofi_contracts.Repayment.Tests.{
  loan_invoice, loan_registry, loan_reputation, loan_call, loans,
}
use invofi_contracts.Insurance.Tests.{counting_token}
use invofi_contracts.Protocol.Links.{
  nested, lift_registry, lift_reputation, lift_token, financing_client,
}
use invofi_contracts.Repayment.Loans.{IsRead}
use invofi_contracts.Protocol.Repaying.{repay_invoice-IsBooked}

-- The financing contract with one accepted offer, run by one signer.
abbrev lending : Financing
lending = record financed {
  store = record (financed.store) { admcfg = some (record { signers = 8 ∷ []; threshold = 1 }) };
}

lending-IsBooked : IsBooked lending
unfolding ◌+ℤ◌
lending-IsBooked = record {
  amounts = λ l. elim (Bool-cases (4 == l)) [ inl same ↦ rw same refl | inr other ↦ rw other refl ];
  numbers = λ l. elim (Bool-cases (4 == l)) [ inl same ↦ rw same refl | inr other ↦ rw other refl ];
  count = refl;
  free = refl;
  governed = record {
    cfg = record { signers = 8 ∷ []; threshold = 1 };
    stored = refl;
    formed = one_signer 8;
  };
}

abbrev parts : Split
parts = record { interest = pos 99726; principal = pos 500274; fee = pos 0; lender = pos 600000 }

abbrev repaid_part : Financing
repaid_part = record lending {
  offers = (30, record funded { status = OfferStatus.financed; amount_repaid = pos 500274 }) ∷ [];
  stats = record no_stats {
    total_offers = 1;
    total_financed = pos 1000000;
    total_repaid = pos 600000;
  };
}

abbrev paid : Repayment
unfolding publish_payment
paid = record loans {
  pays = (70, payment_of loan_call 80 (pos 600000) parts 1 ∷ []) ∷ [];
  store = publish_payment 70 30 false (pos 600000) parts (pos 499726) loans.store;
}

repay_part :
    repay_invoice
      (lift_token counting_token)
      (lift_registry (loan_registry InvoiceStatus.financed))
      (financing_client loan_call)
      (lift_reputation loan_reputation)
      loan_call
      70
      30
      80
      (pos 600000)
      loans
      (lending, 0)
    ≡ ok (loan_invoice InvoiceStatus.repaid, paid, (repaid_part, 1))
unfolding repay_invoice read_repayment read_invoice read_offer assert_financed assert_running
    assert_payable take_payment split_payment collect record_payment close_payment update_offer
    reward publish_payment save_payments set resolve_token get_currency_token assert_not_paused
    obligation load_payments remaining_principal total_principal_repaid principal_loop
    days_since_funded pro_rata_interest penalty_due frozen_base accrued_penalty load_penalty_config
    saturating_mul_i128 saturate_i128 add_i128 sub_i128 mul_i128 sub_unsigned add_u32 ◌+ℤ◌ ◌-ℤ◌ ◌*ℤ◌
    quot max_ℤ min_ℤ financing_client nested get_offer update_offer_status
    update_offer_amount_repaid update_lender_stats_repaid update_stats_repaid assert_only_repayment
    get_fee_bps
repay_part = refl

repay_invoice-IsBooked_example :
    (loan : Reading) × (principal left : ℤ) × (u₁ : ℕ) × IsRead
      (lift_registry (loan_registry InvoiceStatus.financed))
      (financing_client loan_call)
      loan_call
      70
      30
      loans
      (lending, 0)
      loan
    × (get 30 lending.offers ≡ some loan.offer)
    × (counting_token.transfer loan.token_addr 80 loan.offer.lender (pos 600000) 0 ≡ ok u₁)
    × (min_ℤ (pos 600000) loan.owed.interest +ℤ principal ≡ pos 600000)
    × (left ≡ loan.owed.remaining -ℤ principal)
    × (get 30 repaid_part.offers
        ≡ some (record (loan.offer) {
          status = if leb_ℤ left (pos 0) then OfferStatus.repaid else OfferStatus.financed;
          amount_repaid = loan.offer.amount_repaid +ℤ principal;
        }))
    × (repaid_part.stats.total_repaid ≡ lending.stats.total_repaid +ℤ pos 600000)
    × (repaid_part.stats.total_fee_revenue ≡ lending.stats.total_fee_revenue)
    × IsBooked repaid_part
repay_invoice-IsBooked_example =
    repay_invoice-IsBooked counting_token (loan_registry InvoiceStatus.financed) loan_reputation
      loan_call 70 30 80 (pos 600000) loans lending 0 lending-IsBooked repay_part
