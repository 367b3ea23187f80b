-- ===== src/Financing/Tests.antt =====
-- Concrete offers, and the theorems on them.
use invofi_contracts.Prelude.{ℕ, suc, ◌<◌, ◌≡◌, refl, ◌⊎◌, true, false, none, some, List, [], ◌∷◌}
use invofi_contracts.Prelude.Lists.{take, drop}
use invofi_contracts.Prelude.Int.{pos, ◌+ℤ◌, ◌-ℤ◌}
use invofi_contracts.Prelude.Maps.{ℕ_key, get, set}
use invofi_contracts.Host.Outcome.{Address, ok, Invocation}
use invofi_contracts.Host.Machine.{add_i128, sub_i128}
use invofi_contracts.Host.Events.{word, symbol, address, amount, text}
use invofi_contracts.Host.Transactions.{run_all}
use invofi_contracts.Common.Types.{Invoice, InvoiceStatus, FinancingOffer, OfferStatus, Text}
use invofi_contracts.Common.Domain.{
  NegotiationParty, NegotiationRecord, NegotiationStatus, RepaymentSchedule, ScheduleFrequency,
}
use invofi_contracts.Common.Governance.{init_admin_config}
use invofi_contracts.Common.Version.{parse_semantic_version}
use invofi_contracts.Common.Upgrade.{initialize_contract_version}
use invofi_contracts.Common.Storage.{
  empty_storage, assert_not_paused, contract_is_paused, resolve_token, get_currency_token, publish,
}
use invofi_contracts.Common.Clients.{RegistryClient}
use invofi_contracts.Financing.State.{
  Financing, no_stats, get_offer, load_negotiation, no_lender_stats,
}
use invofi_contracts.Financing.Offers.{assert_terms_valid, assert_not_blacklisted, publish_close}
use invofi_contracts.Financing.Acceptance.{
  end_negotiation, count_acceptance, mint_position, assert_not_expired, settle_acceptance,
  accept_offer,
}
use invofi_contracts.Financing.Negotiation.{
  Terms, record_terms, last_proposal_from, last_proposal_by, get_negotiation_status,
  assert_negotiable, record_round, execute_agreement,
}
use invofi_contracts.Financing.Rounds.{meets_counter, write_terms, publish_round, amend_offer}
use invofi_contracts.Financing.Settings.{constructor}
use invofi_contracts.Financing.Views.{get_offers_paginated, get_all_offers}
use invofi_contracts.Financing.Calls.{FinancingCall, perform}
use invofi_contracts.Financing.Books.{IsBooked}
use invofi_contracts.Financing.History.{run-IsBooked_from_constructor}
use invofi_contracts.Financing.Paging.{get_offers_paginated-slice}
use invofi_contracts.Financing.Settling.{IsSettled, accept_offer_lem}
use invofi_contracts.Financing.Proposals.{IsLatest}
use invofi_contracts.Financing.Consent.{with_terms, IsAgreed, amend_offer_consent}
use invofi_contracts.Insurance.Tests.{counting_token}

abbrev pub listed_invoice : Invoice
listed_invoice = record {
  id = 70;
  originator = 80;
  amount = pos 2000000;
  currency = 5;
  due_date = 40000000;
  status = InvoiceStatus.pending;
}

-- A registry in which every invoice is pending.
abbrev pub listing : RegistryClient ℕ
listing = record {
  get_invoice = λ registry id w. ok listed_invoice;
  mark_invoice_overdue = λ registry id w. ok (listed_invoice, w);
  financing_marks_invoice_financed = λ registry id w. ok (listed_invoice, suc w);
  repayment_marks_invoice_repaid = λ registry id fully w. ok (listed_invoice, w);
  repayment_marks_defaulted = λ registry id w. ok (listed_invoice, w);
  is_blacklisted = λ registry who w. ok false;
  get_fee_recipient = λ registry w. ok 90;
}

abbrev pub new_offer : FinancingOffer
new_offer = record {
  id = 30;
  invoice_id = 70;
  lender = 4;
  amount = pos 1000000;
  currency = 5;
  interest_rate = 1000;
  duration = 86400;
  expires_at = 0;
  status = OfferStatus.pending;
  funded_at = 0;
  amount_repaid = pos 0;
}

abbrev pub offer_call : Invocation
offer_call = record { self = 62; now = 5000; auth = λ who. true }

abbrev pub offering : Financing
offering = record {
  store = record (empty_storage 7) { token = some 50 };
  registry = some 61;
  repayment = some 99;
  postok = none;
  negwin = none;
  feebps = none;
  offers = (30, new_offer) ∷ [];
  lstats = (4, record no_lender_stats { total_offered = pos 1000000; offers_pending = 1 }) ∷ [];
  stats = record no_stats { total_offers = 1 };
  scheds = [];
  negot = [];
  negdl = [];
  negend = [];
}

get_offers_paginated-slice_example :
    get_offers_paginated 0 5 offering ≡ take 5 (drop 0 (get_all_offers offering))
get_offers_paginated-slice_example = get_offers_paginated-slice 0 5 offering

abbrev pub funded : FinancingOffer
funded = record new_offer { status = OfferStatus.accepted; funded_at = 5000 }

abbrev pub financed : Financing
financed = record offering {
  store =
      publish (word "off_acc" ∷ symbol 30 ∷ []) (symbol 70 ∷ address 4 ∷ amount (pos 1000000) ∷ [])
        offering.store;
  offers = (30, funded) ∷ [];
  lstats =
      (
        4,
        record no_lender_stats {
          total_offered = pos 1000000;
          total_accepted = pos 1000000;
          offers_pending = 1;
        },
      )
      ∷ [];
  stats = record no_stats { total_offers = 1; total_financed = pos 1000000 };
}

accept_new :
    accept_offer counting_token listing offer_call 30 80 offering 0 ≡ ok (funded, financed, 2)
unfolding accept_offer get_offer assert_not_expired settle_acceptance end_negotiation mint_position
    count_acceptance resolve_token get_currency_token assert_not_paused set add_i128 ◌+ℤ◌
accept_new = refl

accept_offer_lem_example :
    (contract_is_paused offering.store ≡ false)
    × (offer_call.auth 80 ≡ true)
    × ((o : FinancingOffer) × (ra : Address) × (invoice : Invoice) × (get 30 offering.offers
          ≡ some o)
        × (o.status ≡ OfferStatus.pending)
        × ((o.expires_at ≡ 0) ⊎ (offer_call.now < o.expires_at))
        × (offering.registry ≡ some ra)
        × (listing.get_invoice ra o.invoice_id 0 ≡ ok invoice)
        × (invoice.originator ≡ 80)
        × (invoice.status ≡ InvoiceStatus.pending)
        × IsSettled counting_token listing offer_call 30 o ra invoice financed 0
        × (funded ≡ record o { status = OfferStatus.accepted; funded_at = offer_call.now }))
accept_offer_lem_example =
    accept_offer_lem counting_token listing offer_call 30 80 offering 0 accept_new

-- The originator has asked for a lower rate.
abbrev asked : NegotiationRecord
asked = record {
  party = NegotiationParty.originator;
  amount = pos 1000000;
  interest_rate = 800;
  duration = 86400;
  timestamp = 4000;
}

abbrev lower : Terms
lower = record { amount = pos 1000000; interest_rate = 800; duration = 86400 }

abbrev met : NegotiationRecord
met = record asked { party = NegotiationParty.lender; timestamp = 5000 }

abbrev countered : Financing
countered = record offering { negot = (30, asked ∷ []) ∷ []; negdl = (30, 263200) ∷ [] }

abbrev agreed_offer : FinancingOffer
agreed_offer = record funded { interest_rate = 800 }

abbrev agreed : Financing
agreed = record financed {
  store =
      publish (word "off_acc" ∷ symbol 30 ∷ []) (symbol 70 ∷ address 4 ∷ amount (pos 1000000) ∷ [])
        (publish_close 30 NegotiationStatus.accepted 4
          (publish_round "off_amd" 30 4 lower offering)).store;
  offers = (30, agreed_offer) ∷ [];
  negot = (30, asked ∷ met ∷ []) ∷ [];
  negdl = (30, 263200) ∷ [];
  negend = (30, NegotiationStatus.accepted) ∷ [];
}

amend_to_meet :
    amend_offer counting_token listing offer_call 30 4 1 lower countered 0
    ≡ ok (agreed_offer, agreed, 2)
unfolding amend_offer assert_not_blacklisted assert_terms_valid assert_negotiable
    get_negotiation_status write_terms record_round meets_counter last_proposal_by
    last_proposal_from execute_agreement get_offer assert_not_expired settle_acceptance
    end_negotiation mint_position count_acceptance resolve_token get_currency_token
    assert_not_paused set add_i128 sub_i128 ◌+ℤ◌ ◌-ℤ◌
amend_to_meet = refl

amend_offer_consent_example :
    (contract_is_paused countered.store ≡ false)
    × (offer_call.auth 4 ≡ true)
    × ((o : FinancingOffer) × (get 30 countered.offers ≡ some o)
        × (o.lender ≡ 4)
        × (o.status ≡ OfferStatus.pending)
        × (((agreed_offer ≡ with_terms o lower)
              × (get 30 agreed.offers ≡ some (with_terms o lower)))
            ⊎ ((r : NegotiationRecord) × IsLatest NegotiationParty.originator
                  (load_negotiation 30 countered)
                  r
                × (record_terms r ≡ lower)
                × IsAgreed counting_token listing offer_call 30 (with_terms o lower) agreed 0)))
amend_offer_consent_example =
    amend_offer_consent counting_token listing offer_call 30 4 1 lower countered 0 amend_to_meet

-- Ten weekly installments of 110_000, of which the principal repaid covers two.
abbrev repaid_offer : FinancingOffer
repaid_offer = record funded { amount_repaid = pos 250000 }

abbrev weekly_schedule : RepaymentSchedule
weekly_schedule = record {
  offer_id = 30;
  count = 10;
  frequency = ScheduleFrequency.weekly;
  installment_amount = pos 110000;
  first_due = 10000;
}

abbrev scheduled : Financing
scheduled = record financed {
  offers = (30, repaid_offer) ∷ [];
  scheds = (30, weekly_schedule) ∷ [];
}

abbrev later_call : Invocation
later_call = record offer_call { now = 3000000 }

abbrev first_version : Text
first_version = b'0' ∷ b'.' ∷ b'1' ∷ b'.' ∷ b'0' ∷ []

abbrev deployed : Financing
deployed = record offering {
  store =
      publish (word "contract_initialized" ∷ []) (text first_version ∷ [])
        (record (empty_storage 7) {
          admcfg = some (record { signers = 8 ∷ []; threshold = 1 });
          version = some first_version;
          token = some 50;
        });
  repayment = none;
  offers = [];
  lstats = [];
  stats = no_stats;
}

deploy : constructor 7 8 61 50 first_version ≡ ok deployed
unfolding constructor init_admin_config initialize_contract_version parse_semantic_version
deploy = refl

abbrev history : List (Invocation × FinancingCall)
history =
    (offer_call, FinancingCall.set_repayment_contract (8 ∷ []) 99)
    ∷ (offer_call, FinancingCall.create_offer 30 70 4 (pos 1000000) 5 1000 86400 0)
    ∷ (offer_call, FinancingCall.create_offer 31 70 4 (pos 500000) 5 900 86400 0)
    ∷ (offer_call, FinancingCall.counter_offer 30 80 0 lower)
    ∷ (offer_call, FinancingCall.withdraw_offer 31 4)
    ∷ (offer_call, FinancingCall.amend_offer 30 4 1 lower)
    ∷ (offer_call, FinancingCall.update_offer_status 30 OfferStatus.repaid)
    ∷ []

run-IsBooked_from_constructor_example :
    IsBooked (run_all (perform counting_token listing) history (deployed, 0)).0
run-IsBooked_from_constructor_example =
    run-IsBooked_from_constructor counting_token listing 7 8 61 50 first_version history 0 deploy
