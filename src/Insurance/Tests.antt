-- ===== src/Insurance/Tests.antt =====
-- Concrete pools, and the theorems on them.
use invofi_contracts.Prelude.{
  ℕ, suc, ◌≡◌, refl, true, false, some, [], ◌∷◌, arith, inl, inr, Bool-cases, ◌==◌,
}
use invofi_contracts.Prelude.Int.{ℤ, pos, negsuc, ◌+ℤ◌, ◌-ℤ◌, ◌*ℤ◌, quot, min_ℤ, max_ℤ, ◌≤ℤ◌, ◌<ℤ◌}
use invofi_contracts.Prelude.Maps.{Map, ℕ_key, get_or, set, remove}
use invofi_contracts.Host.Outcome.{Address, Symbol, ok, Invocation}
use invofi_contracts.Host.Machine.{add_i128, sub_i128, mul_i128, div_i128}
use invofi_contracts.Host.Events.{word, address, amount, symbol}
use invofi_contracts.Common.Types.{Invoice, InvoiceStatus}
use invofi_contracts.Common.Storage.{
  Storage, empty_storage, assert_not_paused, publish, contract_is_paused,
}
use invofi_contracts.Common.Clients.{Token, RegistryClient}
use invofi_contracts.Insurance.State.{Insurance, load_token}
use invofi_contracts.Insurance.Payout.{
  assert_payout_caller, assert_defaulted, pay_from_pool, pay_out, reserve_payout, pay_claim,
  claim_payout,
}
use invofi_contracts.Insurance.Reduction.{reduction_for, reduce_from, reduce_stakes}
use invofi_contracts.Insurance.Transfers.{IsSent, IsPaid}
use invofi_contracts.Insurance.FlatPayout.{pay_out_amount, pay_out_guarded}
use invofi_contracts.Insurance.FlatBalance.{IsBalanced}
use invofi_contracts.Insurance.Reservations.{IsReserved, shift}
use invofi_contracts.Insurance.Promises.{reserve_payout_lem}
use invofi_contracts.Insurance.Settlement.{settle_owed}
use invofi_contracts.Insurance.Claims.{claimable, claim_payout_lem, claim_payout-covered}

-- A token whose transfers all succeed; its state counts them.
abbrev pub counting_token : Token ℕ
counting_token = record {
  transfer = λ token from to amt w. ok (suc w);
  transfer_from = λ token spender from to amt w. ok (suc w);
  mint = λ token to amt w. ok (suc w);
  balance = λ token who w. pos 0;
}

abbrev defaulted_invoice : Invoice
defaulted_invoice = record {
  id = 70;
  originator = 80;
  amount = pos 900000000;
  currency = 5;
  due_date = 1000;
  status = InvoiceStatus.defaulted;
}

-- A registry in which every invoice is in default.
abbrev pub default_registry : RegistryClient ℕ
default_registry = record {
  get_invoice = λ registry id w. ok defaulted_invoice;
  mark_invoice_overdue = λ registry id w. ok (defaulted_invoice, w);
  financing_marks_invoice_financed = λ registry id w. ok (defaulted_invoice, w);
  repayment_marks_invoice_repaid = λ registry id fully w. ok (defaulted_invoice, w);
  repayment_marks_defaulted = λ registry id w. ok (defaulted_invoice, w);
  is_blacklisted = λ registry who w. ok false;
  get_fee_recipient = λ registry w. ok 90;
}

-- Everyone has authorized the call.
abbrev pub call : Invocation
call = record { self = 99; now = 5000; auth = λ who. true }

abbrev pub storage : Storage
storage = record (empty_storage 7) { token = some 50 }

-- Two stakers, 1 and 2.
abbrev pub pool : Insurance
pool = record {
  store = storage;
  paycall = some 60;
  registry = some 61;
  stakes = (1, pos 3000000) ∷ (2, pos 2000000) ∷ [];
  pooltot = pos 5000000;
  yldrate = 0;
  stk_ts = [];
  yld_acc = [];
  tot_out = pos 0;
  resrvd = [];
  paid = [];
  pools = [];
  tstakes = [];
  tstk_ts = [];
  tyld_acc = [];
  tresrv = [];
  tpaid = [];
}

abbrev paid_out : Insurance
paid_out = record pool {
  stakes = (1, pos 2400000) ∷ (2, pos 1600000) ∷ [];
  pooltot = pos 4000000;
  store = publish (word "pool_pay" ∷ address 4 ∷ []) (amount (pos 1000000) ∷ []) storage;
}

pay_out-pool :
    pay_out counting_token default_registry call 70 4 (pos 1000000) pool 0
    ≡ ok (pos 1000000, paid_out, 1)
unfolding pay_out assert_payout_caller assert_defaulted pay_from_pool assert_not_paused
    reduce_stakes reduce_from reduction_for load_token add_i128 sub_i128 mul_i128 div_i128 ◌+ℤ◌ ◌-ℤ◌
    ◌*ℤ◌ quot min_ℤ set remove
pay_out-pool = refl

pub pool-IsBalanced : IsBalanced pool
unfolding ◌+ℤ◌
pool-IsBalanced = refl

pay_out_amount_example :
    (pos 1000000 ≡ max_ℤ (min_ℤ (pos 1000000) (pos 5000000)) (pos 0))
    × (pos 4000000 ≡ pos 5000000 -ℤ pos 1000000)
    × IsBalanced paid_out
    × IsPaid counting_token call 4 pool 0 (pos 1000000) 1
pay_out_amount_example =
    pay_out_amount counting_token default_registry call 70 4 (pos 1000000) pool 0 pool-IsBalanced
      pay_out-pool

pay_out_guarded_example :
    (contract_is_paused storage ≡ false)
    × ((caller : Address) × (pool.paycall ≡ some caller) × (call.auth caller ≡ true))
    × (pos 0 <ℤ pos 1000000)
    × ((addr : Address) × (invoice : Invoice) × (pool.registry ≡ some addr)
        × (default_registry.get_invoice addr 70 0 ≡ ok invoice)
        × (invoice.status ≡ InvoiceStatus.defaulted))
pay_out_guarded_example =
    pay_out_guarded counting_token default_registry call 70 4 (pos 1000000) pool 0 pay_out-pool

-- The pool after a reservation of 1_500_000 for the offer 30.
abbrev promised : Insurance
promised = record pool {
  resrvd = (30, pos 1500000) ∷ [];
  tot_out = pos 1500000;
  store = publish (word "ins_rsrv" ∷ symbol 30 ∷ []) (amount (pos 1500000) ∷ []) storage;
}

abbrev owed : Map Symbol ℤ
owed = (30, pos 1500000) ∷ []

reserve_payout-pool : reserve_payout call 30 (pos 1500000) pool ≡ ok (pos 1500000, promised)
unfolding reserve_payout assert_payout_caller assert_not_paused add_i128 sub_i128 ◌+ℤ◌ ◌-ℤ◌ min_ℤ
    set
reserve_payout-pool = refl

pool-IsReserved : IsReserved pool []
unfolding ◌+ℤ◌
pool-IsReserved = (refl, tt, λ k. (refl, omega arith))

reserve_payout_lem_example :
    (pos 1500000 ≡ max_ℤ (min_ℤ (pos 1500000) (pool.pooltot -ℤ pool.tot_out)) (pos 0))
    × (promised.tot_out ≤ℤ max_ℤ pool.tot_out pool.pooltot)
    × (promised.pooltot ≡ pool.pooltot)
    × (promised.stakes ≡ pool.stakes)
    × IsReserved promised (shift 30 (pos 1500000) [])
reserve_payout_lem_example =
    reserve_payout_lem call 30 (pos 1500000) pool [] pool-IsReserved reserve_payout-pool

promised-IsReserved : IsReserved promised owed
unfolding ◌+ℤ◌
promised-IsReserved = (refl, (omega arith, tt), λ k. (zero_first k, omega arith))
  where
    zero_first : (k : Symbol) → get_or (pos 0) k owed ≡ pos 0 +ℤ get_or (pos 0) k owed
    zero_first k = elim (Bool-cases (30 == k)) [
      | inl same ↦ rw same refl
      | inr other ↦ rw other refl
    ]

promised-IsBalanced : IsBalanced promised
unfolding ◌+ℤ◌
promised-IsBalanced = refl

abbrev claimed : Insurance
claimed = record promised {
  paid = (30, pos 500000) ∷ [];
  tot_out = pos 1000000;
  stakes = (1, pos 2700000) ∷ (2, pos 1800000) ∷ [];
  pooltot = pos 4500000;
  store =
      publish (word "ins_pay" ∷ symbol 30 ∷ []) (amount (pos 500000) ∷ amount (pos 1000000) ∷ [])
        promised.store;
}

claim_payout-promised :
    claim_payout counting_token call 30 4 (pos 500000) promised 0
    ≡ ok ((pos 500000, pos 1000000), claimed, 1)
unfolding claim_payout pay_claim assert_payout_caller assert_not_paused reduce_stakes reduce_from
    reduction_for load_token add_i128 sub_i128 mul_i128 div_i128 ◌+ℤ◌ ◌-ℤ◌ ◌*ℤ◌ quot min_ℤ set
    remove
claim_payout-promised = refl

claim_payout_lem_example :
    (pos 500000 ≡ max_ℤ (claimable 30 (pos 500000) promised owed) (pos 0))
    × (pos 1000000 ≡ pos 1500000 -ℤ pos 500000)
    × (claimed.pooltot ≡ promised.pooltot -ℤ pos 500000)
    × IsBalanced claimed
    × IsReserved claimed (settle_owed 30 (pos 500000) owed)
    × IsPaid counting_token call 4 promised 0 (pos 500000) 1
claim_payout_lem_example =
    claim_payout_lem counting_token call 30 4 (pos 500000) promised 0 owed promised-IsBalanced
      promised-IsReserved claim_payout-promised

claim_payout-covered_example :
    (pos 500000 ≡ min_ℤ (pos 500000) (pos 1500000))
    × IsSent counting_token call 4 promised 0 (min_ℤ (pos 500000) (pos 1500000)) 1
    × IsReserved claimed (settle_owed 30 (min_ℤ (pos 500000) (pos 1500000)) owed)
claim_payout-covered_example =
    claim_payout-covered counting_token call 30 4 (pos 500000) promised 0 owed promised-IsBalanced
      promised-IsReserved (omega arith) claim_payout-promised

-- A payout of one unit less than the pool takes more from the last staker than the stake.
overdrawn :
    reduce_stakes {K = Address}
      (pos 2999999)
      (pos 3000000)
      (1 ∷ 2 ∷ 3 ∷ [])
      ((1, pos 1000000) ∷ (2, pos 1000000) ∷ (3, pos 1000000) ∷ [])
    ≡ ok ((1, pos 1) ∷ (2, pos 1) ∷ (3, negsuc 0) ∷ [], pos 2999999)
unfolding reduce_stakes reduce_from reduction_for add_i128 sub_i128 mul_i128 div_i128 ◌+ℤ◌ ◌-ℤ◌ ◌*ℤ◌
    quot min_ℤ set remove
overdrawn = refl
