-- ===== src/Insurance/Payout.antt =====
-- `pay_out`, `reserve_payout` and `claim_payout` of insurance/src/lib.rs, on the flat pool.
use invofi_contracts.Prelude.{Bool, true, false, [], ◌∷◌, if◌then◌else◌}
use invofi_contracts.Prelude.Int.{ℤ, pos, ltb_ℤ, leb_ℤ, is_zero, min_ℤ}
use invofi_contracts.Prelude.Maps.{Map, ℕ_key, get_or, set, remove, keys}
use invofi_contracts.Host.Outcome.{
  Address, Symbol, Result, ok, Done, ◌>>=◌, ◌>>◌, contract, invalid_input, invalid_transition,
  insufficient_balance, panicked, guard, unwrap, Invocation, require_auth,
}
use invofi_contracts.Host.Machine.{add_i128, sub_i128}
use invofi_contracts.Host.Events.{word, address, symbol, amount}
use invofi_contracts.Common.Types.{InvoiceStatus}
use invofi_contracts.Common.Storage.{publish, assert_not_paused}
use invofi_contracts.Common.Clients.{Token, RegistryClient}
use invofi_contracts.Insurance.State.{Insurance, load_token}
use invofi_contracts.Insurance.Reduction.{reduce_stakes}

abbrev pub is_defaulted : InvoiceStatus → Bool
is_defaulted InvoiceStatus.defaulted = true
is_defaulted _ = false

-- The first lines of every payout entry point.
unfoldable pub assert_payout_caller : Invocation → ℤ → Insurance → Done
assert_payout_caller c amt s = do
  assert_not_paused s.store
  payout_caller ← unwrap s.paycall panicked
  require_auth c payout_caller
  guard (ltb_ℤ (pos 0) amt) (contract invalid_input)

module _ {W : Type 0} (registry : RegistryClient W) where
  -- The cross-contract check that the invoice is in default.
  unfoldable pub assert_defaulted : Symbol → Insurance → W → Done
  assert_defaulted invoice_id s w = do
    registry_addr ← unwrap s.registry panicked
    invoice ← registry.get_invoice registry_addr invoice_id w
    guard (is_defaulted invoice.status) (contract invalid_transition)

module _ {W : Type 0} (token : Token W) where
  -- The payout itself, once every check has passed.
  unfoldable pub pay_from_pool :
      Invocation → Address → ℤ → Insurance → W → Result (ℤ × Insurance × W)
  pay_from_pool c beneficiary payout s w = do
    (stakes, _) ← reduce_stakes payout s.pooltot (keys s.stakes) s.stakes
    total ← sub_i128 s.pooltot payout
    token_addr ← load_token s
    w' ← token.transfer token_addr c.self beneficiary payout w
    ok (
      payout,
      record s {
        stakes = stakes;
        pooltot = total;
        store = publish (word "pool_pay" ∷ address beneficiary ∷ []) (amount payout ∷ []) s.store;
      },
      w',
    )

  unfoldable pub pay_out :
      RegistryClient W
      → Invocation
      → Symbol
      → Address
      → ℤ
      → Insurance
      → W
      → Result (ℤ × Insurance × W)
  unfolding assert_payout_caller assert_defaulted
  pay_out registry c invoice_id beneficiary amt s w = do
    assert_payout_caller c amt s
    assert_defaulted registry invoice_id s w
    let payout = min_ℤ amt s.pooltot
    if leb_ℤ payout (pos 0) then ok (pos 0, s, w) else pay_from_pool c beneficiary payout s w

-- `save_reserved` and `save_paid`: a zero is removed.
abbrev pub put_amount : Symbol → ℤ → Map Symbol ℤ → Map Symbol ℤ
put_amount offer_id amt m = if is_zero amt then remove offer_id m else set offer_id amt m

unfoldable pub reserve_payout : Invocation → Symbol → ℤ → Insurance → Result (ℤ × Insurance)
unfolding assert_payout_caller
reserve_payout c offer_id amt s = do
  assert_payout_caller c amt s
  available ← sub_i128 s.pooltot s.tot_out
  let reserved = min_ℤ amt available
  if leb_ℤ reserved (pos 0) then ok (pos 0, s) else (do
    promised ← add_i128 (get_or (pos 0) offer_id s.resrvd) reserved
    total ← add_i128 s.tot_out reserved
    ok (
      reserved,
      record s {
        resrvd = put_amount offer_id promised s.resrvd;
        tot_out = total;
        store = publish (word "ins_rsrv" ∷ symbol offer_id ∷ []) (amount reserved ∷ []) s.store;
      },
    ))

module _ {W : Type 0} (token : Token W) where
  -- The claim itself, once `paid` is known to be positive.
  unfoldable pub pay_claim :
      Invocation → Symbol → Address → ℤ → ℤ → ℤ → Insurance → W → Result ((ℤ × ℤ) × Insurance × W)
  pay_claim c offer_id lender paid already_paid remaining s w = do
    paid_total ← add_i128 already_paid paid
    outstanding ← sub_i128 s.tot_out paid
    (stakes, _) ← reduce_stakes paid s.pooltot (keys s.stakes) s.stakes
    total ← sub_i128 s.pooltot paid
    token_addr ← load_token s
    w' ← token.transfer token_addr c.self lender paid w
    new_remaining ← sub_i128 remaining paid
    ok (
      (paid, new_remaining),
      record s {
        paid = put_amount offer_id paid_total s.paid;
        tot_out = outstanding;
        stakes = stakes;
        pooltot = total;
        store =
            publish (word "ins_pay" ∷ symbol offer_id ∷ [])
              (amount paid ∷ amount new_remaining ∷ []) s.store;
      },
      w',
    )

  -- Returns what was paid, and what stays reserved for the offer.
  unfoldable pub claim_payout :
      Invocation → Symbol → Address → ℤ → Insurance → W → Result ((ℤ × ℤ) × Insurance × W)
  unfolding assert_payout_caller
  claim_payout c offer_id lender amt s w = do
    assert_payout_caller c amt s
    let already_paid = get_or (pos 0) offer_id s.paid
    remaining ← sub_i128 (get_or (pos 0) offer_id s.resrvd) already_paid
    guard (ltb_ℤ (pos 0) remaining) (contract insufficient_balance)
    let claim_amount = min_ℤ amt remaining
    others ← sub_i128 s.tot_out remaining
    pool_available ← sub_i128 s.pooltot others
    let paid = min_ℤ claim_amount pool_available
    if leb_ℤ paid (pos 0)
        then ok ((pos 0, remaining), s, w)
        else pay_claim c offer_id lender paid already_paid remaining s w
