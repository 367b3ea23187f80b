-- ===== src/Financing/Callbacks.antt =====
-- The entry points of financing/src/lib.rs that the repayment contract calls.
use invofi_contracts.Prelude.{ℕ, Bool, none, some, if◌then◌else◌}
use invofi_contracts.Prelude.Int.{ℤ}
use invofi_contracts.Prelude.Maps.{ℕ_key}
use invofi_contracts.Host.Outcome.{
  Address, Symbol, Result, ok, Done, ◌>>=◌, ◌>>◌, panicked, unwrap, Invocation, require_auth,
}
use invofi_contracts.Host.Machine.{add_i128, add_u32}
use invofi_contracts.Common.Types.{OfferStatus}
use invofi_contracts.Common.Storage.{assert_not_paused}
use invofi_contracts.Financing.State.{
  Financing, get_offer, put_offer, load_lender_stats, save_lender_stats,
}

unfoldable pub assert_only_repayment : Invocation → Financing → Done
assert_only_repayment c s = do
  repayment_addr ← unwrap s.repayment panicked
  require_auth c repayment_addr

unfoldable pub update_offer_status :
    Invocation → Symbol → OfferStatus → Financing → Result Financing
unfolding assert_only_repayment
update_offer_status c id new_status s = do
  assert_not_paused s.store
  assert_only_repayment c s
  offer ← get_offer id s
  ok (put_offer id (record offer { status = new_status }) s)

unfoldable pub update_offer_amount_repaid : Invocation → Symbol → ℤ → Financing → Result Financing
unfolding assert_only_repayment
update_offer_amount_repaid c id amount_repaid s = do
  assert_not_paused s.store
  assert_only_repayment c s
  offer ← get_offer id s
  ok (put_offer id (record offer { amount_repaid = amount_repaid }) s)

unfoldable pub update_lender_stats_repaid :
    Invocation → Address → Bool → Financing → Result Financing
unfolding assert_only_repayment
update_lender_stats_repaid c lender fully_repaid s = do
  assert_not_paused s.store
  assert_only_repayment c s
  let stats = load_lender_stats lender s
  if fully_repaid
      then (do
        offers_repaid ← add_u32 stats.offers_repaid 1
        ok (save_lender_stats lender (record stats { offers_repaid = offers_repaid }) s))
      else ok (save_lender_stats lender stats s)

unfoldable pub update_stats_repaid : Invocation → ℤ → ℤ → Financing → Result Financing
unfolding assert_only_repayment
update_stats_repaid c amount fee_amount s = do
  assert_not_paused s.store
  assert_only_repayment c s
  total_repaid ← add_i128 s.stats.total_repaid amount
  total_fee_revenue ← add_i128 s.stats.total_fee_revenue fee_amount
  ok (record s {
    stats = record (s.stats) { total_repaid = total_repaid; total_fee_revenue = total_fee_revenue };
  })

unfoldable pub get_fee_bps : Financing → ℕ
get_fee_bps s = elim s.feebps [ none ↦ 0 | some fee ↦ fee ]
