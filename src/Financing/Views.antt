-- ===== src/Financing/Views.antt =====
-- The read-only entry points of financing/src/lib.rs.
use invofi_contracts.Prelude.{
  ℕ, suc, Bool, true, ◌&&◌, ◌||◌, List, [], ◌∷◌, ◌++◌, leb, ltb, ◌==◌, if◌then◌else◌,
}
use invofi_contracts.Prelude.Lists.{length}
use invofi_contracts.Prelude.Int.{ℤ, pos}
use invofi_contracts.Prelude.Maps.{Map}
use invofi_contracts.Host.Outcome.{Address, Symbol, Result, ok, ◌>>=◌}
use invofi_contracts.Host.Machine.{add_i128}
use invofi_contracts.Common.Types.{FinancingOffer, OfferStatus}
use invofi_contracts.Common.Domain.{
  LenderStats, ProtocolStats, NegotiationRecord, min_offer_duration_secs, max_offer_duration_secs,
}
use invofi_contracts.Common.Statuses.{is_offer_status}
use invofi_contracts.Financing.State.{Financing, load_lender_stats, load_negotiation, load_deadline}

-- The loop of the views: the offers that pass a test, in key order.
unfoldable pub select_offers :
    (FinancingOffer → Bool) → Map Symbol FinancingOffer → List FinancingOffer
select_offers test [] = []
select_offers test ((_, offer) ∷ rest) =
    if test offer then offer ∷ select_offers test rest else select_offers test rest

unfoldable pub get_offers_by_invoice : Symbol → Financing → List FinancingOffer
unfolding select_offers
get_offers_by_invoice invoice_id s = select_offers (λ o. o.invoice_id == invoice_id) s.offers

unfoldable pub get_offers_by_lender : Address → Financing → List FinancingOffer
unfolding select_offers
get_offers_by_lender lender s = select_offers (λ o. o.lender == lender) s.offers

unfoldable pub get_all_offers : Financing → List FinancingOffer
unfolding select_offers
get_all_offers s = select_offers (λ o. true) s.offers

unfoldable pub get_offers_by_status : OfferStatus → Financing → List FinancingOffer
unfolding select_offers
get_offers_by_status status s = select_offers (λ o. is_offer_status o.status status) s.offers

unfoldable pub get_pending_offers_by_invoice : Symbol → Financing → List FinancingOffer
unfolding select_offers
get_pending_offers_by_invoice invoice_id s =
    select_offers (λ o. o.invoice_id == invoice_id && is_offer_status o.status OfferStatus.pending)
      s.offers

unfoldable pub get_offers_count : Financing → ℕ
get_offers_count s = length s.offers

-- The loop of `get_offers_paginated` at an index, with the page collected so far.
unfoldable pub page_from :
    ℕ → ℕ → ℕ → List FinancingOffer → Map Symbol FinancingOffer → List FinancingOffer
page_from offset limit idx page [] = page
page_from offset limit idx page ((_, offer) ∷ rest) =
    let page' = if leb offset idx && ltb (length page) limit then page ++ offer ∷ [] else page in
    let further = page_from offset limit (suc idx) page' rest in
    if leb limit (length page') then page' else further

unfoldable pub get_offers_paginated : ℕ → ℕ → Financing → List FinancingOffer
unfolding page_from
get_offers_paginated offset limit s = page_from offset limit 0 [] s.offers

unfoldable pub get_lender_stats : Address → Financing → LenderStats
get_lender_stats lender s = load_lender_stats lender s

abbrev pub is_active : OfferStatus → Bool
is_active status =
    is_offer_status status OfferStatus.accepted || is_offer_status status OfferStatus.financed

-- The loop of `get_lender_active_total`.
unfoldable pub active_total : Address → ℤ → Map Symbol FinancingOffer → Result ℤ
active_total lender total [] = ok total
active_total lender total ((_, offer) ∷ rest) =
    if offer.lender == lender && is_active offer.status
    then (do total' ← add_i128 total offer.amount; active_total lender total' rest)
    else active_total lender total rest

unfoldable pub get_lender_active_total : Address → Financing → Result ℤ
unfolding active_total
get_lender_active_total lender s = active_total lender (pos 0) s.offers

unfoldable pub get_stats : Financing → ProtocolStats
get_stats s = s.stats

unfoldable pub get_negotiation : Symbol → Financing → List NegotiationRecord
get_negotiation offer_id s = load_negotiation offer_id s

unfoldable pub get_negotiation_deadline : Symbol → Financing → ℕ
get_negotiation_deadline offer_id s = load_deadline offer_id s

unfoldable pub get_offer_duration_limits : ℕ × ℕ
get_offer_duration_limits = (min_offer_duration_secs, max_offer_duration_secs)
