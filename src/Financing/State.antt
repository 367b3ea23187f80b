-- ===== src/Financing/State.antt =====
-- The storage of financing/src/lib.rs, and its loads and saves.
use invofi_contracts.Prelude.{ℕ, Option, List, []}
use invofi_contracts.Prelude.Int.{pos}
use invofi_contracts.Prelude.Maps.{Map, ℕ_key, get, get_or, set}
use invofi_contracts.Host.Outcome.{Address, Symbol, Result, contract, not_found, unwrap}
use invofi_contracts.Common.Types.{FinancingOffer}
use invofi_contracts.Common.Domain.{
  LenderStats, ProtocolStats, RepaymentSchedule, NegotiationRecord, NegotiationStatus,
}
use invofi_contracts.Common.Storage.{Storage}

-- One field for each key; `negwin` and `feebps` are absent until an admin sets them.
pub record Financing : Type 0 where
  pub store : Storage
  pub registry : Option Address
  pub repayment : Option Address
  pub postok : Option Address
  pub negwin : Option ℕ
  pub feebps : Option ℕ
  pub offers : Map Symbol FinancingOffer
  pub lstats : Map Address LenderStats
  pub stats : ProtocolStats
  pub scheds : Map Symbol RepaymentSchedule
  pub negot : Map Symbol (List NegotiationRecord)
  pub negdl : Map Symbol ℕ
  pub negend : Map Symbol NegotiationStatus

-- `LenderStats::default()`
abbrev pub no_lender_stats : LenderStats
no_lender_stats = record {
  total_offered = pos 0;
  total_accepted = pos 0;
  offers_pending = 0;
  offers_repaid = 0;
}

abbrev pub no_stats : ProtocolStats
no_stats = record {
  total_invoices = 0;
  total_offers = 0;
  total_financed = pos 0;
  total_repaid = pos 0;
  total_fee_revenue = pos 0;
}

abbrev pub load_lender_stats : Address → Financing → LenderStats
load_lender_stats lender s = get_or no_lender_stats lender s.lstats

abbrev pub save_lender_stats : Address → LenderStats → Financing → Financing
save_lender_stats lender stats s = record s { lstats = set lender stats s.lstats }

abbrev pub load_negotiation : Symbol → Financing → List NegotiationRecord
load_negotiation offer_id s = get_or [] offer_id s.negot

abbrev pub save_negotiation : Symbol → List NegotiationRecord → Financing → Financing
save_negotiation offer_id history s = record s { negot = set offer_id history s.negot }

abbrev pub load_deadline : Symbol → Financing → ℕ
load_deadline offer_id s = get_or 0 offer_id s.negdl

abbrev pub save_deadline : Symbol → ℕ → Financing → Financing
save_deadline offer_id deadline s = record s { negdl = set offer_id deadline s.negdl }

abbrev pub load_outcome : Symbol → Financing → Option NegotiationStatus
load_outcome offer_id s = get offer_id s.negend

abbrev pub save_outcome : Symbol → NegotiationStatus → Financing → Financing
save_outcome offer_id outcome s = record s { negend = set offer_id outcome s.negend }

-- `offers.set` and `save_offers`
abbrev pub put_offer : Symbol → FinancingOffer → Financing → Financing
put_offer offer_id offer s = record s { offers = set offer_id offer s.offers }

unfoldable pub get_offer : Symbol → Financing → Result FinancingOffer
get_offer id s = unwrap (get id s.offers) (contract not_found)
