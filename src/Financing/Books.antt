-- ===== src/Financing/Books.antt =====
-- The statistics of financing/src/lib.rs against the stored offers.
use invofi_contracts.Prelude.{
  ◌≡◌, refl, sym, ap, ◌∙◌, inl, inr, none, some, Bool-cases, ◌==◌, if◌then◌else◌,
}
use invofi_contracts.Prelude.Int.{ℤ, pos}
use invofi_contracts.Prelude.Maps.{Map, ℕ_key, ℕ_eq, get, set}
use invofi_contracts.Prelude.MapLaws.{get_or-set}
use invofi_contracts.Prelude.MapSums.{sum_of, sum_of-set_same}
use invofi_contracts.Host.Outcome.{Address, Symbol}
use invofi_contracts.Common.Types.{FinancingOffer}
use invofi_contracts.Common.Domain.{LenderStats}
use invofi_contracts.Common.Contract.Administration.{IsGoverned}
use invofi_contracts.Financing.State.{Financing, no_lender_stats, load_lender_stats}

-- What an offer counts for: its lender's amount, its lender's number, and the number of all.
abbrev pub offered : Address → FinancingOffer → ℤ
offered lender o = if o.lender == lender then o.amount else pos 0

abbrev pub made : Address → FinancingOffer → ℤ
made lender o = if o.lender == lender then pos 1 else pos 0

abbrev pub one : FinancingOffer → ℤ
one o = pos 1

-- The statistics are the sums over the offers that are stored, whatever their status; no fee is set;
-- the signer set is well-formed.
pub record IsBooked (s : Financing) : Type 0 where
  pub amounts :
      (lender : Address)
      → (load_lender_stats lender s).total_offered ≡ sum_of (offered lender) s.offers
  pub numbers :
      (lender : Address)
      → pos (load_lender_stats lender s).offers_pending ≡ sum_of (made lender) s.offers
  pub count : pos s.stats.total_offers ≡ sum_of one s.offers
  pub free : s.feebps ≡ none
  pub governed : IsGoverned s.store

-- The sums are the same.
pub record SameSums (m m' : Map Symbol FinancingOffer) : Type 0 where
  pub amounts : (lender : Address) → sum_of (offered lender) m' ≡ sum_of (offered lender) m
  pub numbers : (lender : Address) → sum_of (made lender) m' ≡ sum_of (made lender) m
  pub count : sum_of one m' ≡ sum_of one m

-- The statistics of offers, the fee and the signers are the same.
pub record SameCounts (s s' : Financing) : Type 0 where
  pub amounts :
      (lender : Address)
      → (load_lender_stats lender s').total_offered ≡ (load_lender_stats lender s).total_offered
  pub numbers :
      (lender : Address)
      → (load_lender_stats lender s').offers_pending ≡ (load_lender_stats lender s).offers_pending
  pub count : s'.stats.total_offers ≡ s.stats.total_offers
  pub fee : s'.feebps ≡ s.feebps
  pub signers : s'.store.admcfg ≡ s.store.admcfg

pub still-IsBooked :
    (s s' : Financing) → SameSums s.offers s'.offers → SameCounts s s' → IsBooked s → IsBooked s'
still-IsBooked s s' sums counts b = record {
  amounts = λ l. (counts.amounts l ∙ b.amounts l) ∙ sym (sums.amounts l);
  numbers = λ l. (ap pos (counts.numbers l) ∙ b.numbers l) ∙ sym (sums.numbers l);
  count = (ap pos counts.count ∙ b.count) ∙ sym sums.count;
  free = counts.fee ∙ b.free;
  governed = record {
    cfg = b.governed.cfg;
    stored = counts.signers ∙ b.governed.stored;
    formed = b.governed.formed;
  };
}

pub same_sums : (m : Map Symbol FinancingOffer) → SameSums m m
same_sums m = record { amounts = λ l. refl; numbers = λ l. refl; count = refl }

-- A stored offer that is written with the same lender and the same amount.
pub set-SameSums :
    (id : Symbol) (o o' : FinancingOffer) (m : Map Symbol FinancingOffer)
    → get id m ≡ some o
    → o'.lender ≡ o.lender
    → o'.amount ≡ o.amount
    → SameSums m (set id o' m)
set-SameSums id o o' m found lender amount = record {
  amounts = λ l. sum_of-set_same (offered l) id o' o m found (rw (lender, amount) refl);
  numbers = λ l. sum_of-set_same (made l) id o' o m found (rw lender refl);
  count = sum_of-set_same one id o' o m found refl;
}

-- The same statistics, written out; `stats` may differ in what is not counted here.
pub counts_of_fields :
    (s s' : Financing)
    → s'.lstats ≡ s.lstats
    → s'.stats.total_offers ≡ s.stats.total_offers
    → s'.feebps ≡ s.feebps
    → s'.store.admcfg ≡ s.store.admcfg
    → SameCounts s s'
counts_of_fields s s' lstats count fee signers = record {
  amounts = λ l. rw lstats refl;
  numbers = λ l. rw lstats refl;
  count = count;
  fee = fee;
  signers = signers;
}

-- One lender's statistics are written with the same two numbers.
pub counts_of_stats :
    (s s' : Financing) (lender : Address) (stats : LenderStats)
    → s'.lstats ≡ set lender stats s.lstats
    → stats.total_offered ≡ (load_lender_stats lender s).total_offered
    → stats.offers_pending ≡ (load_lender_stats lender s).offers_pending
    → s'.stats.total_offers ≡ s.stats.total_offers
    → s'.feebps ≡ s.feebps
    → s'.store.admcfg ≡ s.store.admcfg
    → SameCounts s s'
counts_of_stats s s' lender stats lstats offered pending count fee signers = record {
  amounts = λ l.
      rw (lstats, get_or-set no_lender_stats lender l stats s.lstats)
        (elim (Bool-cases (lender == l)) [
          | inl same ↦ rw (same, offered, ℕ_eq lender l same) refl
          | inr other ↦ rw other refl
        ]);
  numbers = λ l.
      rw (lstats, get_or-set no_lender_stats lender l stats s.lstats)
        (elim (Bool-cases (lender == l)) [
          | inl same ↦ rw (same, pending, ℕ_eq lender l same) refl
          | inr other ↦ rw other refl
        ]);
  count = count;
  fee = fee;
  signers = signers;
}
