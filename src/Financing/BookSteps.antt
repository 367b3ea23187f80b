-- ===== src/Financing/BookSteps.antt =====
-- How the creation and the amendment of an offer move the statistics of financing/src/lib.rs.
use invofi_contracts.Prelude.{
  ℕ, ◌+◌, ◌≡◌, refl, sym, ap, ◌∙◌, inl, inr, true, false, none, some, [], ◌∷◌, Bool-cases, ◌==◌,
  if◌then◌else◌, arith,
}
use invofi_contracts.Prelude.Int.{ℤ, pos, ◌+ℤ◌, ◌-ℤ◌, +ℤ-pos, int_laws, parts_of_eq}
use invofi_contracts.Prelude.Maps.{Map, ℕ_key, ℕ_eq, get, set, contains_key}
use invofi_contracts.Prelude.MapLaws.{get_or-set}
use invofi_contracts.Prelude.MapSums.{sum_of, sum_of-set}
use invofi_contracts.Host.Outcome.{Address, Symbol}
use invofi_contracts.Common.Types.{FinancingOffer}
use invofi_contracts.Common.Domain.{LenderStats}
use invofi_contracts.Financing.State.{Financing, no_lender_stats, load_lender_stats}
use invofi_contracts.Financing.Books.{offered, made, one, IsBooked}

pub get-absent : {V : Type 0} (k : ℕ) (m : Map ℕ V) → contains_key k m ≡ false → get k m ≡ none
get-absent k [] h = refl
get-absent k ((j, v) ∷ m) h = ground (arith, get-absent k m)

added : (a b c : ℤ) → a +ℤ pos 0 ≡ b +ℤ c → a ≡ b +ℤ c
added a b c h = omega (int_laws, parts_of_eq _ _ h)

moved : (a b c d : ℤ) → a +ℤ c ≡ b +ℤ d → a ≡ b +ℤ (d -ℤ c)
moved a b c d h = omega (int_laws, parts_of_eq _ _ h)

plus_none : (a : ℤ) → a ≡ a +ℤ pos 0
plus_none a = omega int_laws

counted :
    (lender l : Address) (v : ℤ) → (lender == l) ≡ true → (if lender == l then v else pos 0) ≡ v
counted lender l v same = rw same refl

uncounted :
    (lender l : Address) (v : ℤ)
    → (lender == l) ≡ false
    → (if lender == l then v else pos 0) ≡ pos 0
uncounted lender l v other = rw other refl

module _ (id : Symbol) (o : FinancingOffer) (m : Map Symbol FinancingOffer) where
  grown : (f : FinancingOffer → ℤ) → get id m ≡ none → sum_of f (set id o m) ≡ sum_of f m +ℤ f o
  grown f absent = added _ _ _ (rw absent at (sum_of-set f id o m))

  changed :
      (f : FinancingOffer → ℤ) (old : FinancingOffer)
      → get id m ≡ some old
      → sum_of f (set id o m) ≡ sum_of f m +ℤ (f o -ℤ f old)
  changed f old found = moved _ _ _ _ (rw found at (sum_of-set f id o m))

next_number : (n : ℕ) (z : ℤ) → pos n ≡ z → pos (n + 1) ≡ z +ℤ pos 1
next_number n z h = sym (+ℤ-pos n 1) ∙ ap (λ x. x +ℤ pos 1) h

-- A new offer, counted once.
pub IsBooked-new :
    (s s' : Financing) (id : Symbol) (o : FinancingOffer) (stats : LenderStats)
    → get id s.offers ≡ none
    → s'.offers ≡ set id o s.offers
    → s'.lstats ≡ set o.lender stats s.lstats
    → stats.total_offered ≡ (load_lender_stats o.lender s).total_offered +ℤ o.amount
    → stats.offers_pending ≡ (load_lender_stats o.lender s).offers_pending + 1
    → s'.stats.total_offers ≡ s.stats.total_offers + 1
    → s'.feebps ≡ s.feebps
    → s'.store.admcfg ≡ s.store.admcfg
    → IsBooked s
    → IsBooked s'
IsBooked-new s s' id o stats absent offers lstats amount number count fee signers b = record {
  amounts = λ l.
      rw
        (
          offers,
          lstats,
          get_or-set no_lender_stats o.lender l stats s.lstats,
          grown id o s.offers (offered l) absent,
        )
        (elim (Bool-cases (o.lender == l)) [
          | inl same ↦ rw (same) (
              (amount
                ∙ ap (λ x. (load_lender_stats x s).total_offered +ℤ o.amount)
                    (ℕ_eq o.lender l same))
              ∙ ap (λ x. x +ℤ o.amount) (b.amounts l))
          | inr other ↦ rw other (b.amounts l ∙ plus_none _)
        ]);
  numbers = λ l.
      rw
        (
          offers,
          lstats,
          get_or-set no_lender_stats o.lender l stats s.lstats,
          grown id o s.offers (made l) absent,
        )
        (elim (Bool-cases (o.lender == l)) [
          | inl same ↦ rw same (
              ap pos (
                number
                ∙ ap (λ x. (load_lender_stats x s).offers_pending + 1) (ℕ_eq o.lender l same))
              ∙ next_number _ _ (b.numbers l))
          | inr other ↦ rw other (b.numbers l ∙ plus_none _)
        ]);
  count = rw (offers, count, grown id o s.offers one absent) (next_number _ _ b.count);
  free = fee ∙ b.free;
  governed = record {
    cfg = b.governed.cfg;
    stored = signers ∙ b.governed.stored;
    formed = b.governed.formed;
  };
}

no_change : (a : ℤ) → a -ℤ a ≡ pos 0
no_change a = omega (int_laws)

still : (a z : ℤ) → z +ℤ (a -ℤ a) ≡ z
still a z = omega int_laws

-- The offer's amount is rewritten, and its lender's total moves by the difference.
pub IsBooked-amended :
    (s s' : Financing) (id : Symbol) (old o : FinancingOffer) (stats : LenderStats)
    → get id s.offers ≡ some old
    → o.lender ≡ old.lender
    → s'.offers ≡ set id o s.offers
    → s'.lstats ≡ set old.lender stats s.lstats
    → stats.total_offered
      ≡ (load_lender_stats old.lender s).total_offered +ℤ (o.amount -ℤ old.amount)
    → stats.offers_pending ≡ (load_lender_stats old.lender s).offers_pending
    → s'.stats.total_offers ≡ s.stats.total_offers
    → s'.feebps ≡ s.feebps
    → s'.store.admcfg ≡ s.store.admcfg
    → IsBooked s
    → IsBooked s'
IsBooked-amended s s' id old o stats found own offers lstats amount number count fee signers b =
    record {
      amounts = λ l.
          rw
            (
              offers,
              lstats,
              get_or-set no_lender_stats old.lender l stats s.lstats,
              changed id o s.offers (offered l) old found,
              own,
            )
            (elim (Bool-cases (old.lender == l)) [
              | inl same ↦ rw same (
                  (amount
                    ∙ ap (λ x. (load_lender_stats x s).total_offered +ℤ (o.amount -ℤ old.amount))
                        (ℕ_eq old.lender l same))
                  ∙ ap (λ x. x +ℤ (o.amount -ℤ old.amount)) (b.amounts l))
              | inr other ↦ rw other (b.amounts l ∙ sym (still (pos 0) _))
            ]);
      numbers = λ l.
          rw
            (
              offers,
              lstats,
              get_or-set no_lender_stats old.lender l stats s.lstats,
              changed id o s.offers (made l) old found,
              own,
              still (made l old) (sum_of (made l) s.offers),
            )
            (elim (Bool-cases (old.lender == l)) [
              | inl same ↦ rw same (
                  ap pos (
                    number
                    ∙ ap (λ x. (load_lender_stats x s).offers_pending) (ℕ_eq old.lender l same))
                  ∙ b.numbers l)
              | inr other ↦ rw other (b.numbers l)
            ]);
      count =
          rw (offers, count, changed id o s.offers one old found) (b.count ∙ sym (still (pos 1) _));
      free = fee ∙ b.free;
      governed = record {
        cfg = b.governed.cfg;
        stored = signers ∙ b.governed.stored;
        formed = b.governed.formed;
      };
    }
