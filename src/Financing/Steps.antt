-- ===== src/Financing/Steps.antt =====
-- Each entry point of financing/src/lib.rs on the statistics: what it writes.
use invofi_contracts.Prelude.{◌≡◌, refl, inl, inr, not, ◌&&◌, ◌||◌, some, Bool-cases, subst, List}
use invofi_contracts.Prelude.Lists.{is_empty}
use invofi_contracts.Prelude.Maps.{ℕ_key, get}
use invofi_contracts.Host.Outcome.{
  Address, Symbol, ok, Invocation, not_authorized, >>=-eq-ok, >>-eq-ok, guard-then, unwrap-eq-ok,
  ok-injective,
}
use invofi_contracts.Common.Types.{FinancingOffer, OfferStatus}
use invofi_contracts.Common.Domain.{NegotiationParty, NegotiationRecord}
use invofi_contracts.Common.Storage.{assert_not_paused}
use invofi_contracts.Financing.State.{
  Financing, get_offer, put_offer, load_negotiation, load_outcome,
}
use invofi_contracts.Financing.Offers.{close_negotiation_on_offer_exit, is_some, withdraw_offer}
use invofi_contracts.Financing.Acceptance.{end_negotiation}
use invofi_contracts.Financing.Negotiation.{Terms, record_round}
use invofi_contracts.Financing.Books.{
  IsBooked, still-IsBooked, same_sums, set-SameSums, counts_of_fields,
}

-- What the statistics depend on is the same, field by field.
pub record SameBooks (s s' : Financing) : Type 0 where
  pub offers : s'.offers ≡ s.offers
  pub lstats : s'.lstats ≡ s.lstats
  pub total : s'.stats.total_offers ≡ s.stats.total_offers
  pub fee : s'.feebps ≡ s.feebps
  pub signers : s'.store.admcfg ≡ s.store.admcfg

pub same_books :
    (s s' : Financing)
    → s'.offers ≡ s.offers
    → s'.lstats ≡ s.lstats
    → s'.stats.total_offers ≡ s.stats.total_offers
    → s'.feebps ≡ s.feebps
    → s'.store.admcfg ≡ s.store.admcfg
    → SameBooks s s'
same_books s s' offers lstats total fee signers = record {
  offers = offers;
  lstats = lstats;
  total = total;
  fee = fee;
  signers = signers;
}

pub books_kept : (s s' : Financing) → SameBooks s s' → IsBooked s → IsBooked s'
books_kept s s' k b =
    still-IsBooked s s' (rw k.offers (same_sums s.offers))
      (counts_of_fields s s' k.lstats k.total k.fee k.signers) b

pub exit-SameBooks :
    (id : Symbol) (who : Address) (s : Financing)
    → SameBooks s (close_negotiation_on_offer_exit id who s)
unfolding close_negotiation_on_offer_exit
exit-SameBooks id who s =
    elim (Bool-cases (is_empty (load_negotiation id s) || is_some (load_outcome id s))) [
      | inl closed ↦ rw closed (same_books _ _ refl refl refl refl refl)
      | inr running ↦ rw running (same_books _ _ refl refl refl refl refl)
    ]

pub end-SameBooks :
    (id : Symbol) (who : Address) (s : Financing) → SameBooks s (end_negotiation id who s)
unfolding end_negotiation
end-SameBooks id who s =
    elim (Bool-cases
      (not (is_empty (load_negotiation id s)) && not (is_some (load_outcome id s)))) [
        | inl running ↦ rw running (same_books _ _ refl refl refl refl refl)
        | inr ended ↦ rw ended (same_books _ _ refl refl refl refl refl)
      ]

pub round-SameBooks :
    (c : Invocation) (id : Symbol) (history : List NegotiationRecord) (party : NegotiationParty)
    (terms : Terms) (s : Financing)
    → SameBooks s (record_round c id history party terms s)
unfolding record_round
round-SameBooks c id history party terms s = elim (Bool-cases (is_empty history)) [
  | inl first ↦ rw first (same_books _ _ refl refl refl refl refl)
  | inr later ↦ rw later (same_books _ _ refl refl refl refl refl)
]

-- A stored offer is written with the same lender and amount.
pub IsBooked-rewritten :
    (s s' : Financing) (id : Symbol) (o o' : FinancingOffer)
    → get id s.offers ≡ some o
    → o'.lender ≡ o.lender
    → o'.amount ≡ o.amount
    → SameBooks (put_offer id o' s) s'
    → IsBooked s
    → IsBooked s'
IsBooked-rewritten s s' id o o' found lender amount k b =
    still-IsBooked s s' (rw k.offers (set-SameSums id o o' s.offers found lender amount))
      (counts_of_fields s s' k.lstats k.total k.fee k.signers) b

pub found_offer :
    (id : Symbol) (s : Financing) {o : FinancingOffer}
    → get_offer id s ≡ ok o
    → get id s.offers ≡ some o
unfolding get_offer
found_offer id s h = unwrap-eq-ok _ _ h

-- `withdraw_offer`
pub withdraw-IsBooked :
    (c : Invocation) (id : Symbol) (who : Address) (s : Financing) {o' : FinancingOffer}
    {s' : Financing}
    → withdraw_offer c id who s ≡ ok (o', s')
    → IsBooked s
    → IsBooked s'
unfolding withdraw_offer
withdraw-IsBooked c id who s {o'} {s'} h₀ b =
    let (_, h₁) = >>-eq-ok (assert_not_paused s.store) _ h₀ in
    let (_, h₂) = guard-then (c.auth who) not_authorized _ h₁ in
    let (o, found, h₃) = >>=-eq-ok (get_offer id s) _ h₂ in
    let (_, h₄) = >>-eq-ok _ _ h₃ in
    let (_, h₅) = >>-eq-ok _ _ h₄ in
    let withdrawn = record o { status = OfferStatus.rejected } in
    let k = exit-SameBooks id who (put_offer id withdrawn s) in
    subst (λ x. IsBooked x.1) (ok-injective _ _ h₅)
      (IsBooked-rewritten s _ id o withdrawn (found_offer id s found) refl refl
        (same_books _ _ k.offers k.lstats k.total k.fee k.signers) b)
