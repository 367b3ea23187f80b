-- ===== src/Financing/SettlementSteps.antt =====
-- The settlement of financing/src/lib.rs, and the entry points that reach it, on the statistics.
use invofi_contracts.Prelude.{
  ℕ, ◌≡◌, refl, ap, ◌∙◌, inl, inr, Bool, true, false, some, Option-cases, ◌==◌, subst,
  if◌then◌else◌, arith,
}
use invofi_contracts.Prelude.Int.{◌+ℤ◌, ◌-ℤ◌}
use invofi_contracts.Prelude.Maps.{ℕ_key, get, set}
use invofi_contracts.Host.Outcome.{
  Address, Symbol, ok, Invocation, contract, unauthorized, panicked, unwrap, not_authorized,
  >>=-eq-ok, >>-eq-ok, guard-then, ok-injective,
}
use invofi_contracts.Host.Machine.{add_i128, sub_i128}
use invofi_contracts.Host.MachineLaws.{add_i128-either, sub_i128-either}
use invofi_contracts.Common.Types.{Invoice, FinancingOffer, OfferStatus}
use invofi_contracts.Common.Domain.{NegotiationParty}
use invofi_contracts.Common.Storage.{assert_not_paused, resolve_token}
use invofi_contracts.Common.Clients.{Token, RegistryClient}
use invofi_contracts.Financing.State.{Financing, load_lender_stats, get_offer, put_offer}
use invofi_contracts.Financing.Offers.{assert_not_blacklisted, load_invoice, assert_terms_valid}
use invofi_contracts.Financing.Acceptance.{
  end_negotiation, count_acceptance, mint_position, settle_acceptance, accept_offer,
  assert_not_expired,
}
use invofi_contracts.Financing.Negotiation.{
  Terms, same_terms, offer_terms, record_round, execute_agreement, assert_negotiable,
}
use invofi_contracts.Financing.Rounds.{
  write_terms, meets_counter, publish_round, amend_offer, counter_offer,
}
use invofi_contracts.Financing.Books.{
  IsBooked, SameCounts, still-IsBooked, same_sums, counts_of_stats,
}
use invofi_contracts.Financing.BookSteps.{IsBooked-amended}
use invofi_contracts.Financing.Steps.{
  SameBooks, same_books, books_kept, end-SameBooks, round-SameBooks, IsBooked-rewritten,
  found_offer,
}

pub count_acceptance-SameCounts :
    (o : FinancingOffer) (s : Financing) {s' : Financing}
    → count_acceptance o s ≡ ok s'
    → SameCounts s s' × (s'.offers ≡ s.offers)
unfolding count_acceptance
count_acceptance-SameCounts o s {s'} h₀ =
    let (financed, _, h₁) = >>=-eq-ok (add_i128 s.stats.total_financed o.amount) _ h₀ in
    let (accepted, _, h₂) =
      >>=-eq-ok (add_i128 (load_lender_stats o.lender s).total_accepted o.amount) _ h₁ in
    subst (λ x. SameCounts s x × (x.offers ≡ s.offers)) (ok-injective _ _ h₂)
      (
        counts_of_stats s _ o.lender
            (record (load_lender_stats o.lender s) { total_accepted = accepted }) refl refl refl
            refl refl refl,
        refl,
      )

module _ {W : Type 0} (token : Token W) where
  pub mint_position-SameBooks :
      (o : FinancingOffer) (s : Financing) (w : W) {out : Financing × W}
      → mint_position token o s w ≡ ok out
      → SameBooks s out.0
  unfolding mint_position
  mint_position-SameBooks o s w {out} h = elim (Option-cases s.postok) [
    | inl unset ↦
        subst (λ x. SameBooks s x.0) (ok-injective _ _ (rw unset at h))
          (same_books _ _ refl refl refl refl refl)
    | inr (pos_token, set) ↦
        let (w', _, k) = >>=-eq-ok (token.mint pos_token o.lender o.amount w) _ (rw set at h) in
        subst (λ x. SameBooks s x.0) (ok-injective _ _ k) (same_books _ _ refl refl refl refl refl)
  ]

-- The amendment moves the lender's total by the difference.
write_terms-IsBooked :
    (id : Symbol) (o : FinancingOffer) (terms : Terms) (s : Financing) {o' : FinancingOffer}
    {s' : Financing}
    → get id s.offers ≡ some o
    → write_terms id o terms s ≡ ok (o', s')
    → IsBooked s
    → IsBooked s'
unfolding write_terms
write_terms-IsBooked id o terms s found h₀ b =
    let stats = load_lender_stats o.lender s in
    let (delta, e, h₁) = >>=-eq-ok (sub_i128 terms.amount o.amount) _ h₀ in
    let (total, f, h₂) = >>=-eq-ok (add_i128 stats.total_offered delta) _ h₁ in
    let amended = record o {
      amount = terms.amount;
      interest_rate = terms.interest_rate;
      duration = terms.duration;
    } in
    let moved : delta ≡ terms.amount -ℤ o.amount =
      ground (arith, sub_i128-either terms.amount o.amount) in
    let sum : total ≡ stats.total_offered +ℤ delta =
      ground (arith, add_i128-either stats.total_offered delta) in
    subst (λ x. IsBooked x.1) (ok-injective _ _ h₂)
      (IsBooked-amended s _ id o amended (record stats { total_offered = total }) found refl refl
        refl (sum ∙ ap (λ x. stats.total_offered +ℤ x) moved) refl refl refl refl b)

books_then_counts :
    (s₁ s₂ s₃ : Financing)
    → SameBooks s₁ s₂
    → SameCounts s₂ s₃
    → s₃.offers ≡ s₂.offers
    → IsBooked s₁
    → IsBooked s₃
books_then_counts s₁ s₂ s₃ k counts same b =
    still-IsBooked s₂ s₃ (rw same (same_sums s₂.offers)) counts (books_kept s₁ s₂ k b)

module _ {W : Type 0} (token : Token W) (registry : RegistryClient W) where
  pub settle-IsBooked :
      (c : Invocation) (id : Symbol) (o : FinancingOffer) (ra : Address) (invoice : Invoice)
      (closer : Address) (s : Financing) (w : W) {o' : FinancingOffer} {s' : Financing} {w' : W}
      → get id s.offers ≡ some o
      → settle_acceptance token registry c id o ra invoice closer s w ≡ ok (o', s', w')
      → IsBooked s
      → IsBooked s'
  unfolding settle_acceptance
  settle-IsBooked c id o ra invoice closer s w found h₀ b =
      let accepted = record o { status = OfferStatus.accepted; funded_at = c.now } in
      let ended = end_negotiation id closer s in
      let s₁ = put_offer id accepted ended in
      let k = end-SameBooks id closer s in
      let b₁ : IsBooked s₁ =
        IsBooked-rewritten ended s₁ id o accepted (ap (get id) k.offers ∙ found) refl refl
          (same_books _ _ refl refl refl refl refl) (books_kept s ended k b) in
      let (ta, _, h₁) = >>=-eq-ok (resolve_token o.currency s₁.store) _ h₀ in
      let (w₁, _, h₂) =
        >>=-eq-ok (token.transfer_from ta c.self o.lender invoice.originator o.amount w) _ h₁ in
      let (marked, _, h₃) =
        >>=-eq-ok (registry.financing_marks_invoice_financed ra o.invoice_id w₁) _ h₂ in
      let (minted, e, h₄) = >>=-eq-ok (mint_position token accepted s₁ marked.1) _ h₃ in
      let (s₃, f, h₅) = >>=-eq-ok (count_acceptance accepted minted.0) _ h₄ in
      let (counts, same) = count_acceptance-SameCounts accepted minted.0 f in
      let b₃ =
        books_then_counts s₁ minted.0 s₃ (mint_position-SameBooks token accepted s₁ marked.1 e)
          counts same b₁ in
      subst (λ x. IsBooked x.1) (ok-injective _ _ h₅)
        (books_kept s₃ _ (same_books _ _ refl refl refl refl refl) b₃)

  pub accept-IsBooked :
      (c : Invocation) (id : Symbol) (who : Address) (s : Financing) (w : W) {o' : FinancingOffer}
      {s' : Financing} {w' : W}
      → accept_offer token registry c id who s w ≡ ok (o', s', w')
      → IsBooked s
      → IsBooked s'
  unfolding accept_offer
  accept-IsBooked c id who s w h₀ b =
      let (_, h₁) = >>-eq-ok (assert_not_paused s.store) _ h₀ in
      let (_, h₂) = guard-then (c.auth who) not_authorized _ h₁ in
      let (o, found, h₃) = >>=-eq-ok (get_offer id s) _ h₂ in
      let (_, h₄) = >>-eq-ok _ _ h₃ in
      let (_, h₅) = >>-eq-ok (assert_not_expired c o) _ h₄ in
      let (ra, _, h₆) = >>=-eq-ok (unwrap s.registry panicked) _ h₅ in
      let (invoice, _, h₇) = >>=-eq-ok (registry.get_invoice ra o.invoice_id w) _ h₆ in
      let (_, h₈) = >>-eq-ok _ _ h₇ in
      let (_, h₉) = >>-eq-ok _ _ h₈ in
      settle-IsBooked c id o ra invoice who s w (found_offer id s found) h₉ b

  agreement-IsBooked :
      (c : Invocation) (id : Symbol) (closer : Address) (s : Financing) (w : W)
      {o' : FinancingOffer} {s' : Financing} {w' : W}
      → execute_agreement token registry c id closer s w ≡ ok (o', s', w')
      → IsBooked s
      → IsBooked s'
  unfolding execute_agreement
  agreement-IsBooked c id closer s w h₀ b =
      let (o, found, h₁) = >>=-eq-ok (get_offer id s) _ h₀ in
      let (ra, _, h₂) = >>=-eq-ok (unwrap s.registry panicked) _ h₁ in
      let (invoice, _, h₃) = >>=-eq-ok (registry.get_invoice ra o.invoice_id w) _ h₂ in
      let (_, h₄) = >>-eq-ok _ _ h₃ in
      let (_, h₅) = >>-eq-ok (assert_not_expired c o) _ h₄ in
      let (_, h₆) = >>-eq-ok (assert_not_blacklisted registry o.lender s w) _ h₅ in
      let (_, h₇) = >>-eq-ok (assert_not_blacklisted registry invoice.originator s w) _ h₆ in
      settle-IsBooked c id o ra invoice closer s w (found_offer id s found) h₇ b

  -- The last step of a round: it settles if the terms agree.
  concluded :
      (agreed : Bool) (c : Invocation) (id : Symbol) (who : Address) (o : FinancingOffer)
      (s : Financing) (w : W) {o' : FinancingOffer} {s' : Financing} {w' : W}
      → (if agreed then execute_agreement token registry c id who s w else ok (o, s, w))
        ≡ ok (o', s', w')
      → IsBooked s
      → IsBooked s'
  concluded true c id who o s w h b = agreement-IsBooked c id who s w h b
  concluded false c id who o s w h b = subst (λ x. IsBooked x.1) (ok-injective _ _ h) b

  pub counter-IsBooked :
      (c : Invocation) (id : Symbol) (who : Address) (round : ℕ) (terms : Terms) (s : Financing)
      (w : W) {o' : FinancingOffer} {s' : Financing} {w' : W}
      → counter_offer token registry c id who round terms s w ≡ ok (o', s', w')
      → IsBooked s
      → IsBooked s'
  unfolding counter_offer
  counter-IsBooked c id who round terms s w h₀ b =
      let (_, h₁) = >>-eq-ok (assert_not_paused s.store) _ h₀ in
      let (_, h₂) = guard-then (c.auth who) not_authorized _ h₁ in
      let (_, h₃) = >>-eq-ok (assert_not_blacklisted registry who s w) _ h₂ in
      let (_, h₄) =
        >>-eq-ok (assert_terms_valid terms.amount terms.interest_rate terms.duration) _ h₃ in
      let (o, found, h₅) = >>=-eq-ok (get_offer id s) _ h₄ in
      let (invoice, _, h₆) = >>=-eq-ok (load_invoice registry o.invoice_id s w) _ h₅ in
      let (_, h₇) = guard-then (invoice.originator == who) (contract unauthorized) _ h₆ in
      let (history, _, h₈) = >>=-eq-ok (assert_negotiable c id o round s) _ h₇ in
      let s₁ = record_round c id history NegotiationParty.originator terms s in
      let k = round-SameBooks c id history NegotiationParty.originator terms s in
      let s₂ = publish_round "ctr_off" id who terms s₁ in
      let b₂ : IsBooked s₂ =
        books_kept s₁ s₂ (same_books _ _ refl refl refl refl refl) (books_kept s s₁ k b) in
      concluded (same_terms terms (offer_terms o)) c id who o s₂ w h₈ b₂

  pub amend-IsBooked :
      (c : Invocation) (id : Symbol) (who : Address) (round : ℕ) (terms : Terms) (s : Financing)
      (w : W) {o' : FinancingOffer} {s' : Financing} {w' : W}
      → amend_offer token registry c id who round terms s w ≡ ok (o', s', w')
      → IsBooked s
      → IsBooked s'
  unfolding amend_offer
  amend-IsBooked c id who round terms s w h₀ b =
      let (_, h₁) = >>-eq-ok (assert_not_paused s.store) _ h₀ in
      let (_, h₂) = guard-then (c.auth who) not_authorized _ h₁ in
      let (_, h₃) = >>-eq-ok (assert_not_blacklisted registry who s w) _ h₂ in
      let (_, h₄) =
        >>-eq-ok (assert_terms_valid terms.amount terms.interest_rate terms.duration) _ h₃ in
      let (o, found, h₅) = >>=-eq-ok (get_offer id s) _ h₄ in
      let (_, h₆) = guard-then (o.lender == who) (contract unauthorized) _ h₅ in
      let (history, _, h₇) = >>=-eq-ok (assert_negotiable c id o round s) _ h₆ in
      let (x, e, h₈) = >>=-eq-ok (write_terms id o terms s) _ h₇ in
      let b₁ = write_terms-IsBooked id o terms s (found_offer id s found) e b in
      let s₂ = record_round c id history NegotiationParty.lender terms x.1 in
      let k = round-SameBooks c id history NegotiationParty.lender terms x.1 in
      let s₃ = publish_round "off_amd" id who terms s₂ in
      let b₃ : IsBooked s₃ =
        books_kept s₂ s₃ (same_books _ _ refl refl refl refl refl) (books_kept x.1 s₂ k b₁) in
      concluded (meets_counter history terms) c id who x.0 s₃ w h₈ b₃
