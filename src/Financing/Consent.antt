-- ===== src/Financing/Consent.antt =====
-- The agreement that `amend_offer` and `counter_offer` of financing/src/lib.rs settle on.
use invofi_contracts.Prelude.{
  ℕ, ◌≡◌, refl, sym, ap, ◌∙◌, inl, inr, Bool, true, false, some, Option-cases, ltb, ◌==◌, ==→≡,
  subst, if◌then◌else◌, List, arith,
}
use invofi_contracts.Prelude.Maps.{ℕ_key, get}
use invofi_contracts.Host.Outcome.{
  Address, Symbol, ok, ◌>>=◌, ◌>>◌, Invocation, contract, unauthorized, invalid_transition,
  panicked, guard, unwrap, not_authorized, >>=-eq-ok, >>-eq-ok, guard-then, ok-injective,
}
use invofi_contracts.Host.Machine.{add_i128, sub_i128}
use invofi_contracts.Common.Types.{Invoice, InvoiceStatus, FinancingOffer, OfferStatus}
use invofi_contracts.Common.Domain.{NegotiationParty, NegotiationRecord}
use invofi_contracts.Common.Storage.{assert_not_paused}
use invofi_contracts.Common.Clients.{Token, RegistryClient}
use invofi_contracts.Financing.State.{Financing, load_lender_stats, get_offer, load_negotiation}
use invofi_contracts.Financing.Offers.{assert_not_blacklisted, assert_terms_valid}
use invofi_contracts.Financing.Acceptance.{settle_acceptance, assert_not_expired}
use invofi_contracts.Financing.Negotiation.{
  Terms, same_terms, record_round, execute_agreement, assert_negotiable,
}
use invofi_contracts.Financing.Rounds.{write_terms, meets_counter, publish_round, amend_offer}
use invofi_contracts.Prelude.{==_refl, ◌⊎◌, ◌<◌}
use invofi_contracts.Common.Statuses.{
  is_invoice_status, is_offer_status, is_invoice_status→≡, is_offer_status→≡,
}
use invofi_contracts.Prelude.MapLaws.{get-set}
use invofi_contracts.Common.Storage.{contract_is_paused}
use invofi_contracts.Financing.Steps.{found_offer}
use invofi_contracts.Prelude.Int.{eq_of_parts}
use invofi_contracts.Financing.Negotiation.{
  record_terms, last_proposal_by, is_negotiable, get_negotiation_status,
}
use invofi_contracts.Common.Domain.{max_negotiation_rounds}
use invofi_contracts.Host.Outcome.{invalid_input}
use invofi_contracts.Prelude.Lists.{length}
use invofi_contracts.Financing.Steps.{round-SameBooks}
use invofi_contracts.Financing.Proposals.{IsLatest, last_proposal_by-IsLatest}
use invofi_contracts.Financing.Settling.{unpaused, not_expired, IsSettled, settle-IsSettled}

false-true : false ≡ true → ⊥
false-true h = cc

same_terms→≡ : (a b : Terms) → same_terms a b ≡ true → a ≡ b
same_terms→≡ a b h =
    let amounts : a.amount ≡ b.amount = ground (arith, eq_of_parts a.amount b.amount) in
    let rates : a.interest_rate ≡ b.interest_rate = ground arith in
    let durations : a.duration ≡ b.duration = ground arith in
    λ i. record { amount = amounts i; interest_rate = rates i; duration = durations i }

meets_counter-IsLatest :
    (history : List NegotiationRecord) (terms : Terms)
    → meets_counter history terms ≡ true
    → (r : NegotiationRecord) × IsLatest NegotiationParty.originator history r
      × (record_terms r ≡ terms)
unfolding meets_counter
meets_counter-IsLatest history terms h =
    elim (Option-cases (last_proposal_by history NegotiationParty.originator)) [
      | inl silent ↦ absurd (false-true (rw (silent, meets_counter) at h))
      | inr (r, e) ↦ (
        r,
        last_proposal_by-IsLatest history NegotiationParty.originator e,
        same_terms→≡ (record_terms r) terms (rw (e, meets_counter) at h),
      )
    ]

-- The offer on other terms.
abbrev pub with_terms : FinancingOffer → Terms → FinancingOffer
with_terms o terms = record o {
  amount = terms.amount;
  interest_rate = terms.interest_rate;
  duration = terms.duration;
}

write_terms-stored :
    (id : Symbol) (o : FinancingOffer) (terms : Terms) (s : Financing)
    {x : FinancingOffer × Financing}
    → write_terms id o terms s ≡ ok x
    → (x.0 ≡ with_terms o terms) × (get id x.1.offers ≡ some (with_terms o terms))
unfolding write_terms
write_terms-stored id o terms s {x} h₀ =
    let stats = load_lender_stats o.lender s in
    let (delta, _, h₁) = >>=-eq-ok (sub_i128 terms.amount o.amount) _ h₀ in
    let (total, _, h₂) = >>=-eq-ok (add_i128 stats.total_offered delta) _ h₁ in
    let e = ok-injective _ _ h₂ in
    (
      sym (ap (λ y. y.0) e),
      ap (λ y. get id y.1.offers) (sym e)
          ∙ (get-set id id (with_terms o terms) s.offers ∙ rw (==_refl id) refl),
    )

negotiable :
    (c : Invocation) (id : Symbol) (o : FinancingOffer) (round : ℕ) (s : Financing)
    {history : List NegotiationRecord}
    → assert_negotiable c id o round s ≡ ok history
    → (o.status ≡ OfferStatus.pending) × (history ≡ load_negotiation id s)
unfolding assert_negotiable
negotiable c id o round s {history} h₀ =
    let (waiting, h₁) =
      guard-then (is_offer_status o.status OfferStatus.pending) (contract invalid_transition) _
        h₀ in
    let (_, h₂) =
      guard-then (is_negotiable (get_negotiation_status c id s)) (contract invalid_transition) _
        h₁ in
    let (_, h₃) =
      guard-then (length (load_negotiation id s) == round) (contract invalid_input) _ h₂ in
    let (_, h₄) =
      guard-then (ltb (length (load_negotiation id s)) max_negotiation_rounds)
        (contract invalid_transition) _ h₃ in
    (is_offer_status→≡ _ _ waiting, sym (ok-injective _ _ h₄))

module _ {W : Type 0} (token : Token W) (registry : RegistryClient W) where
  -- What an agreement has settled.
  pub record IsAgreed (c : Invocation) (id : Symbol) (o : FinancingOffer) (s' : Financing) (w : W)
      : Type 0 where
    pub ra : Address
    pub invoice : Invoice
    pub known : registry.get_invoice ra o.invoice_id w ≡ ok invoice
    pub waiting : invoice.status ≡ InvoiceStatus.pending
    pub fresh : (o.expires_at ≡ 0) ⊎ (c.now < o.expires_at)
    pub settled : IsSettled token registry c id o ra invoice s' w

  agreement-IsAgreed :
      (c : Invocation) (id : Symbol) (closer : Address) (s : Financing) (w : W) {o : FinancingOffer}
      {o' : FinancingOffer} {s' : Financing} {w' : W}
      → get id s.offers ≡ some o
      → execute_agreement token registry c id closer s w ≡ ok (o', s', w')
      → IsAgreed c id o s' w
  unfolding execute_agreement get_offer
  agreement-IsAgreed c id closer s w {o} {o'} {s'} {w'} found h =
      let h₁ : (do
        ra ← unwrap s.registry panicked
        invoice ← registry.get_invoice ra o.invoice_id w
        guard (is_invoice_status invoice.status InvoiceStatus.pending) (contract invalid_transition)
        assert_not_expired c o
        assert_not_blacklisted registry o.lender s w
        assert_not_blacklisted registry invoice.originator s w
        settle_acceptance token registry c id o ra invoice closer s w)
          ≡ ok (o', s', w') =
        rw found at h in
      let (ra, _, h₂) = >>=-eq-ok (unwrap s.registry panicked) _ h₁ in
      let (invoice, known, h₃) = >>=-eq-ok (registry.get_invoice ra o.invoice_id w) _ h₂ in
      let (waiting, h₄) =
        guard-then (is_invoice_status invoice.status InvoiceStatus.pending)
          (contract invalid_transition) _ h₃ in
      let (fresh, h₅) = >>-eq-ok (assert_not_expired c o) _ h₄ in
      let (_, h₆) = >>-eq-ok (assert_not_blacklisted registry o.lender s w) _ h₅ in
      let (_, h₇) = >>-eq-ok (assert_not_blacklisted registry invoice.originator s w) _ h₆ in
      record {
        ra = ra;
        invoice = invoice;
        known = known;
        waiting = is_invoice_status→≡ _ _ waiting;
        fresh = not_expired c o fresh;
        settled = (settle-IsSettled token registry c id o ra invoice closer s w h₇).0;
      }

  -- The last step of a round: the offer stays, or it was settled because the terms agree.
  concluded-IsAgreed :
      (agreed : Bool) (c : Invocation) (id : Symbol) (who : Address) (o : FinancingOffer)
      (s : Financing) (w : W) {o' : FinancingOffer} {s' : Financing} {w' : W}
      → get id s.offers ≡ some o
      → (if agreed then execute_agreement token registry c id who s w else ok (o, s, w))
        ≡ ok (o', s', w')
      → ((agreed ≡ true) × IsAgreed c id o s' w)
        ⊎ ((agreed ≡ false) × (o' ≡ o) × (get id s'.offers ≡ some o))
  concluded-IsAgreed true c id who o s w found h =
      inl (refl, agreement-IsAgreed c id who s w found h)
  concluded-IsAgreed false c id who o s w found h =
      let e = ok-injective _ _ h in
      inr (refl, sym (ap (λ x. x.0) e), ap (λ x. get id x.1.offers) (sym e) ∙ found)

  -- A successful `amend_offer` was authorized by the lender of a stored Pending offer while the
  -- contract was not paused. Either the offer is stored with the new terms and stays Pending, or it
  -- is settled on the new terms, and then they are exactly those of the originator's latest recorded
  -- round, the registry reports the invoice as Pending, and the offer's deadline, if any, has not
  -- passed.
  pub amend_offer_consent :
      (c : Invocation) (id : Symbol) (who : Address) (round : ℕ) (terms : Terms) (s : Financing)
      (w : W) {o' : FinancingOffer} {s' : Financing} {w' : W}
      → amend_offer token registry c id who round terms s w ≡ ok (o', s', w')
      → (contract_is_paused s.store ≡ false)
        × (c.auth who ≡ true)
        × ((o : FinancingOffer) × (get id s.offers ≡ some o)
            × (o.lender ≡ who)
            × (o.status ≡ OfferStatus.pending)
            × (((o' ≡ with_terms o terms) × (get id s'.offers ≡ some (with_terms o terms)))
                ⊎ ((r : NegotiationRecord) × IsLatest NegotiationParty.originator
                      (load_negotiation id s)
                      r
                    × (record_terms r ≡ terms)
                    × IsAgreed c id (with_terms o terms) s' w)))
  unfolding amend_offer
  amend_offer_consent c id who round terms s w {o'} {s'} {w'} h₀ =
      let (running, h₁) = >>-eq-ok (assert_not_paused s.store) _ h₀ in
      let (authorized, h₂) = guard-then (c.auth who) not_authorized _ h₁ in
      let (_, h₃) = >>-eq-ok (assert_not_blacklisted registry who s w) _ h₂ in
      let (_, h₄) =
        >>-eq-ok (assert_terms_valid terms.amount terms.interest_rate terms.duration) _ h₃ in
      let (o, found, h₅) = >>=-eq-ok (get_offer id s) _ h₄ in
      let (own, h₆) = guard-then (o.lender == who) (contract unauthorized) _ h₅ in
      let (history, e, h₇) = >>=-eq-ok (assert_negotiable c id o round s) _ h₆ in
      let (x, f, h₈) = >>=-eq-ok (write_terms id o terms s) _ h₇ in
      let s₂ = record_round c id history NegotiationParty.lender terms x.1 in
      let k = round-SameBooks c id history NegotiationParty.lender terms x.1 in
      let s₃ = publish_round "off_amd" id who terms s₂ in
      let (amended, stored) = write_terms-stored id o terms s f in
      let (waiting, kept) = negotiable c id o round s e in
      let here : get id s₃.offers ≡ some x.0 =
        ap (get id) k.offers ∙ (stored ∙ ap some (sym amended)) in
      (
        unpaused s running,
        authorized,
        (
          o,
          found_offer id s found,
          ==→≡ _ _ own,
          waiting,
          elim (concluded-IsAgreed (meets_counter history terms) c id who x.0 s₃ w here h₈) [
            | inr (_, same, after) ↦ inl (same ∙ amended, after ∙ ap some amended)
            | inl (met, agreed) ↦
                let (r, latest, equal) = meets_counter-IsLatest history terms met in
                inr (
                  r,
                  subst (λ xs. IsLatest NegotiationParty.originator xs r) kept latest,
                  equal,
                  subst (λ z. IsAgreed c id z s' w) amended agreed,
                )
          ],
        ),
      )
