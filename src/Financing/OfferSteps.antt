-- ===== src/Financing/OfferSteps.antt =====
-- The other entry points of financing/src/lib.rs on the statistics.
use invofi_contracts.Prelude.{ℕ, ◌≡◌, refl, Bool, true, false, not, none, subst, arith}
use invofi_contracts.Prelude.Int.{ℤ, pos}
use invofi_contracts.Prelude.Maps.{ℕ_key, get, contains_key}
use invofi_contracts.Host.Outcome.{
  Address, Symbol, ok, Invocation, contract, already_exists, not_authorized, >>=-eq-ok, >>-eq-ok,
  guard-then, ok-injective, not-eq-true,
}
use invofi_contracts.Host.MachineLaws.{add_i128-either, add_u32-either}
use invofi_contracts.Common.Types.{FinancingOffer, OfferStatus}
use invofi_contracts.Common.Domain.{NegotiationStatus}
use invofi_contracts.Common.Storage.{assert_not_paused}
use invofi_contracts.Common.Clients.{RegistryClient}
use invofi_contracts.Financing.State.{Financing, load_lender_stats, get_offer, put_offer}
use invofi_contracts.Financing.Offers.{
  count_offer, create_offer, assert_not_blacklisted, assert_offer_terms, assert_offerable,
  load_invoice,
}
use invofi_contracts.Financing.Acceptance.{reject_offer}
use invofi_contracts.Financing.Rounds.{close_negotiation}
use invofi_contracts.Financing.Books.{IsBooked, still-IsBooked, same_sums, counts_of_stats}
use invofi_contracts.Financing.BookSteps.{get-absent, IsBooked-new}
use invofi_contracts.Host.Machine.{add_i128, add_u32}
use invofi_contracts.Common.Domain.{ScheduleFrequency, RepaymentSchedule}
use invofi_contracts.Financing.Callbacks.{
  assert_only_repayment, update_offer_status, update_offer_amount_repaid,
  update_lender_stats_repaid, update_stats_repaid,
}
use invofi_contracts.Financing.Schedules.{assert_plan, assert_live, installment, schedule_repayment}
use invofi_contracts.Financing.Rounds.{closing_outcome}
use invofi_contracts.Financing.Negotiation.{get_negotiation_status}
use invofi_contracts.Financing.Steps.{
  same_books, books_kept, exit-SameBooks, IsBooked-rewritten, found_offer,
}

-- A new offer is counted once.
counted-IsBooked :
    (id : Symbol) (o : FinancingOffer) (s : Financing) {s' : Financing}
    → get id s.offers ≡ none
    → count_offer o (put_offer id o s) ≡ ok s'
    → IsBooked s
    → IsBooked s'
unfolding count_offer
counted-IsBooked id o s absent h₀ b =
    let stats = load_lender_stats o.lender s in
    let (n, f, h₁) = >>=-eq-ok (add_u32 s.stats.total_offers 1) _ h₀ in
    let (total, g, h₂) = >>=-eq-ok (add_i128 stats.total_offered o.amount) _ h₁ in
    let (pending, k, h₃) = >>=-eq-ok (add_u32 stats.offers_pending 1) _ h₂ in
    subst IsBooked (ok-injective _ _ h₃) (
      IsBooked-new s _ id o (record stats { total_offered = total; offers_pending = pending })
        absent refl refl (ground (arith, add_i128-either stats.total_offered o.amount))
        (ground (arith, add_u32-either stats.offers_pending 1))
        (ground (arith, add_u32-either s.stats.total_offers 1)) refl refl b)

module _ {W : Type 0} (registry : RegistryClient W) where
  pub reject-IsBooked :
      (c : Invocation) (id : Symbol) (who : Address) (s : Financing) (w : W) {o' : FinancingOffer}
      {s' : Financing}
      → reject_offer registry c id who s w ≡ ok (o', s')
      → IsBooked s
      → IsBooked s'
  unfolding reject_offer
  reject-IsBooked c id who s w h₀ b =
      let (_, h₁) = >>-eq-ok (assert_not_paused s.store) _ h₀ in
      let (_, h₂) = guard-then (c.auth who) not_authorized _ h₁ in
      let (o, found, h₃) = >>=-eq-ok (get_offer id s) _ h₂ in
      let (_, h₄) = >>-eq-ok _ _ h₃ in
      let (invoice, _, h₅) = >>=-eq-ok (load_invoice registry o.invoice_id s w) _ h₄ in
      let (_, h₆) = >>-eq-ok _ _ h₅ in
      let rejected = record o { status = OfferStatus.rejected } in
      let k = exit-SameBooks id who (put_offer id rejected s) in
      subst (λ x. IsBooked x.1) (ok-injective _ _ h₆)
        (IsBooked-rewritten s _ id o rejected (found_offer id s found) refl refl
          (same_books _ _ k.offers k.lstats k.total k.fee k.signers) b)

  pub create-IsBooked :
      (c : Invocation) (id invoice_id : Symbol) (who : Address) (amt : ℤ) (currency : Symbol)
      (rate duration expires : ℕ) (s : Financing) (w : W) {o' : FinancingOffer} {s' : Financing}
      → create_offer registry c id invoice_id who amt currency rate duration expires s w
        ≡ ok (o', s')
      → IsBooked s
      → IsBooked s'
  unfolding create_offer
  create-IsBooked c id invoice_id who amt currency rate duration expires s w h₀ b =
      let (_, h₁) = >>-eq-ok (assert_not_paused s.store) _ h₀ in
      let (_, h₂) = guard-then (c.auth who) not_authorized _ h₁ in
      let (_, h₃) = >>-eq-ok (assert_not_blacklisted registry who s w) _ h₂ in
      let (_, h₄) = >>-eq-ok (assert_offer_terms amt rate duration) _ h₃ in
      let (invoice, _, h₅) = >>=-eq-ok (load_invoice registry invoice_id s w) _ h₄ in
      let (_, h₆) = >>-eq-ok (assert_offerable who amt invoice) _ h₅ in
      let (fresh, h₇) =
        guard-then (not (contains_key id s.offers)) (contract already_exists) _ h₆ in
      let absent = get-absent id s.offers (not-eq-true _ fresh) in
      let offer : FinancingOffer = record {
        id = id;
        invoice_id = invoice_id;
        lender = who;
        amount = amt;
        currency = currency;
        interest_rate = rate;
        duration = duration;
        expires_at = expires;
        status = OfferStatus.pending;
        funded_at = 0;
        amount_repaid = pos 0;
      } in
      let (s₁, counted, h₈) = >>=-eq-ok (count_offer offer (put_offer id offer s)) _ h₇ in
      let b₁ = counted-IsBooked id offer s absent counted b in
      subst (λ x. IsBooked x.1) (ok-injective _ _ h₈)
        (books_kept s₁ _ (same_books _ _ refl refl refl refl refl) b₁)

  pub schedule-IsBooked :
      (c : Invocation) (id : Symbol) (who : Address) (frequency : ScheduleFrequency)
      (count first_due : ℕ) (s : Financing) (w : W) {x : RepaymentSchedule} {s' : Financing}
      → schedule_repayment registry c id who frequency count first_due s w ≡ ok (x, s')
      → IsBooked s
      → IsBooked s'
  unfolding schedule_repayment
  schedule-IsBooked c id who frequency count first_due s w h₀ b =
      let (_, h₁) = >>-eq-ok (assert_not_paused s.store) _ h₀ in
      let (_, h₂) = guard-then (c.auth who) not_authorized _ h₁ in
      let (_, h₃) = >>-eq-ok (assert_plan c count first_due) _ h₂ in
      let (o, _, h₄) = >>=-eq-ok (get_offer id s) _ h₃ in
      let (_, h₅) = >>-eq-ok (assert_live o) _ h₄ in
      let (invoice, _, h₆) = >>=-eq-ok (load_invoice registry o.invoice_id s w) _ h₅ in
      let (_, h₇) = >>-eq-ok _ _ h₆ in
      let (amount, _, h₈) = >>=-eq-ok (installment o count) _ h₇ in
      let (_, h₉) = >>-eq-ok _ _ h₈ in
      subst (λ y. IsBooked y.1) (ok-injective _ _ h₉)
        (books_kept s _ (same_books _ _ refl refl refl refl refl) b)

  pub close-IsBooked :
      (c : Invocation) (id : Symbol) (who : Address) (s : Financing) (w : W) {x : NegotiationStatus}
      {s' : Financing}
      → close_negotiation registry c id who s w ≡ ok (x, s')
      → IsBooked s
      → IsBooked s'
  unfolding close_negotiation
  close-IsBooked c id who s w h₀ b =
      let (_, h₁) = >>-eq-ok (assert_not_paused s.store) _ h₀ in
      let (_, h₂) = guard-then (c.auth who) not_authorized _ h₁ in
      let (_, h₃) = >>-eq-ok _ _ h₂ in
      let (outcome, _, h₄) =
        >>=-eq-ok (closing_outcome registry (get_negotiation_status c id s) id who s w) _ h₃ in
      subst (λ y. IsBooked y.1) (ok-injective _ _ h₄)
        (books_kept s _ (same_books _ _ refl refl refl refl refl) b)

module _ (c : Invocation) where
  pub status-IsBooked :
      (id : Symbol) (status : OfferStatus) (s : Financing) {s' : Financing}
      → update_offer_status c id status s ≡ ok s'
      → IsBooked s
      → IsBooked s'
  unfolding update_offer_status
  status-IsBooked id status s h₀ b =
      let (_, h₁) = >>-eq-ok (assert_not_paused s.store) _ h₀ in
      let (_, h₂) = >>-eq-ok (assert_only_repayment c s) _ h₁ in
      let (o, found, h₃) = >>=-eq-ok (get_offer id s) _ h₂ in
      subst IsBooked (ok-injective _ _ h₃) (
        IsBooked-rewritten s _ id o (record o { status = status }) (found_offer id s found) refl
          refl (same_books _ _ refl refl refl refl refl) b)

  pub amount_repaid-IsBooked :
      (id : Symbol) (amt : ℤ) (s : Financing) {s' : Financing}
      → update_offer_amount_repaid c id amt s ≡ ok s'
      → IsBooked s
      → IsBooked s'
  unfolding update_offer_amount_repaid
  amount_repaid-IsBooked id amt s h₀ b =
      let (_, h₁) = >>-eq-ok (assert_not_paused s.store) _ h₀ in
      let (_, h₂) = >>-eq-ok (assert_only_repayment c s) _ h₁ in
      let (o, found, h₃) = >>=-eq-ok (get_offer id s) _ h₂ in
      subst IsBooked (ok-injective _ _ h₃) (
        IsBooked-rewritten s _ id o (record o { amount_repaid = amt }) (found_offer id s found) refl
          refl (same_books _ _ refl refl refl refl refl) b)

  pub lender_stats-IsBooked :
      (who : Address) (fully : Bool) (s : Financing) {s' : Financing}
      → update_lender_stats_repaid c who fully s ≡ ok s'
      → IsBooked s
      → IsBooked s'
  unfolding update_lender_stats_repaid
  lender_stats-IsBooked who true s h₀ b =
      let (_, h₁) = >>-eq-ok (assert_not_paused s.store) _ h₀ in
      let (_, h₂) = >>-eq-ok (assert_only_repayment c s) _ h₁ in
      let stats = load_lender_stats who s in
      let (n, _, h₃) = >>=-eq-ok (add_u32 stats.offers_repaid 1) _ h₂ in
      subst IsBooked (ok-injective _ _ h₃) (
        still-IsBooked s _ (same_sums s.offers)
          (counts_of_stats s _ who (record stats { offers_repaid = n }) refl refl refl refl refl
            refl)
          b)
  lender_stats-IsBooked who false s h₀ b =
      let (_, h₁) = >>-eq-ok (assert_not_paused s.store) _ h₀ in
      let (_, h₂) = >>-eq-ok (assert_only_repayment c s) _ h₁ in
      subst IsBooked (ok-injective _ _ h₂) (
        still-IsBooked s _ (same_sums s.offers)
          (counts_of_stats s _ who (load_lender_stats who s) refl refl refl refl refl refl) b)

  pub stats-IsBooked :
      (amt fee : ℤ) (s : Financing) {s' : Financing}
      → update_stats_repaid c amt fee s ≡ ok s'
      → IsBooked s
      → IsBooked s'
  unfolding update_stats_repaid
  stats-IsBooked amt fee s h₀ b =
      let (_, h₁) = >>-eq-ok (assert_not_paused s.store) _ h₀ in
      let (_, h₂) = >>-eq-ok (assert_only_repayment c s) _ h₁ in
      let (repaid, _, h₃) = >>=-eq-ok (add_i128 s.stats.total_repaid amt) _ h₂ in
      let (revenue, _, h₄) = >>=-eq-ok (add_i128 s.stats.total_fee_revenue fee) _ h₃ in
      subst IsBooked (ok-injective _ _ h₄)
        (books_kept s _ (same_books _ _ refl refl refl refl refl) b)
