-- ===== src/Protocol/Crediting.antt =====
-- What the updates of `repay_invoice` of repayment/src/lib.rs leave in the contract of
-- financing/src/lib.rs.
use invofi_contracts.Prelude.{
  ◌≡◌, refl, ap, ◌∙◌, subst, Bool, true, false, some, if◌then◌else◌, ==_refl, arith,
}
use invofi_contracts.Prelude.Int.{ℤ, ◌+ℤ◌}
use invofi_contracts.Prelude.Maps.{ℕ_key, get}
use invofi_contracts.Prelude.MapLaws.{get-set}
use invofi_contracts.Host.Outcome.{
  Address, Symbol, Result, ok, ◌>>=◌, Invocation, >>=-eq-ok, >>-eq-ok, ok-injective,
}
use invofi_contracts.Host.Machine.{add_i128, add_u32}
use invofi_contracts.Host.MachineLaws.{add_i128-either}
use invofi_contracts.Common.Types.{FinancingOffer, OfferStatus}
use invofi_contracts.Common.Storage.{assert_not_paused}
use invofi_contracts.Financing.State.{Financing, get_offer, load_lender_stats}
use invofi_contracts.Financing.Callbacks.{
  assert_only_repayment, update_offer_status, update_offer_amount_repaid,
  update_lender_stats_repaid, update_stats_repaid,
}
use invofi_contracts.Financing.Books.{IsBooked}
use invofi_contracts.Financing.OfferSteps.{
  status-IsBooked, amount_repaid-IsBooked, lender_stats-IsBooked, stats-IsBooked,
}
use invofi_contracts.Repayment.Repay.{update_offer}
use invofi_contracts.Repayment.Owed.{Split}
use invofi_contracts.Protocol.Links.{nested, financing_client}

-- What the four updates leave of the offer.
module _ (c : Invocation) where
  status_written :
      (id : Symbol) (status : OfferStatus) (s : Financing) {s' : Financing} {o : FinancingOffer}
      → get id s.offers ≡ some o
      → update_offer_status c id status s ≡ ok s'
      → (get id s'.offers ≡ some (record o { status = status })) × (s'.stats ≡ s.stats)
  unfolding update_offer_status get_offer
  status_written id status s {s'} {o} found h₀ =
      let (_, h₁) = >>-eq-ok (assert_not_paused s.store) _ h₀ in
      let (_, h₂) = >>-eq-ok (assert_only_repayment c s) _ h₁ in
      let k = ok-injective _ _ (rw found at h₂) in
      subst (λ x. (get id x.offers ≡ some (record o { status = status })) × (x.stats ≡ s.stats)) k
        (get-set id id (record o { status = status }) s.offers ∙ rw (==_refl id) refl, refl)

  amount_written :
      (id : Symbol) (amt : ℤ) (s : Financing) {s' : Financing} {o : FinancingOffer}
      → get id s.offers ≡ some o
      → update_offer_amount_repaid c id amt s ≡ ok s'
      → (get id s'.offers ≡ some (record o { amount_repaid = amt })) × (s'.stats ≡ s.stats)
  unfolding update_offer_amount_repaid get_offer
  amount_written id amt s {s'} {o} found h₀ =
      let (_, h₁) = >>-eq-ok (assert_not_paused s.store) _ h₀ in
      let (_, h₂) = >>-eq-ok (assert_only_repayment c s) _ h₁ in
      let k = ok-injective _ _ (rw found at h₂) in
      subst (λ x. (get id x.offers ≡ some (record o { amount_repaid = amt })) × (x.stats ≡ s.stats))
        k (get-set id id (record o { amount_repaid = amt }) s.offers ∙ rw (==_refl id) refl, refl)

  lender_stats_kept :
      (who : Address) (fully : Bool) (s : Financing) {s' : Financing}
      → update_lender_stats_repaid c who fully s ≡ ok s'
      → (s'.offers ≡ s.offers) × (s'.stats ≡ s.stats)
  unfolding update_lender_stats_repaid
  lender_stats_kept who true s h₀ =
      let (_, h₁) = >>-eq-ok (assert_not_paused s.store) _ h₀ in
      let (_, h₂) = >>-eq-ok (assert_only_repayment c s) _ h₁ in
      let (n, _, h₃) = >>=-eq-ok (add_u32 (load_lender_stats who s).offers_repaid 1) _ h₂ in
      subst (λ x. (x.offers ≡ s.offers) × (x.stats ≡ s.stats)) (ok-injective _ _ h₃) (refl, refl)
  lender_stats_kept who false s h₀ =
      let (_, h₁) = >>-eq-ok (assert_not_paused s.store) _ h₀ in
      let (_, h₂) = >>-eq-ok (assert_only_repayment c s) _ h₁ in
      subst (λ x. (x.offers ≡ s.offers) × (x.stats ≡ s.stats)) (ok-injective _ _ h₂) (refl, refl)

  totals_moved :
      (amt fee : ℤ) (s : Financing) {s' : Financing}
      → update_stats_repaid c amt fee s ≡ ok s'
      → (s'.offers ≡ s.offers)
        × (s'.stats.total_repaid ≡ s.stats.total_repaid +ℤ amt)
        × (s'.stats.total_fee_revenue ≡ s.stats.total_fee_revenue +ℤ fee)
  unfolding update_stats_repaid
  totals_moved amt fee s {s'} h₀ =
      let (_, h₁) = >>-eq-ok (assert_not_paused s.store) _ h₀ in
      let (_, h₂) = >>-eq-ok (assert_only_repayment c s) _ h₁ in
      let (repaid, e, h₃) = >>=-eq-ok (add_i128 s.stats.total_repaid amt) _ h₂ in
      let (revenue, f, h₄) = >>=-eq-ok (add_i128 s.stats.total_fee_revenue fee) _ h₃ in
      subst
        (λ x.
          (x.offers ≡ s.offers)
          × (x.stats.total_repaid ≡ s.stats.total_repaid +ℤ amt)
          × (x.stats.total_fee_revenue ≡ s.stats.total_fee_revenue +ℤ fee))
        (ok-injective _ _ h₄)
        (
          refl,
          ground (arith, add_i128-either s.stats.total_repaid amt),
          ground (arith, add_i128-either s.stats.total_fee_revenue fee),
        )

-- A call of the financing contract that returns is one of its entry points that returned.
called :
    {S U : Type 0} (r : Result S) (u : U) {w : S × U} → (r >>= λ s. ok (s, u)) ≡ ok w → r ≡ ok w.0
called r u h = let (s, e, k) = >>=-eq-ok r _ h in e ∙ ap (λ x. ok (x.0)) (ok-injective _ _ k)

pub update_offer_stored :
    {U : Type 0} (c : Invocation) (addr : Address) (id : Symbol) (offer : FinancingOffer)
    (full : Bool) (amt : ℤ) (parts : Split) (w : Financing × U) {w' : Financing × U}
    → get id w.0.offers ≡ some offer
    → update_offer (financing_client c) addr id offer full amt parts w ≡ ok w'
    → IsBooked w.0
    → IsBooked w'.0
      × (get id w'.0.offers
          ≡ some (record offer {
            status = if full then OfferStatus.repaid else OfferStatus.financed;
            amount_repaid = offer.amount_repaid +ℤ parts.principal;
          }))
      × (w'.0.stats.total_repaid ≡ w.0.stats.total_repaid +ℤ amt)
      × (w'.0.stats.total_fee_revenue ≡ w.0.stats.total_fee_revenue +ℤ parts.fee)
unfolding update_offer financing_client
update_offer_stored c addr id offer full amt parts w found h₀ b =
    let n = nested c addr in
    let status = if full then OfferStatus.repaid else OfferStatus.financed in
    let (total, e, h₁) = >>=-eq-ok (add_i128 offer.amount_repaid parts.principal) _ h₀ in
    let sum : total ≡ offer.amount_repaid +ℤ parts.principal =
      ground (arith, add_i128-either offer.amount_repaid parts.principal) in
    let (w₁, f₁, h₂) = >>=-eq-ok (update_offer_status n id status w.0 >>= λ s. ok (s, w.1)) _ h₁ in
    let g₁ = called _ _ f₁ in
    let (o₁, t₁) = status_written n id status w.0 found g₁ in
    let (w₂, f₂, h₃) =
      >>=-eq-ok (update_offer_amount_repaid n id total w₁.0 >>= λ s. ok (s, w₁.1)) _ h₂ in
    let g₂ = called _ _ f₂ in
    let (o₂, t₂) = amount_written n id total w₁.0 o₁ g₂ in
    let (w₃, f₃, h₄) =
      >>=-eq-ok (update_lender_stats_repaid n offer.lender full w₂.0 >>= λ s. ok (s, w₂.1)) _ h₃ in
    let g₃ = called _ _ f₃ in
    let (o₃, t₃) = lender_stats_kept n offer.lender full w₂.0 g₃ in
    let g₄ = called (update_stats_repaid n amt parts.fee w₃.0) _ h₄ in
    let (o₄, repaid, revenue) = totals_moved n amt parts.fee w₃.0 g₄ in
    let b₂ = amount_repaid-IsBooked n id total w₁.0 g₂ (status-IsBooked n id status w.0 g₁ b) in
    let b₄ =
      stats-IsBooked n amt parts.fee w₃.0 g₄
        (lender_stats-IsBooked n offer.lender full w₂.0 g₃ b₂) in
    let kept : w₃.0.stats ≡ w.0.stats = t₃ ∙ (t₂ ∙ t₁) in
    (
      b₄,
      (ap (get id) o₄ ∙ (ap (get id) o₃ ∙ o₂))
          ∙ ap (λ z. some (record offer { status = status; amount_repaid = z })) sum,
      repaid ∙ ap (λ x. x.total_repaid +ℤ amt) kept,
      revenue ∙ ap (λ x. x.total_fee_revenue +ℤ parts.fee) kept,
    )
