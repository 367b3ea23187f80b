-- ===== src/Repayment/Loans.antt =====
-- What `repay_invoice` of repayment/src/lib.rs has read of the loan, and what is owed on it, in closed
-- form.
use invofi_contracts.Prelude.{
  ℕ, zero, suc, ◌-◌, ◌*◌, ◌/◌, ◌≤◌, ◌≡◌, refl, ap, sym, ◌∙◌, inl, inr, some, List, [], ◌∷◌, leb,
  ◌==◌, Bool-cases, ==→≡, arith, subst,
}
use invofi_contracts.Prelude.Lists.{length}
use invofi_contracts.Prelude.Int.{
  ℤ, pos, negsuc, ◌<ℤ◌, ◌+ℤ◌, ◌-ℤ◌, ◌*ℤ◌, quot, max_ℤ, ltb_ℤ, int_laws, quot-pos,
}
use invofi_contracts.Host.Outcome.{
  Address, Symbol, ok, Invocation, >>=-eq-ok, guard-then, ok-injective, contract,
  invalid_transition,
}
use invofi_contracts.Host.Machine.{saturating_mul_i128, add_i128}
use invofi_contracts.Host.MachineLaws.{
  add_i128-either, sub_i128-either, mul_i128-either, sub_unsigned-either,
}
use invofi_contracts.Common.Types.{Invoice, FinancingOffer, PaymentRecord}
use invofi_contracts.Common.Storage.{resolve_token}
use invofi_contracts.Common.Clients.{RegistryClient, FinancingClient}
use invofi_contracts.Repayment.State.{
  Repayment, secs_per_day, max_payments_per_invoice, load_payments, load_penalty_config,
}
use invofi_contracts.Repayment.Interest.{
  accrued_penalty, pro_rata_interest, principal_loop, total_principal_repaid, frozen_base,
  days_since_funded, remaining_principal, penalty_due,
}
use invofi_contracts.Repayment.Formulas.{saturated, saturating_mul-pos}
use invofi_contracts.Repayment.Owed.{Obligation, obligation}
use invofi_contracts.Repayment.Repay.{Reading}
use invofi_contracts.Repayment.Settled.{Checked}

-- The principal of the first `n` payments.
abbrev pub principal_of : ℕ → List PaymentRecord → ℤ
principal_of zero payments = pos 0
principal_of (suc n) [] = pos 0
principal_of (suc n) (payment ∷ rest) = payment.principal_paid +ℤ principal_of n rest

no_more : (z : ℤ) → z ≡ z +ℤ pos 0
no_more z = omega int_laws

regroup : (a b d : ℤ) → a +ℤ b +ℤ d ≡ a +ℤ (b +ℤ d)
regroup a b d = omega int_laws

principal_loop-sum :
    (n : ℕ) (total : ℤ) (payments : List PaymentRecord) {r : ℤ}
    → principal_loop n total payments ≡ ok r
    → r ≡ total +ℤ principal_of n payments
unfolding principal_loop
principal_loop-sum zero total payments h = sym (ok-injective _ _ h) ∙ no_more total
principal_loop-sum (suc n) total [] h = sym (ok-injective _ _ h) ∙ no_more total
principal_loop-sum (suc n) total (payment ∷ rest) h =
    let (t, e, k) = >>=-eq-ok (add_i128 total payment.principal_paid) _ h in
    let sum : t ≡ total +ℤ payment.principal_paid =
      ground (arith, add_i128-either total payment.principal_paid) in
    principal_loop-sum n t rest k
    ∙ (ap (λ z. z +ℤ principal_of n rest) sum
        ∙ regroup total payment.principal_paid (principal_of n rest))

principal_of-all :
    (n m : ℕ) (payments : List PaymentRecord)
    → length payments ≤ n
    → length payments ≤ m
    → principal_of n payments ≡ principal_of m payments
principal_of-all zero zero payments h k = refl
principal_of-all zero (suc m) [] h k = refl
principal_of-all (suc n) zero [] h k = refl
principal_of-all (suc n) (suc m) [] h k = refl
principal_of-all zero m (payment ∷ rest) h k = absurd (omega (arith, h))
principal_of-all (suc n) zero (payment ∷ rest) h k = absurd (omega (arith, k))
principal_of-all (suc n) (suc m) (payment ∷ rest) h k =
    ap (λ z. payment.principal_paid +ℤ z) (principal_of-all n m rest (omega arith) (omega arith))

no_offset : (z : ℤ) → pos 0 +ℤ z ≡ z
no_offset z = omega int_laws

principal_repaid :
    (payments : List PaymentRecord) {r : ℤ}
    → total_principal_repaid payments ≡ ok r
    → r ≡ principal_of max_payments_per_invoice payments
unfolding total_principal_repaid
principal_repaid payments {r} h =
    let n = length payments in
    elim (Bool-cases (leb n max_payments_per_invoice)) [
      | inr more ↦
          principal_loop-sum max_payments_per_invoice (pos 0) payments (rw more at h) ∙ no_offset _
      | inl few ↦
          (principal_loop-sum n (pos 0) payments (rw few at h) ∙ no_offset _)
          ∙ principal_of-all n max_payments_per_invoice payments (omega arith) (ground arith)
    ]

-- The early returns of `pro_rata_interest` make no difference to a positive principal.
pro_rata_interest-closed :
    (principal : ℤ) (rate_bps days : ℕ)
    → pos 0 <ℤ principal
    → pro_rata_interest principal rate_bps (pos days)
      ≡ quot
          (saturating_mul_i128 (saturating_mul_i128 principal (pos rate_bps)) (pos days))
          (pos 3650000)
unfolding pro_rata_interest
pro_rata_interest-closed (negsuc n) rate_bps days h = absurd (omega (arith, h))
pro_rata_interest-closed (pos n) rate_bps days h =
    rw
      (
        saturating_mul-pos n rate_bps,
        saturating_mul-pos (saturated (n * rate_bps)) days,
        quot-pos (saturated (saturated (n * rate_bps) * days)) 3650000 (omega arith),
      )
      (elim (Bool-cases (rate_bps == 0)) [
        | inl no_rate ↦ rw (==→≡ rate_bps 0 no_rate) (ground arith)
        | inr rate ↦ elim (Bool-cases (days == 0)) [
          | inl no_days ↦ rw (==→≡ days 0 no_days) (ground arith)
          | inr some_days ↦ ground arith
        ]
      ])

-- What is owed on an offer: the principal that the payments read so far leave, the interest on it for
-- the whole days since the offer was funded, and the penalty of ADR-0007 on principal and flat yield.
pub record IsOwed (c : Invocation) (invoice_id : Symbol) (invoice : Invoice)
    (offer : FinancingOffer) (s : Repayment) (owed : Obligation) : Type 0 where
  pub remaining :
      owed.remaining
      ≡ max_ℤ
          (offer.amount -ℤ principal_of max_payments_per_invoice (load_payments invoice_id s))
          (pos 0)
  pub some_left : pos 0 <ℤ owed.remaining
  pub funded : offer.funded_at ≤ c.now
  pub interest :
      owed.interest
      ≡ quot
          (saturating_mul_i128
            (saturating_mul_i128 owed.remaining (pos offer.interest_rate))
            (pos ((c.now - offer.funded_at) / secs_per_day)))
          (pos 3650000)
  pub penalty :
      owed.penalty
      ≡ accrued_penalty c
          (offer.amount +ℤ quot (offer.amount *ℤ pos offer.interest_rate) (pos 10000))
          invoice.due_date
          s.penbps
          s.pencap
  pub total : owed.total ≡ owed.remaining +ℤ owed.interest +ℤ owed.penalty

remaining_exact :
    (offer : FinancingOffer) (payments : List PaymentRecord) {r : ℤ}
    → remaining_principal offer payments ≡ ok r
    → r ≡ max_ℤ (offer.amount -ℤ principal_of max_payments_per_invoice payments) (pos 0)
unfolding remaining_principal
remaining_exact offer payments {r} h =
    let (paid, e, k) = >>=-eq-ok (total_principal_repaid payments) _ h in
    let d : r ≡ max_ℤ (offer.amount -ℤ paid) (pos 0) =
      ground (arith, sub_i128-either offer.amount paid) in
    d ∙ ap (λ z. max_ℤ (offer.amount -ℤ z) (pos 0)) (principal_repaid payments e)

days_exact :
    (c : Invocation) (offer : FinancingOffer) {d : ℤ}
    → days_since_funded c offer ≡ ok d
    → (offer.funded_at ≤ c.now) × (d ≡ pos ((c.now - offer.funded_at) / secs_per_day))
unfolding days_since_funded
days_exact c offer h = ground (arith, sub_unsigned-either c.now offer.funded_at)

pub base_exact :
    (offer : FinancingOffer) {base : ℤ}
    → frozen_base offer ≡ ok base
    → base ≡ offer.amount +ℤ quot (offer.amount *ℤ pos offer.interest_rate) (pos 10000)
unfolding frozen_base
base_exact offer h = ground (
  arith,
  mul_i128-either offer.amount (pos offer.interest_rate),
  add_i128-either offer.amount (quot (offer.amount *ℤ pos offer.interest_rate) (pos 10000)),
)

penalty_exact :
    (c : Invocation) (offer : FinancingOffer) (invoice : Invoice) (s : Repayment) {p : ℤ}
    → penalty_due c offer invoice s ≡ ok p
    → p
      ≡ accrued_penalty c
          (offer.amount +ℤ quot (offer.amount *ℤ pos offer.interest_rate) (pos 10000))
          invoice.due_date
          s.penbps
          s.pencap
unfolding penalty_due load_penalty_config
penalty_exact c offer invoice s h =
    let (base, e, k) = >>=-eq-ok (frozen_base offer) _ h in
    sym (ok-injective _ _ k)
    ∙ ap (λ z. accrued_penalty c z invoice.due_date s.penbps s.pencap) (base_exact offer e)

pub obligation-IsOwed :
    (c : Invocation) (invoice_id : Symbol) (invoice : Invoice) (offer : FinancingOffer)
    (s : Repayment) {owed : Obligation}
    → obligation c invoice_id invoice offer s ≡ ok owed
    → IsOwed c invoice_id invoice offer s owed
unfolding obligation
obligation-IsOwed c invoice_id invoice offer s {owed} h₀ =
    let (remaining, e, h₁) =
      >>=-eq-ok (remaining_principal offer (load_payments invoice_id s)) _ h₀ in
    let (positive, h₂) = guard-then (ltb_ℤ (pos 0) remaining) (contract invalid_transition) _ h₁ in
    let (days, f, h₃) = >>=-eq-ok (days_since_funded c offer) _ h₂ in
    let (funded, whole) = days_exact c offer f in
    let (penalty, g, h₄) = >>=-eq-ok (penalty_due c offer invoice s) _ h₃ in
    let interest = pro_rata_interest remaining offer.interest_rate days in
    let (part, k, h₅) = >>=-eq-ok (add_i128 remaining interest) _ h₄ in
    let (total, l, h₆) = >>=-eq-ok (add_i128 part penalty) _ h₅ in
    let sum : part ≡ remaining +ℤ interest = ground (arith, add_i128-either remaining interest) in
    let sum' : total ≡ part +ℤ penalty = ground (arith, add_i128-either part penalty) in
    let some_left : pos 0 <ℤ remaining = ground arith in
    subst (IsOwed c invoice_id invoice offer s) (ok-injective _ _ h₆) (record {
      remaining = remaining_exact offer (load_payments invoice_id s) e;
      some_left = some_left;
      funded = funded;
      interest =
          ap (pro_rata_interest remaining offer.interest_rate) whole
          ∙ pro_rata_interest-closed remaining offer.interest_rate _ some_left;
      penalty = penalty_exact c offer invoice s g;
      total = sum' ∙ ap (λ x. x +ℤ penalty) sum;
    })

module _ {W : Type 0} (registry : RegistryClient W) (financing : FinancingClient W) where
  -- The loan is the one that the configured contracts report, and so is what is owed on it.
  pub record IsRead (c : Invocation) (invoice_id offer_id : Symbol) (s : Repayment) (w : W)
      (loan : Reading) : Type 0 where
    pub registry_set : s.registry ≡ some loan.registry_addr
    pub found : registry.get_invoice loan.registry_addr invoice_id w ≡ ok loan.invoice
    pub financing_set : s.financing ≡ some loan.financing_addr
    pub read : financing.get_offer loan.financing_addr offer_id w ≡ ok loan.offer
    pub token_set : resolve_token loan.offer.currency s.store ≡ ok loan.token_addr
    pub owed : IsOwed c invoice_id loan.invoice loan.offer s loan.owed

  pub Checked-IsRead :
      (c : Invocation) (invoice_id offer_id : Symbol) (repayer : Address) (amt : ℤ) (s : Repayment)
      (w : W) {loan : Reading}
      → Checked registry financing c invoice_id offer_id repayer amt s w loan
      → IsRead c invoice_id offer_id s w loan
  Checked-IsRead c invoice_id offer_id repayer amt s w {loan} k = record {
    registry_set = k.registry_set;
    found = k.found;
    financing_set = k.financing_set;
    read = k.read;
    token_set = k.token_set;
    owed = obligation-IsOwed c invoice_id loan.invoice loan.offer s k.computed;
  }
