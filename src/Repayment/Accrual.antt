-- ===== src/Repayment/Accrual.antt =====
-- `total_principal_repaid` of repayment/src/lib.rs over a history that grows, and what a payment of
-- no more than the interest changes.
use invofi_contracts.Prelude.{
  ℕ, zero, suc, ◌+◌, ◌≤◌, ◌≡◌, refl, sym, ◌∙◌, inl, inr, true, false, List, [], ◌∷◌, ◌++◌, leb,
  Bool-cases, some, ==_refl, if◌then◌else◌, arith,
}
use invofi_contracts.Prelude.Lists.{length, length-append}
use invofi_contracts.Prelude.Int.{ℤ, pos, ◌≤ℤ◌, ◌+ℤ◌, ◌-ℤ◌, min_ℤ, int_laws}
use invofi_contracts.Prelude.Maps.{ℕ_key}
use invofi_contracts.Host.Outcome.{
  Address, Symbol, ok, ◌>>=◌, Invocation, >>=-eq-ok, ok-injective, Result-cases,
}
use invofi_contracts.Host.Machine.{add_i128, fits_i128}
use invofi_contracts.Common.Types.{Invoice, FinancingOffer, PaymentRecord}
use invofi_contracts.Common.Storage.{Storage}
use invofi_contracts.Common.Clients.{Token, RegistryClient, FinancingClient, ReputationClient}
use invofi_contracts.Repayment.State.{
  Repayment, load_payments, save_payments, max_payments_per_invoice, load_penalty_config,
}
use invofi_contracts.Repayment.Interest.{
  principal_loop, total_principal_repaid, remaining_principal, penalty_due,
}
use invofi_contracts.Repayment.Repay.{read_repayment, take_payment, repay_invoice}
use invofi_contracts.Repayment.Owed.{Obligation, obligation}
use invofi_contracts.Repayment.Settled.{
  read_repayment-Checked, take_payment-Taken, close_payment-Closed,
}
use invofi_contracts.Repayment.Payments.{
  split_payment_parts, record_payment_history, load_payments-saved, load_payments-stored,
}

-- The loop reads no further than its limit.
loop_limited :
    (limit : ℕ) (total : ℤ) (xs ys : List PaymentRecord)
    → limit ≤ length xs
    → principal_loop limit total (xs ++ ys) ≡ principal_loop limit total xs
unfolding principal_loop
loop_limited zero total xs ys h = refl
loop_limited (suc n) total [] ys h = absurd (omega (arith, h))
loop_limited (suc n) total (x ∷ xs) ys h = elim (Result-cases (add_i128 total x.principal_paid)) [
  | inl (sum, e) ↦ rw e (loop_limited n sum xs ys (omega (arith, h)))
  | inr (trap, e) ↦ rw e refl
]

-- One more payment is added last.
loop_extended :
    (total : ℤ) (xs : List PaymentRecord) (x : PaymentRecord)
    → principal_loop (suc (length xs)) total (xs ++ x ∷ [])
      ≡ (principal_loop (length xs) total xs >>= λ t. add_i128 t x.principal_paid)
unfolding principal_loop
loop_extended total [] x = elim (Result-cases (add_i128 total x.principal_paid)) [
  | inl (sum, e) ↦ rw e refl
  | inr (trap, e) ↦ rw e refl
]
loop_extended total (y ∷ xs) x = elim (Result-cases (add_i128 total y.principal_paid)) [
  | inl (sum, e) ↦ rw e (loop_extended sum xs x)
  | inr (trap, e) ↦ rw e refl
]

sum_fits : (a b : ℤ) {c : ℤ} → add_i128 a b ≡ ok c → fits_i128 c ≡ true
unfolding add_i128
sum_fits a b h = ground arith

loop_fits :
    (limit : ℕ) (total : ℤ) (xs : List PaymentRecord) {out : ℤ}
    → fits_i128 total ≡ true
    → principal_loop limit total xs ≡ ok out
    → fits_i128 out ≡ true
unfolding principal_loop
loop_fits zero total xs fits h = cc
loop_fits (suc n) total [] fits h = cc
loop_fits (suc n) total (x ∷ xs) fits h =
    let (sum, e, k) = >>=-eq-ok (add_i128 total x.principal_paid) _ h in
    loop_fits n sum xs (sum_fits total x.principal_paid e) k

add_nothing : (t : ℤ) → fits_i128 t ≡ true → add_i128 t (pos 0) ≡ ok t
unfolding add_i128
add_nothing t h = let same : t +ℤ pos 0 ≡ t = omega int_laws in rw same (rw h refl)

-- A payment without principal does not move the principal repaid, in a history of any length.
total_principal_repaid-interest :
    (xs : List PaymentRecord) (x : PaymentRecord) {t : ℤ}
    → x.principal_paid ≡ pos 0
    → total_principal_repaid xs ≡ ok t
    → total_principal_repaid (xs ++ x ∷ []) ≡ ok t
unfolding total_principal_repaid
total_principal_repaid-interest xs x {t} none h =
    let count = length-append xs (x ∷ []) in
    elim (Bool-cases (leb (length xs + 1) max_payments_per_invoice)) [
      | inl below ↦
          let h' : principal_loop (length xs) (pos 0) xs ≡ ok t =
            rw (within (length xs) below) at h in
          let next : length xs + 1 ≡ suc (length xs) = omega arith in
          rw (count, below, next, loop_extended (pos 0) xs x, h', none)
            (add_nothing t (loop_fits (length xs) (pos 0) xs refl h'))
      | inr above ↦
          let h' : principal_loop max_payments_per_invoice (pos 0) xs ≡ ok t =
            rw (at_limit (length xs) above) at h in
          rw (count, above)
            (loop_limited max_payments_per_invoice (pos 0) xs (x ∷ []) (ground arith) ∙ h')
    ]
  where
    within :
        (n : ℕ)
        → leb (n + 1) max_payments_per_invoice ≡ true
        → leb n max_payments_per_invoice ≡ true
    within n h = ground arith

    at_limit :
        (n : ℕ)
        → leb (n + 1) max_payments_per_invoice ≡ false
        → (if leb n max_payments_per_invoice then n else max_payments_per_invoice)
          ≡ max_payments_per_invoice
    at_limit n h = ground arith

some-injective : {a b : Address} → some a ≡ some b → a ≡ b
some-injective h = cc

no_principal :
    (amt interest : ℤ) {paid principal : ℤ}
    → amt ≤ℤ interest
    → paid ≡ min_ℤ amt interest
    → principal ≡ amt -ℤ paid
    → principal ≡ pos 0
unfolding min_ℤ ◌-ℤ◌
no_principal amt interest small e f = ground arith

remaining_principal-interest :
    (offer : FinancingOffer) (xs : List PaymentRecord) (x : PaymentRecord) {r : ℤ}
    → x.principal_paid ≡ pos 0
    → remaining_principal offer xs ≡ ok r
    → remaining_principal offer (xs ++ x ∷ []) ≡ ok r
unfolding remaining_principal
remaining_principal-interest offer xs x none h =
    let (t, e, _) = >>=-eq-ok (total_principal_repaid xs) _ h in
    rw (total_principal_repaid-interest xs x none e) (rw e at h)

-- The obligation, once the new history is known to count as the old one does.
obligation-interest :
    (c : Invocation) (invoice_id : Symbol) (invoice : Invoice) (offer : FinancingOffer)
    (x : PaymentRecord) (store : Storage) (s : Repayment) {owed : Obligation}
    → x.principal_paid ≡ pos 0
    → obligation c invoice_id invoice offer s ≡ ok owed
    → obligation c invoice_id invoice offer
        (record (save_payments invoice_id (load_payments invoice_id s ++ x ∷ []) s) {
          store = store;
        })
      ≡ ok owed
unfolding obligation penalty_due load_penalty_config save_payments
obligation-interest c invoice_id invoice offer x store s none h =
    let (r, e, _) = >>=-eq-ok (remaining_principal offer (load_payments invoice_id s)) _ h in
    let e' = remaining_principal-interest offer (load_payments invoice_id s) x none e in
    let history : load_payments invoice_id
          (record (save_payments invoice_id (load_payments invoice_id s ++ x ∷ []) s) {
            store = store;
          })
        ≡ load_payments invoice_id s ++ x ∷ [] =
      load_payments-stored invoice_id _ store
      ∙ (load_payments-saved invoice_id invoice_id _ s ∙ rw (==_refl invoice_id) refl) in
    rw (history, e') (rw e at h)

module _ {W : Type 0} (token : Token W) (registry : RegistryClient W)
    (financing : FinancingClient W) (reputation : ReputationClient W) where
  -- A successful `repay_invoice` of no more than the accrued interest leaves the obligation at that
  -- time as it was: the same principal, and the same interest once more, since interest always
  -- accrues from the funding and what was paid of it is not counted.
  pub repay_invoice-interest_only :
      (c : Invocation) (invoice_id offer_id : Symbol) (repayer : Address) (amt : ℤ) (s : Repayment)
      (w : W) (invoice : Invoice) (offer : FinancingOffer) (registry_addr financing_addr : Address)
      {owed : Obligation} {invoice' : Invoice} {s' : Repayment} {w' : W}
      → s.registry ≡ some registry_addr
      → s.financing ≡ some financing_addr
      → registry.get_invoice registry_addr invoice_id w ≡ ok invoice
      → financing.get_offer financing_addr offer_id w ≡ ok offer
      → obligation c invoice_id invoice offer s ≡ ok owed
      → amt ≤ℤ owed.interest
      → repay_invoice token registry financing reputation c invoice_id offer_id repayer amt s w
        ≡ ok (invoice', s', w')
      → obligation c invoice_id invoice offer s' ≡ ok owed
  unfolding repay_invoice
  repay_invoice-interest_only c invoice_id offer_id repayer amt s w invoice offer ra fa {owed}
        registry_set financing_set found read computed small h₀ =
      let (loan, r, h₁) =
        >>=-eq-ok (read_repayment registry financing c invoice_id offer_id repayer amt s w) _ h₀ in
      let (out, e, h₂) =
        >>=-eq-ok (take_payment token registry financing c invoice_id repayer amt loan s w) _ h₁ in
      let k = read_repayment-Checked registry financing c invoice_id offer_id repayer amt s w r in
      let t = take_payment-Taken token registry financing c invoice_id repayer amt loan s w e in
      let z =
        close_payment-Closed registry financing reputation c invoice_id offer_id amt loan out.0
          out.1 out.2 h₂ in
      let same_registry : ra ≡ loan.registry_addr =
        some-injective (sym registry_set ∙ k.registry_set) in
      let same_financing : fa ≡ loan.financing_addr =
        some-injective (sym financing_set ∙ k.financing_set) in
      let same_invoice : invoice ≡ loan.invoice =
        ok-injective _ _ (sym found ∙ (rw same_registry k.found)) in
      let same_offer : offer ≡ loan.offer =
        ok-injective _ _ (sym read ∙ (rw same_financing k.read)) in
      let same_owed : owed ≡ loan.owed =
        ok-injective _ _ (sym computed ∙ (rw (same_invoice, same_offer) k.computed)) in
      let (interest, principal, _, _) = split_payment_parts loan.owed amt t.fee_bps t.divided in
      let none : out.0.principal ≡ pos 0 =
        no_principal amt loan.owed.interest (rw same_owed at small) interest principal in
      rw (z.state, record_payment_history c invoice_id repayer amt out.0 s t.recorded)
        (obligation-interest c invoice_id invoice offer _ _ s none computed)
