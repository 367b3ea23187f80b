-- ===== src/Insurance/Transfers.antt =====
-- The token transfers behind the payouts of insurance/src/lib.rs.
use invofi_contracts.Prelude.{◌≡◌, ap, ◌∙◌, ◌⊎◌, inl, inr, some, arith}
use invofi_contracts.Prelude.Int.{ℤ, pos, ◌<ℤ◌}
use invofi_contracts.Prelude.Maps.{ℕ_key, keys}
use invofi_contracts.Host.Outcome.{
  Address, Symbol, ok, Invocation, >>=-eq-ok, unwrap-eq-ok, ok-injective,
}
use invofi_contracts.Host.Machine.{add_i128, sub_i128}
use invofi_contracts.Common.Clients.{Token}
use invofi_contracts.Insurance.State.{Insurance, InsuranceTier, load_token, load_tier_pool}
use invofi_contracts.Insurance.Reduction.{reduce_stakes}
use invofi_contracts.Insurance.Payout.{pay_from_pool, pay_claim}
use invofi_contracts.Insurance.Tiers.Payouts.{reduce_tier, pay_from_tier, pay_tier_claim}

module _ {W : Type 0} (token : Token W) (c : Invocation) (to : Address) (s : Insurance)
    (w : W) where
  -- One transfer of the configured token, out of the contract's own account, was made.
  pub record IsSent (p : ℤ) (w' : W) : Type 0 where
    pub token_addr : Address
    pub configured : s.store.token ≡ some token_addr
    pub transferred : token.transfer token_addr c.self to p w ≡ ok w'

  -- A positive amount was transferred, or nothing was and the token contract was not called.
  abbrev pub IsPaid : ℤ → W → Type 0
  IsPaid p w' = ((p ≡ pos 0) × (w' ≡ w)) ⊎ ((pos 0 <ℤ p) × IsSent p w')

  pub IsPaid-positive : {p : ℤ} {w' : W} → pos 0 <ℤ p → IsPaid p w' → IsSent p w'
  IsPaid-positive h (inl (none_paid, _)) = absurd (omega (arith, rw none_paid at h))
  IsPaid-positive h (inr (_, sent)) = sent

module _ {W : Type 0} (token : Token W) (c : Invocation) where
  pub pay_from_pool-IsSent :
      (to : Address) (payout : ℤ) (s : Insurance) (w : W) {p : ℤ} {s' : Insurance} {w' : W}
      → pay_from_pool token c to payout s w ≡ ok (p, s', w')
      → IsSent token c to s w payout w'
  unfolding pay_from_pool load_token
  pay_from_pool-IsSent to payout s w h₀ =
      let (out, _, h₁) = >>=-eq-ok (reduce_stakes payout s.pooltot (keys s.stakes) s.stakes) _ h₀ in
      let (total, _, h₂) = >>=-eq-ok (sub_i128 s.pooltot payout) _ h₁ in
      let (addr, found, h₃) = >>=-eq-ok _ _ h₂ in
      let (w₁, sent, h₄) = >>=-eq-ok (token.transfer addr c.self to payout w) _ h₃ in
      record {
        token_addr = addr;
        configured = unwrap-eq-ok _ _ found;
        transferred = sent ∙ ap (λ x. ok (x.2)) (ok-injective _ _ h₄);
      }

  pub pay_claim-IsSent :
      (k : Symbol) (to : Address) (paid already remaining : ℤ) (s : Insurance) (w : W) {p left : ℤ}
      {s' : Insurance} {w' : W}
      → pay_claim token c k to paid already remaining s w ≡ ok ((p, left), s', w')
      → IsSent token c to s w paid w'
  unfolding pay_claim load_token
  pay_claim-IsSent k to paid already remaining s w h₀ =
      let (_, _, h₁) = >>=-eq-ok (add_i128 already paid) _ h₀ in
      let (_, _, h₂) = >>=-eq-ok (sub_i128 s.tot_out paid) _ h₁ in
      let (_, _, h₃) = >>=-eq-ok (reduce_stakes paid s.pooltot (keys s.stakes) s.stakes) _ h₂ in
      let (_, _, h₄) = >>=-eq-ok (sub_i128 s.pooltot paid) _ h₃ in
      let (addr, found, h₅) = >>=-eq-ok _ _ h₄ in
      let (w₁, sent, h₆) = >>=-eq-ok (token.transfer addr c.self to paid w) _ h₅ in
      let (_, _, h₇) = >>=-eq-ok (sub_i128 remaining paid) _ h₆ in
      record {
        token_addr = addr;
        configured = unwrap-eq-ok _ _ found;
        transferred = sent ∙ ap (λ x. ok (x.2)) (ok-injective _ _ h₇);
      }

  pub pay_from_tier-IsSent :
      (tier : InsuranceTier) (to : Address) (payout : ℤ) (s : Insurance) (w : W) {p : ℤ}
      {s' : Insurance} {w' : W}
      → pay_from_tier token c tier to payout s w ≡ ok (p, s', w')
      → IsSent token c to s w payout w'
  unfolding pay_from_tier load_token
  pay_from_tier-IsSent tier to payout s w h₀ =
      let balance = (load_tier_pool tier s).balance in
      let (_, _, h₁) = >>=-eq-ok (reduce_tier tier payout balance s) _ h₀ in
      let (_, _, h₂) = >>=-eq-ok (sub_i128 balance payout) _ h₁ in
      let (addr, found, h₃) = >>=-eq-ok _ _ h₂ in
      let (w₁, sent, h₄) = >>=-eq-ok (token.transfer addr c.self to payout w) _ h₃ in
      record {
        token_addr = addr;
        configured = unwrap-eq-ok _ _ found;
        transferred = sent ∙ ap (λ x. ok (x.2)) (ok-injective _ _ h₄);
      }

  pub pay_tier_claim-IsSent :
      (k : Symbol) (tier : InsuranceTier) (to : Address) (paid before remaining : ℤ) (s : Insurance)
      (w : W) {p left : ℤ} {s' : Insurance} {w' : W}
      → pay_tier_claim token c k tier to paid before remaining s w ≡ ok ((p, left), s', w')
      → IsSent token c to s w paid w'
  unfolding pay_tier_claim load_token
  pay_tier_claim-IsSent k tier to paid before remaining s w h₀ =
      let pool = load_tier_pool tier s in
      let (_, _, h₁) = >>=-eq-ok (reduce_tier tier paid pool.balance s) _ h₀ in
      let (_, _, h₂) = >>=-eq-ok (add_i128 before paid) _ h₁ in
      let (_, _, h₃) = >>=-eq-ok (sub_i128 pool.balance paid) _ h₂ in
      let (_, _, h₄) = >>=-eq-ok (sub_i128 pool.reserved paid) _ h₃ in
      let (addr, found, h₅) = >>=-eq-ok _ _ h₄ in
      let (w₁, sent, h₆) = >>=-eq-ok (token.transfer addr c.self to paid w) _ h₅ in
      let (_, _, h₇) = >>=-eq-ok (sub_i128 remaining paid) _ h₆ in
      record {
        token_addr = addr;
        configured = unwrap-eq-ok _ _ found;
        transferred = sent ∙ ap (λ x. ok (x.2)) (ok-injective _ _ h₇);
      }
