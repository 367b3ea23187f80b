-- ===== src/Insurance/FlatPayout.antt =====
-- The laws of `pay_out` of insurance/src/lib.rs.
use invofi_contracts.Prelude.{◌≡◌, refl, inl, inr, true, false, some, Option-cases, arith}
use invofi_contracts.Prelude.Int.{ℤ, pos, ◌-ℤ◌, ◌≤ℤ◌, ◌<ℤ◌, min_ℤ, max_ℤ, min_ℤ_le, int_laws}
use invofi_contracts.Prelude.Maps.{ℕ_key}
use invofi_contracts.Host.Outcome.{Address, Symbol, ok, Invocation, Result-cases}
use invofi_contracts.Common.Types.{Invoice, InvoiceStatus}
use invofi_contracts.Common.Storage.{contract_is_paused, assert_not_paused}
use invofi_contracts.Common.Clients.{Token, RegistryClient}
use invofi_contracts.Insurance.State.{Insurance}
use invofi_contracts.Insurance.Payout.{assert_payout_caller, assert_defaulted, pay_out}
use invofi_contracts.Insurance.FlatBalance.{
  IsBalanced, reduced, pay_from_pool-fields, pay_out-either,
}
use invofi_contracts.Insurance.Transfers.{IsPaid, pay_from_pool-IsSent}

at_most_zero : (z : ℤ) → z ≤ℤ pos 0 → max_ℤ z (pos 0) ≡ pos 0
unfolding max_ℤ
at_most_zero z h = ground arith

positive_max : (z : ℤ) → pos 0 <ℤ z → max_ℤ z (pos 0) ≡ z
unfolding max_ℤ
positive_max z h = ground arith

take_none : (z : ℤ) → z -ℤ pos 0 ≡ z
take_none z = omega int_laws

module _ {W : Type 0} (token : Token W) (registry : RegistryClient W) (c : Invocation) where
  -- On a balanced pool a `pay_out` that succeeds pays exactly the smaller of the amount asked for and
  -- the pool's total, or nothing if that is not positive: that amount it returns, and transfers in the
  -- configured token from its own account to the beneficiary, without any other call; the total falls
  -- by it, and the pool stays balanced.
  pub pay_out_amount :
      (invoice_id : Symbol) (beneficiary : Address) (amt : ℤ) (s : Insurance) (w : W) {p : ℤ}
      {s' : Insurance} {w' : W}
      → IsBalanced s
      → pay_out token registry c invoice_id beneficiary amt s w ≡ ok (p, s', w')
      → (p ≡ max_ℤ (min_ℤ amt s.pooltot) (pos 0))
        × (s'.pooltot ≡ s.pooltot -ℤ p)
        × IsBalanced s'
        × IsPaid token c beneficiary s w p w'
  pay_out_amount invoice_id beneficiary amt s w {p} {s'} {w'} b h =
      elim (pay_out-either token c registry invoice_id beneficiary amt s w h) [
        | inl (empty, zero_paid, same, still) ↦ (
          rw (zero_paid, at_most_zero _ empty) refl,
          rw (same, zero_paid, take_none s.pooltot) refl,
          rw same b,
          inl (zero_paid, still),
        )
        | inr (positive, paid) ↦
            let (out, found, exact, stakes, total) =
              pay_from_pool-fields token c beneficiary (min_ℤ amt s.pooltot) s w paid in
            (
              rw (exact, positive_max _ positive) refl,
              rw (total, exact) refl,
              rw (stakes, total)
                  (reduced (min_ℤ amt s.pooltot) s b positive (min_ℤ_le amt s.pooltot).1 found),
              rw exact (inr (positive, pay_from_pool-IsSent token c beneficiary _ s w paid)),
            )
      ]

  -- A `pay_out` that succeeds was made while the contract was not paused, was authorized by the
  -- configured payout caller, for a positive amount, and on an invoice that the configured registry
  -- reports as Defaulted.
  pub pay_out_guarded :
      (invoice_id : Symbol) (beneficiary : Address) (amt : ℤ) (s : Insurance) (w : W) {p : ℤ}
      {s' : Insurance} {w' : W}
      → pay_out token registry c invoice_id beneficiary amt s w ≡ ok (p, s', w')
      → (contract_is_paused s.store ≡ false)
        × ((caller : Address) × (s.paycall ≡ some caller) × (c.auth caller ≡ true))
        × (pos 0 <ℤ amt)
        × ((addr : Address) × (invoice : Invoice) × (s.registry ≡ some addr)
            × (registry.get_invoice addr invoice_id w ≡ ok invoice)
            × (invoice.status ≡ InvoiceStatus.defaulted))
  unfolding pay_out assert_payout_caller assert_defaulted assert_not_paused
  pay_out_guarded invoice_id beneficiary amt s w h = elim (Option-cases s.paycall) [
    | inl unset ↦ absurd (ground arith)
    | inr (caller, e) ↦ elim (Option-cases s.registry) [
      | inl unset ↦ absurd (ground arith)
      | inr (addr, f) ↦ elim (Result-cases (registry.get_invoice addr invoice_id w)) [
        | inr (x, bad) ↦ absurd (ground arith)
        | inl (invoice, found) ↦ (
          ground arith,
          (caller, e, ground arith),
          ground arith,
          (addr, invoice, f, found, ground arith),
        )
      ]
    ]
  ]
