-- ===== src/Insurance/Claims.antt =====
-- The laws of `claim_payout` of insurance/src/lib.rs, against the ledger of what is owed.
use invofi_contracts.Prelude.{◌≡◌, refl, subst, ◌∙◌, ◌⊎◌, inl, inr, arith}
use invofi_contracts.Prelude.Int.{
  ℤ, pos, ◌+ℤ◌, ◌-ℤ◌, ◌≤ℤ◌, ◌<ℤ◌, min_ℤ, min_ℤ_le, max_ℤ, int_laws, parts_of_eq,
}
use invofi_contracts.Prelude.Maps.{Map, ℕ_key, get_or}
use invofi_contracts.Host.Outcome.{Address, Symbol, ok, Invocation}
use invofi_contracts.Host.MachineLaws.{add_i128-either, sub_i128-either}
use invofi_contracts.Insurance.State.{Insurance}
use invofi_contracts.Insurance.Payout.{assert_payout_caller, put_amount}
use invofi_contracts.Prelude.Maps.{keys}
use invofi_contracts.Host.Outcome.{Result-cases}
use invofi_contracts.Common.Clients.{Token}
use invofi_contracts.Insurance.Payout.{pay_claim, claim_payout}
use invofi_contracts.Insurance.Reduction.{reduce_stakes}
use invofi_contracts.Insurance.FlatBalance.{IsBalanced, reduced}
use invofi_contracts.Insurance.Reservations.{IsReserved, entry_le_sum, get_or-put_amount}
use invofi_contracts.Insurance.Promises.{max_of_empty, max_of_positive}
use invofi_contracts.Insurance.Settlement.{settle_owed, owed_less, same_paid, minus_zero}
use invofi_contracts.Insurance.Transfers.{IsPaid, IsSent, IsPaid-positive, pay_claim-IsSent}

-- What is left of the reservation of an offer.
abbrev remaining_of : Symbol → Insurance → ℤ
remaining_of k s = get_or (pos 0) k s.resrvd -ℤ get_or (pos 0) k s.paid

-- What the pool has once the other offers' reservations are set aside.
abbrev available_to : Symbol → Insurance → ℤ
available_to k s = s.pooltot -ℤ (s.tot_out -ℤ remaining_of k s)

module _ {W : Type 0} (token : Token W) (c : Invocation) where
  pay_claim-fields :
      (k : Symbol) (lender : Address) (paid already_paid remaining : ℤ) (s : Insurance) (w : W)
      {p left : ℤ} {s' : Insurance} {w' : W}
      → pay_claim token c k lender paid already_paid remaining s w ≡ ok ((p, left), s', w')
      → (out : Map Address ℤ × ℤ) × (reduce_stakes paid s.pooltot (keys s.stakes) s.stakes ≡ ok out)
        × ((p ≡ paid)
            × (left ≡ remaining -ℤ paid)
            × (s'.stakes ≡ out.0)
            × (s'.pooltot ≡ s.pooltot -ℤ paid)
            × (s'.tot_out ≡ s.tot_out -ℤ paid)
            × (s'.paid ≡ put_amount k (already_paid +ℤ paid) s.paid)
            × (s'.resrvd ≡ s.resrvd))
  unfolding pay_claim
  pay_claim-fields k lender paid already_paid remaining s w h =
      elim (Result-cases (reduce_stakes paid s.pooltot (keys s.stakes) s.stakes)) [
        | inr (x, bad) ↦
            absurd
              (ground (arith, add_i128-either already_paid paid, sub_i128-either s.tot_out paid))
        | inl (out, found) ↦ (
          out,
          found,
          ground (
            arith,
            add_i128-either already_paid paid,
            sub_i128-either s.tot_out paid,
            sub_i128-either s.pooltot paid,
            sub_i128-either remaining paid,
          ),
        )
      ]

  claim_payout-either :
      (k : Symbol) (lender : Address) (amt : ℤ) (s : Insurance) (w : W) {p left : ℤ}
      {s' : Insurance} {w' : W}
      → claim_payout token c k lender amt s w ≡ ok ((p, left), s', w')
      → (pos 0 <ℤ amt)
        × (pos 0 <ℤ remaining_of k s)
        × (((min_ℤ (min_ℤ amt (remaining_of k s)) (available_to k s) ≤ℤ pos 0)
              × (p ≡ pos 0)
              × (left ≡ remaining_of k s)
              × (s' ≡ s)
              × (w' ≡ w))
            ⊎ ((pos 0 <ℤ min_ℤ (min_ℤ amt (remaining_of k s)) (available_to k s))
                × (pay_claim token c k lender
                      (min_ℤ (min_ℤ amt (remaining_of k s)) (available_to k s))
                      (get_or (pos 0) k s.paid)
                      (remaining_of k s)
                      s
                      w
                    ≡ ok ((p, left), s', w'))))
  unfolding claim_payout assert_payout_caller
  claim_payout-either k lender amt s w h = ground (
    arith,
    sub_i128-either (get_or (pos 0) k s.resrvd) (get_or (pos 0) k s.paid),
    sub_i128-either s.tot_out (remaining_of k s),
    sub_i128-either s.pooltot (s.tot_out -ℤ remaining_of k s),
  )

remaining-owed :
    (k : Symbol) (s : Insurance) (owed : Map Symbol ℤ)
    → IsReserved s owed
    → remaining_of k s ≡ get_or (pos 0) k owed
remaining-owed k s owed inv = omega (int_laws, parts_of_eq _ _ (inv.2 k).0)

-- What a claim pays of what is owed to the offer.
abbrev pub claimable : Symbol → ℤ → Insurance → Map Symbol ℤ → ℤ
claimable k amt s owed =
    min_ℤ (min_ℤ amt (get_or (pos 0) k owed)) (s.pooltot -ℤ (s.tot_out -ℤ get_or (pos 0) k owed))

below_owed : (amt owed z : ℤ) → min_ℤ (min_ℤ amt owed) z ≤ℤ owed
below_owed amt owed z =
    let outer = (min_ℤ_le (min_ℤ amt owed) z).0 in let inner = (min_ℤ_le amt owed).1 in omega arith

below_total :
    (k : Symbol) (amt : ℤ) (s : Insurance) (owed : Map Symbol ℤ)
    → IsReserved s owed
    → claimable k amt s owed ≤ℤ s.pooltot
below_total k amt s owed inv =
    let due = get_or (pos 0) k owed in
    let outer = (min_ℤ_le (min_ℤ amt due) (s.pooltot -ℤ (s.tot_out -ℤ due))).1 in
    let entry = (entry_le_sum k owed inv.1).1 in omega (int_laws, parts_of_eq _ _ inv.0)

min_ℤ_eq : (a b : ℤ) → a ≤ℤ b → min_ℤ a b ≡ a
unfolding min_ℤ
min_ℤ_eq a b h = ground arith

positive_min : (a b : ℤ) → pos 0 <ℤ a → pos 0 <ℤ b → pos 0 <ℤ min_ℤ a b
unfolding min_ℤ
positive_min a b h k = ground arith

all_available :
    (amt owed tot_out total : ℤ)
    → pos 0 <ℤ amt
    → pos 0 <ℤ owed
    → tot_out ≤ℤ total
    → max_ℤ (min_ℤ (min_ℤ amt owed) (total -ℤ (tot_out -ℤ owed))) (pos 0) ≡ min_ℤ amt owed
all_available amt owed tot_out total asked due covered =
    let d = min_ℤ amt owed in
    let small = (min_ℤ_le amt owed).1 in
    let available = total -ℤ (tot_out -ℤ owed) in
    let inner : min_ℤ d available ≡ d = min_ℤ_eq d available (omega int_laws) in
    rw inner (max_of_positive d (positive_min amt owed asked due))

module _ {W : Type 0} (token : Token W) (c : Invocation) where
  settled :
      (k : Symbol) (lender : Address) (d : ℤ) (s : Insurance) (w : W) (owed : Map Symbol ℤ)
      {p left : ℤ} {s' : Insurance} {w' : W}
      → IsBalanced s
      → IsReserved s owed
      → pos 0 <ℤ d
      → d ≤ℤ get_or (pos 0) k owed
      → d ≤ℤ s.pooltot
      → pay_claim token c k lender d (get_or (pos 0) k s.paid) (get_or (pos 0) k owed) s w
        ≡ ok ((p, left), s', w')
      → (p ≡ d)
        × (left ≡ get_or (pos 0) k owed -ℤ d)
        × (s'.pooltot ≡ s.pooltot -ℤ d)
        × IsBalanced s'
        × IsReserved s' (settle_owed k d owed)
  settled k lender d s w owed {s' = s'} b inv positive enough covered h =
      let (out, found, (exact, kept, stakes, total, outstanding, paid, resrvd)) =
        pay_claim-fields token c k lender d (get_or (pos 0) k s.paid) (get_or (pos 0) k owed) s w
          h in
      let low = (inv.2 k).1 in
      (
        exact,
        kept,
        total,
        rw (stakes, total) (reduced d s b positive covered found),
        owed_less k d s s' owed inv (omega arith) enough
            (λ j.
              rw paid
                (get_or-put_amount k j (get_or (pos 0) k s.paid +ℤ d) s.paid (omega int_laws)))
            outstanding resrvd,
      )

  -- On a balanced pool whose reservations are accounted for by the ledger `owed`, a `claim_payout`
  -- that succeeds pays exactly the smallest of the amount asked for, what is owed to the offer, and
  -- what the pool has beyond the other offers' reservations, or nothing if that is not positive: that
  -- amount it returns, and transfers in the configured token from its own account to the lender,
  -- without any other call. It returns what is still owed, the total falls by what was paid, the pool
  -- stays balanced, and the ledger that owes this offer that much less accounts for the reservations.
  pub claim_payout_lem :
      (k : Symbol) (lender : Address) (amt : ℤ) (s : Insurance) (w : W) (owed : Map Symbol ℤ)
      {p left : ℤ} {s' : Insurance} {w' : W}
      → IsBalanced s
      → IsReserved s owed
      → claim_payout token c k lender amt s w ≡ ok ((p, left), s', w')
      → (p ≡ max_ℤ (claimable k amt s owed) (pos 0))
        × (left ≡ get_or (pos 0) k owed -ℤ p)
        × (s'.pooltot ≡ s.pooltot -ℤ p)
        × IsBalanced s'
        × IsReserved s' (settle_owed k p owed)
        × IsPaid token c lender s w p w'
  claim_payout_lem k lender amt s w owed {p} {left} {s'} b inv h =
      let (asked, due, done) = claim_payout-either token c k lender amt s w h in
      let rest = remaining-owed k s owed inv in
      let bound = (entry_le_sum k owed inv.1) in
      elim done [
        | inl (empty, zero_paid, kept, same, still) ↦ (
          rw (zero_paid, max_of_empty _ (rw rest at empty)) refl,
          rw (kept, zero_paid, rest, minus_zero (get_or (pos 0) k owed)) refl,
          rw (same, zero_paid, minus_zero s.pooltot) refl,
          rw same b,
          rw (same, zero_paid)
              (owed_less k (pos 0) s s owed inv (omega arith) bound.0
                (λ j. same_paid k j (λ i. get_or (pos 0) i s.paid)) (omega int_laws) refl),
          inl (zero_paid, still),
        )
        | inr (positive, done) ↦
            let d = claimable k amt s owed in
            let (exact, kept, total, balanced, accounted) =
              settled k lender d s w owed b inv (rw rest at positive)
                (below_owed amt (get_or (pos 0) k owed) _) (below_total k amt s owed inv)
                (rw rest at done) in
            (
              rw (exact, max_of_positive d (rw rest at positive)) refl,
              rw (kept, exact) refl,
              rw (total, exact) refl,
              balanced,
              rw exact accounted,
              rw exact (
                  inr (
                    rw rest at positive,
                    pay_claim-IsSent token c k lender d (get_or (pos 0) k s.paid)
                        (get_or (pos 0) k owed) s w (rw rest at done),
                  )),
            )
      ]

  -- As long as the pool covers all it promised, a reservation is honoured: a `claim_payout` that
  -- succeeds pays the lender the amount asked for, or all that is owed to the offer if that is less, by
  -- a transfer in the configured token, and leaves exactly the rest owed.
  pub claim_payout-covered :
      (k : Symbol) (lender : Address) (amt : ℤ) (s : Insurance) (w : W) (owed : Map Symbol ℤ)
      {p left : ℤ} {s' : Insurance} {w' : W}
      → IsBalanced s
      → IsReserved s owed
      → s.tot_out ≤ℤ s.pooltot
      → claim_payout token c k lender amt s w ≡ ok ((p, left), s', w')
      → (p ≡ min_ℤ amt (get_or (pos 0) k owed))
        × IsSent token c lender s w (min_ℤ amt (get_or (pos 0) k owed)) w'
        × IsReserved s' (settle_owed k (min_ℤ amt (get_or (pos 0) k owed)) owed)
  claim_payout-covered k lender amt s w owed {p} {s' = s'} {w'} b inv covered h =
      let (asked, due, _) = claim_payout-either token c k lender amt s w h in
      let owing = rw (remaining-owed k s owed inv) at due in
      let (exact, _, _, _, accounted, paid) = claim_payout_lem k lender amt s w owed b inv h in
      let all =
        exact ∙ all_available amt (get_or (pos 0) k owed) s.tot_out s.pooltot asked owing covered in
      let some_due = positive_min amt (get_or (pos 0) k owed) asked owing in
      (
        all,
        subst (λ z. IsSent token c lender s w z w') all
            (IsPaid-positive token c lender s w (rw all some_due) paid),
        subst (λ z. IsReserved s' (settle_owed k z owed)) all accounted,
      )
