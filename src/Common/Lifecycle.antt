-- ===== src/Common/Lifecycle.antt =====
-- The transition table against the documented lifecycle, and the bounded history against the full
-- one.
use invofi_contracts.Prelude.{
  ℕ, zero, suc, ◌+◌, ◌-◌, ◌≤◌, ◌<◌, ◌≡◌, refl, ◌↔◌, ◌⊎◌, inl, inr, Bool-cases, false, List, [], ◌∷◌,
  ◌++◌, arith, ltb, ltb→lt, sym, ◌==◌, ==_refl,
}
use invofi_contracts.Prelude.Lists.{length, drop_first, length-append}
use invofi_contracts.Prelude.Maps.{get_or, ℕ_key, ℕ_eq}
use invofi_contracts.Prelude.MapLaws.{get_or-set}
use invofi_contracts.Host.Outcome.{
  ok, err, contract, invalid_transition, Symbol, Address, Invocation, >>-eq-ok, ok-injective,
}
use invofi_contracts.Common.Types.{InvoiceStatus, TransitionRecord}
use invofi_contracts.Common.Storage.{Storage}
use invofi_contracts.Common.Transition.{
  validate_transition, push_bounded, assert_transition, get_transition_history,
}

-- The lifecycle as the documentation of `validate_transition` lists it.
infix 40 ◌⟶◌
pub data ◌⟶◌ : InvoiceStatus → InvoiceStatus → Type 0 where
  originator_cancels : InvoiceStatus.pending ⟶ InvoiceStatus.cancelled
  offer_accepted : InvoiceStatus.pending ⟶ InvoiceStatus.financed
  fully_repaid : InvoiceStatus.financed ⟶ InvoiceStatus.repaid
  partly_repaid : InvoiceStatus.financed ⟶ InvoiceStatus.financed
  past_due : InvoiceStatus.financed ⟶ InvoiceStatus.overdue
  originator_disputes : InvoiceStatus.financed ⟶ InvoiceStatus.disputed
  lender_reclaims : InvoiceStatus.overdue ⟶ InvoiceStatus.defaulted
  resolved_pending : InvoiceStatus.disputed ⟶ InvoiceStatus.pending
  resolved_financed : InvoiceStatus.disputed ⟶ InvoiceStatus.financed
  resolved_repaid : InvoiceStatus.disputed ⟶ InvoiceStatus.repaid
  resolved_cancelled : InvoiceStatus.disputed ⟶ InvoiceStatus.cancelled
  resolved_defaulted : InvoiceStatus.disputed ⟶ InvoiceStatus.defaulted

ruleset edges = (
  originator_cancels, offer_accepted, fully_repaid, partly_repaid, past_due, originator_disputes,
  lender_reclaims, resolved_pending, resolved_financed, resolved_repaid, resolved_cancelled,
  resolved_defaulted,
)

legal : (from to : InvoiceStatus) → validate_transition from to ≡ ok tt → from ⟶ to
unfolding validate_transition
legal from to h = grind (arith, edges)

accepted : {from to : InvoiceStatus} → from ⟶ to → validate_transition from to ≡ ok tt
unfolding validate_transition
accepted originator_cancels = refl
accepted offer_accepted = refl
accepted fully_repaid = refl
accepted partly_repaid = refl
accepted past_due = refl
accepted originator_disputes = refl
accepted lender_reclaims = refl
accepted resolved_pending = refl
accepted resolved_financed = refl
accepted resolved_repaid = refl
accepted resolved_cancelled = refl
accepted resolved_defaulted = refl

-- `validate_transition` accepts exactly the documented edges of the lifecycle.
pub validate_transition_iff :
    (from to : InvoiceStatus) → (validate_transition from to ≡ ok tt) ↔ (from ⟶ to)
validate_transition_iff from to = (λ h. legal from to h, λ e. accepted e)

module _ {ℓ} {A : Type ℓ} where
  abbrev pub drop : ℕ → List A → List A
  drop n [] = []
  drop zero (x ∷ xs) = x ∷ xs
  drop (suc n) (x ∷ xs) = drop n xs

  -- The last `n` elements, in order.
  abbrev pub keep_last : ℕ → List A → List A
  keep_last n xs = drop (length xs - n) xs

  drop_zero : (xs : List A) → drop 0 xs ≡ xs
  drop_zero [] = refl
  drop_zero (x ∷ xs) = refl

  drop-append : (n : ℕ) (xs ys : List A) → n ≤ length xs → drop n (xs ++ ys) ≡ drop n xs ++ ys
  drop-append zero [] ys h = drop_zero ys
  drop-append (suc n) [] ys h = elim h [ ]
  drop-append zero (x ∷ xs) ys h = refl
  drop-append (suc n) (x ∷ xs) ys h = drop-append n xs ys (omega arith)

  drop_first-drop : (n : ℕ) (xs : List A) → drop_first (drop n xs) ≡ drop (suc n) xs
  drop_first-drop n [] = refl
  drop_first-drop zero (x ∷ []) = refl
  drop_first-drop zero (x ∷ y ∷ xs) = refl
  drop_first-drop (suc n) (x ∷ xs) = drop_first-drop n xs

  length-drop : (n : ℕ) (xs : List A) → length (drop n xs) ≡ length xs - n
  length-drop n [] = omega arith
  length-drop zero (x ∷ xs) = omega arith
  length-drop (suc n) (x ∷ xs) = omega (arith, length-drop n xs)

all_kept {ℓ} : {A : Type ℓ} (xs : List A) → length xs ≤ 20 → drop (length xs - 20) xs ≡ xs
all_kept xs h = rw (start xs h) (drop_zero xs)
  where
    start : {A : Type ℓ} (ys : List A) → length ys ≤ 20 → length ys - 20 ≡ 0
    start ys k = omega arith

not_more : (n : ℕ) → n < 20 → ltb 20 (n + 1) ≡ false
not_more n h = ground arith

next_start : (n : ℕ) → 20 ≤ n → n + 1 - 20 ≡ suc (n - 20)
next_start n h = omega arith

push_bounded-keep_last :
    (full : List TransitionRecord) (r : TransitionRecord)
    → push_bounded (keep_last 20 full) r ≡ keep_last 20 (full ++ r ∷ [])
unfolding push_bounded
push_bounded-keep_last full r = elim (Bool-cases (ltb (length full) 20)) [
  | inl short ↦
      let few : length full < 20 = ltb→lt _ 20 short in
      rw
        (
          all_kept full (omega arith),
          all_kept (full ++ r ∷ []) (omega (arith, length-append full (r ∷ []))),
          length-append full (r ∷ []),
          not_more (length full) (omega arith),
        )
        refl
  | inr long ↦
      let many : 20 ≤ length full = ground arith in
      let n = length full - 20 in
      let kept : length (drop n full ++ r ∷ []) ≡ 21 =
        omega (arith, length-append (drop n full) (r ∷ []), length-drop n full) in
      rw (kept, ← drop-append n full (r ∷ []) (omega arith), drop_first-drop)
        (rw (length-append full (r ∷ []), next_start (length full) many) refl)
]

abbrev pub entry_of : Invocation → InvoiceStatus → InvoiceStatus → Address → TransitionRecord
entry_of c from to actor = record {
  from_status = from;
  to_status = to;
  actor = actor;
  timestamp = c.now;
}

-- If the stored history of an invoice is the last 20 entries of its full history, it still is after
-- an accepted transition, whose entry is the newest; the transition is one of the documented edges,
-- and no other invoice's history changes.
pub assert_transition-history :
    (c : Invocation) (id : Symbol) (from to : InvoiceStatus) (actor : Address) (s : Storage)
    {s' : Storage} (full : List TransitionRecord)
    → get_transition_history id s ≡ keep_last 20 full
    → assert_transition c id from to actor s ≡ ok s'
    → (from ⟶ to)
      × (get_transition_history id s' ≡ keep_last 20 (full ++ entry_of c from to actor ∷ []))
      × ((j : Symbol) → (j ≡ id) ⊎ (get_transition_history j s' ≡ get_transition_history j s))
unfolding assert_transition get_transition_history
assert_transition-history c id from to actor s full bounded h =
    let (edge, done) = >>-eq-ok (validate_transition from to) _ h in
    let history = get_or [] id s.trn_log in
    let grown = push_bounded history (entry_of c from to actor) in
    (
      legal from to edge,
      rw (← ok-injective _ _ done, get_or-set [] id id grown s.trn_log, ==_refl id, bounded)
          (push_bounded-keep_last full (entry_of c from to actor)),
      λ j. elim (Bool-cases (id == j)) [
        | inl same ↦ inl (sym (ℕ_eq id j same))
        | inr other ↦
            inr (rw (← ok-injective _ _ done, get_or-set [] id j grown s.trn_log, other) refl)
      ],
    )

-- Repaid, cancelled and defaulted invoices are final: no transition leaves them, whoever asks.
pub assert_transition-final :
    (c : Invocation) (id : Symbol) (from to : InvoiceStatus) (actor : Address) (s : Storage)
    → (from ≡ InvoiceStatus.repaid)
      ⊎ (from ≡ InvoiceStatus.cancelled)
      ⊎ (from ≡ InvoiceStatus.defaulted)
    → assert_transition c id from to actor s ≡ err (contract invalid_transition)
unfolding assert_transition
assert_transition-final c id from to actor s h = ground arith
