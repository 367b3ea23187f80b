-- ===== src/Reputation/Frequency.antt =====
-- Outcomes of reputation/src/lib.rs that follow one another within a half-life: each call of
-- `record_outcome` moves the clock to the present.
use invofi_contracts.Prelude.{
  ◌*◌, ◌⊎◌, inl, inr, ◌==◌, if◌then◌else◌, ℕ, ◌+◌, ◌≤◌, ◌<◌, ◌≡◌, refl, ◌∙◌, List, [], ◌∷◌, arith,
  ==_refl,
}
use invofi_contracts.Prelude.Int.{ℤ, pos, ◌+ℤ◌, int_laws}
use invofi_contracts.Host.Outcome.{Address, Invocation, Result, ok, ◌>>=◌, >>=-eq-ok, ok-injective}
use invofi_contracts.Host.MachineLaws.{add_i128-either, add_u32-either}
use invofi_contracts.Reputation.{
  ReputationRecord, Reputation, apply_pending_decay, add_outcome, record_outcome, get_record,
  decay_half_life_secs,
}
use invofi_contracts.Reputation.Outcomes.{record_outcome-Recorded, get_record-set}

add_none : (z : ℤ) → z ≡ z +ℤ pos 0
add_none z = omega int_laws

-- A run of outcomes of one originator: each is a call and the outcome it records.
unfoldable pub record_each : List (Invocation × ℕ) → Address → Reputation → Result Reputation
record_each [] a s = ok s
record_each ((c, outcome) ∷ rest) a s = record_outcome c a outcome s >>= record_each rest a

-- Each call comes less than a half-life after the one before it.
abbrev pub IsDense : ℕ → List (Invocation × ℕ) → Type 0
IsDense last [] = Unit
IsDense last ((c, _) ∷ rest) =
    (last ≤ c.now) × (c.now < last + decay_half_life_secs) × IsDense c.now rest

-- How often a run records an outcome.
abbrev pub times : ℕ → List (Invocation × ℕ) → ℕ
times outcome [] = 0
times outcome ((_, o) ∷ rest) = (if o == outcome then 1 else 0) + times outcome rest

young :
    (r : ReputationRecord) (now : ℕ)
    → r.last_recompute ≤ now
    → now < r.last_recompute + decay_half_life_secs
    → apply_pending_decay r now ≡ record r { last_recompute = now }
unfolding apply_pending_decay
young r now h k = ground arith

-- One outcome, without any decay.
credit :
    (outcome : ℕ) (r : ReputationRecord) {r' : ReputationRecord}
    → (outcome ≡ 0) ⊎ (outcome ≡ 1)
    → add_outcome outcome r ≡ ok r'
    → (r'.weighted_repayments ≡ r.weighted_repayments +ℤ pos (if outcome == 0 then 1 else 0))
      × (r'.weighted_defaults ≡ r.weighted_defaults +ℤ pos (2 * (if outcome == 1 then 1 else 0)))
      × (r'.last_recompute ≡ r.last_recompute)
unfolding add_outcome
credit outcome r {r'} (inl e) h =
    let k : add_outcome 0 r ≡ ok r' = rw e at h in
    let done : (r'.weighted_repayments ≡ r.weighted_repayments +ℤ pos 1)
        × (r'.weighted_defaults ≡ r.weighted_defaults)
        × (r'.last_recompute ≡ r.last_recompute) =
      ground
        (arith, add_u32-either r.repayments 1, add_i128-either r.weighted_repayments (pos 1)) in
    rw e (done.0, done.1 ∙ add_none r.weighted_defaults, done.2)
credit outcome r {r'} (inr e) h =
    let k : add_outcome 1 r ≡ ok r' = rw e at h in
    let done : (r'.weighted_repayments ≡ r.weighted_repayments)
        × (r'.weighted_defaults ≡ r.weighted_defaults +ℤ pos 2)
        × (r'.last_recompute ≡ r.last_recompute) =
      ground (arith, add_u32-either r.defaults 1, add_i128-either r.weighted_defaults (pos 2)) in
    rw e (done.0 ∙ add_none r.weighted_repayments, done.1, done.2)

recorded_once :
    (c : Invocation) (a outcome : ℕ) (s : Reputation) {s' : Reputation}
    → (get_record a s).last_recompute ≤ c.now
    → c.now < (get_record a s).last_recompute + decay_half_life_secs
    → record_outcome c a outcome s ≡ ok s'
    → ((get_record a s').weighted_repayments
        ≡ (get_record a s).weighted_repayments +ℤ pos (if outcome == 0 then 1 else 0))
      × ((get_record a s').weighted_defaults
          ≡ (get_record a s).weighted_defaults +ℤ pos (2 * (if outcome == 1 then 1 else 0)))
      × ((get_record a s').last_recompute ≡ c.now)
recorded_once c a outcome s {s'} h k e =
    let r = record_outcome-Recorded c a outcome s e in
    let here : get_record a s' ≡ r.updated =
      get_record-set s s' a a r.updated r.written ∙ rw (==_refl a) refl in
    rw here (credit outcome _ r.known (rw (young (get_record a s) c.now h k) at r.credited))

regroup : (z : ℤ) (m n : ℕ) → z +ℤ pos m +ℤ pos n ≡ z +ℤ pos (m + n)
regroup z m n = omega int_laws

regroup_twice : (z : ℤ) (m n : ℕ) → z +ℤ pos (2 * m) +ℤ pos (2 * n) ≡ z +ℤ pos (2 * (m + n))
regroup_twice z m n = omega int_laws

-- However long the run lasts, outcomes less than a half-life apart never decay: after any run of
-- repayments and defaults of an originator, the weight of the repayments has grown by their number, and
-- the weight of the defaults by twice theirs; nothing recorded before has lost any weight.
pub record_each-undecayed :
    (run : List (Invocation × ℕ)) (a : Address) (s : Reputation) {s' : Reputation}
    → IsDense (get_record a s).last_recompute run
    → record_each run a s ≡ ok s'
    → ((get_record a s').weighted_repayments
        ≡ (get_record a s).weighted_repayments +ℤ pos (times 0 run))
      × ((get_record a s').weighted_defaults
          ≡ (get_record a s).weighted_defaults +ℤ pos (2 * times 1 run))
unfolding record_each
record_each-undecayed [] a s dense h =
    rw (← ok-injective s _ h)
      (add_none (get_record a s).weighted_repayments, add_none (get_record a s).weighted_defaults)
record_each-undecayed ((c, outcome) ∷ rest) a s dense h =
    let (t, e, more) = >>=-eq-ok (record_outcome c a outcome s) (record_each rest a) h in
    let (w, d, l) = recorded_once c a outcome s dense.0 dense.1 e in
    let (w', d') = record_each-undecayed rest a t (rw l dense.2) more in
    (
      w' ∙ rw w (regroup (get_record a s).weighted_repayments _ (times 0 rest)),
      d' ∙ rw d (regroup_twice (get_record a s).weighted_defaults _ (times 1 rest)),
    )
