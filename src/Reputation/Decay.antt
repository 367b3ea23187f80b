-- ===== src/Reputation/Decay.antt =====
-- The closed form of `apply_pending_decay` of reputation/src/lib.rs.
use invofi_contracts.Prelude.{
  ℕ, zero, suc, ◌-◌, ◌/◌, ◌^◌, ◌≤◌, ◌<◌, ◌≡◌, refl, ap, ◌∙◌, inl, inr, Bool-cases, leb, leb→le,
  lt→ltb, arith,
}
use invofi_contracts.Prelude.Int.{pos, quot-pos}
use native.Mathlib.Nat.{div-div-eq-div-mul, pow-suc}
use invofi_contracts.Reputation.{
  ReputationRecord, decay_half_life_secs, halve, decay_loop, apply_pending_decay,
}

-- The reference: `k` halvings.
halvings : ℕ → ReputationRecord → ReputationRecord
halvings zero r = r
halvings (suc k) r = halvings k (halve r)

decay_loop-halvings :
    (fuel elapsed : ℕ) (r : ReputationRecord)
    → elapsed / decay_half_life_secs < fuel
    → decay_loop fuel elapsed r ≡ halvings (elapsed / decay_half_life_secs) r
unfolding decay_loop halvings
decay_loop-halvings zero elapsed r h = elim h [ ]
decay_loop-halvings (suc fuel) elapsed r h = elim (Bool-cases (leb decay_half_life_secs elapsed)) [
  | inl more ↦
      let long : decay_half_life_secs ≤ elapsed = leb→le _ _ more in
      let rounds : elapsed / decay_half_life_secs
          ≡ suc ((elapsed - decay_half_life_secs) / decay_half_life_secs) =
        omega arith in
      rw (more, rounds)
        (decay_loop-halvings fuel (elapsed - decay_half_life_secs) (halve r) (omega arith))
  | inr done ↦
      let short : elapsed < decay_half_life_secs = ground arith in
      let none_left : elapsed / decay_half_life_secs ≡ 0 = omega arith in rw (done, none_left) refl
]

-- A record whose weights are natural numbers.
abbrev pub weighted : ReputationRecord → ℕ → ℕ → ReputationRecord
weighted r m n = record r { weighted_repayments = pos m; weighted_defaults = pos n }

deeper : (x k : ℕ) → x / 2 / 2 ^ k ≡ x / 2 ^ suc k
deeper x k = div-div-eq-div-mul x 2 (2 ^ k) ∙ ap (λ (t : ℕ). x / t) (omega (arith, pow-suc 2 k))

halvings-weighted :
    (k : ℕ) (r : ReputationRecord) (m n : ℕ)
    → halvings k (weighted r m n) ≡ weighted r (m / 2 ^ k) (n / 2 ^ k)
unfolding halvings halve
halvings-weighted zero r m n = rw (one m, one n) refl
  where
    one : (x : ℕ) → x / 2 ^ 0 ≡ x
    one x = omega arith
halvings-weighted (suc k) r m n =
    rw (quot-pos m 2 (omega arith), quot-pos n 2 (omega arith))
      (halvings-weighted k r (m / 2) (n / 2) ∙ rw (deeper m k, deeper n k) refl)

-- Decay in closed form: with `k` the number of full half-lives since the last recomputation, both
-- weights are divided by 2 ^ k, rounding down, the counts stay, and the clock is set to `now`. The
-- loop always ends within its fuel.
pub apply_pending_decay-closed :
    (r : ReputationRecord) (m n now : ℕ)
    → 0 < r.last_recompute
    → r.last_recompute < now
    → apply_pending_decay (weighted r m n) now ≡ (
        let k = (now - r.last_recompute) / decay_half_life_secs in
        record (weighted r (m / 2 ^ k) (n / 2 ^ k)) { last_recompute = now })
unfolding apply_pending_decay
apply_pending_decay-closed r m n now started later =
    rw
      (
        lt→ltb r.last_recompute now later,
        lt→ltb 0 r.last_recompute started,
        decay_loop-halvings (suc (now - r.last_recompute)) (now - r.last_recompute) (weighted r m n)
            (omega arith),
        halvings-weighted ((now - r.last_recompute) / decay_half_life_secs) r m n,
      )
      refl
