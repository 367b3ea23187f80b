-- ===== src/Common/Threshold.antt =====
-- The laws of `assert_threshold` of common/src/lib.rs.
use invofi_contracts.Prelude.{◌+◌, ◌≤◌, ◌≡◌, refl, ◌↔◌, true, false, List, [], ◌∷◌, ◌++◌, arith}
use invofi_contracts.Prelude.Lists.{length, contains, length-append}
use invofi_contracts.Host.Outcome.{
  Address, Invocation, ok, >>=-eq-ok, guard-then, guard-eq-ok, not-eq-true,
}
use invofi_contracts.Common.Types.{AdminConfig}
use invofi_contracts.Common.Governance.{is_signer, count_signers, assert_threshold}

-- Each address is a signer and authorizes the invocation, and none stands twice, nor among those
-- counted already.
abbrev pub IsApproval : Invocation → AdminConfig → List Address → List Address → Type 0
IsApproval c cfg counted [] = Unit
IsApproval c cfg counted (who ∷ rest) =
    (is_signer cfg who ≡ true)
    × (contains counted who ≡ false)
    × (c.auth who ≡ true)
    × IsApproval c cfg (counted ++ who ∷ []) rest

module _ (c : Invocation) (cfg : AdminConfig) where
  count-of_IsApproval :
      (provided counted : List Address)
      → IsApproval c cfg counted provided
      → (all : List Address) × (count_signers c cfg provided counted ≡ ok all)
        × (length all ≡ length counted + length provided)
  unfolding count_signers
  count-of_IsApproval [] counted h = (counted, refl, omega arith)
  count-of_IsApproval (who ∷ rest) counted h =
      let (all, e, n) = count-of_IsApproval rest (counted ++ who ∷ []) h.3 in
      (all, rw (h.0, h.1, h.2) e, omega (arith, length-append counted (who ∷ [])))

  IsApproval-of_count :
      (provided counted : List Address) {all : List Address}
      → count_signers c cfg provided counted ≡ ok all
      → IsApproval c cfg counted provided × (length all ≡ length counted + length provided)
  unfolding count_signers
  IsApproval-of_count [] counted h = (tt, ground arith)
  IsApproval-of_count (who ∷ rest) counted h =
      let (signer, h1) = guard-then _ _ _ h in
      let (fresh, h2) = guard-then _ _ _ h1 in
      let (authorized, h3) = guard-then _ _ _ h2 in
      let (each, n) = IsApproval-of_count rest (counted ++ who ∷ []) h3 in
      (
        (signer, not-eq-true _ fresh, authorized, each),
        omega (arith, length-append counted (who ∷ [])),
      )

  -- `assert_threshold` succeeds exactly when the provided addresses are signers, are distinct, have
  -- all authorized the call, and are at least as many as the threshold.
  pub assert_threshold_iff :
      (provided : List Address)
      → (assert_threshold c cfg provided ≡ ok tt)
        ↔ (IsApproval c cfg [] provided × (cfg.threshold ≤ length provided))
  unfolding assert_threshold
  assert_threshold_iff provided = (λ h. approved h, λ h. accepted h)
    where
      approved :
          assert_threshold c cfg provided ≡ ok tt
          → IsApproval c cfg [] provided × (cfg.threshold ≤ length provided)
      approved h =
          let (all, e, reached) = >>=-eq-ok (count_signers c cfg provided []) _ h in
          let (each, n) = IsApproval-of_count provided [] e in
          (each, ground (arith, guard-eq-ok _ _ reached))

      accepted :
          IsApproval c cfg [] provided × (cfg.threshold ≤ length provided)
          → assert_threshold c cfg provided ≡ ok tt
      accepted h = let (all, e, n) = count-of_IsApproval provided [] h.0 in rw e (ground arith)
