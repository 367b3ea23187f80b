-- ===== src/Common/Signers.antt =====
-- The laws of `validate_signers` of common/src/lib.rs.
use invofi_contracts.Prelude.{
  ℕ, suc, ◌+◌, ◌≤◌, ◌<◌, ◌≡◌, refl, sym, ◌∙◌, ◌↔◌, true, false, List, [], ◌∷◌, ◌++◌, arith,
  if◌then◌else◌, subst,
}
use invofi_contracts.Prelude.Lists.{
  length, is_empty, contains, All, IsDistinct, contains-append, length-append,
}
use mathlib.Core.List.{append_assoc}
use invofi_contracts.Host.Outcome.{Address, Invocation, ok}
use invofi_contracts.Common.Types.{AdminConfig}
use invofi_contracts.Common.Governance.{
  is_signer, clash, any_clash, validate_signers, assert_threshold,
}
use invofi_contracts.Common.Threshold.{IsApproval, assert_threshold_iff}

clash-past : (i a j : ℕ) (bs : List ℕ) → i < j → clash i a j bs ≡ contains bs a
unfolding clash
clash-past i a j [] h = refl
clash-past i a j (b ∷ bs) h = ground (arith, clash-past i a (suc j) bs)

clash-split :
    (i a j : ℕ) (pre post : List ℕ)
    → i ≡ j + length pre
    → clash i a j (pre ++ a ∷ post) ≡ (if contains pre a then true else contains post a)
unfolding clash
clash-split i a j [] post h = ground (arith, clash-past i a (suc j) post)
clash-split i a j (x ∷ pre) post h = ground (arith, clash-split i a (suc j) pre post)

-- No element of the second list is in the first.
abbrev IsApart : List ℕ → List ℕ → Type 0
IsApart pre = All (λ b. contains pre b ≡ false)

IsApart-snoc :
    (pre : List ℕ) (a : ℕ) (post : List ℕ)
    → IsApart pre post
    → contains post a ≡ false
    → IsApart (pre ++ a ∷ []) post
IsApart-snoc pre a [] h k = tt
IsApart-snoc pre a (b ∷ post) h k =
    (ground (arith, contains-append pre (a ∷ []) b), IsApart-snoc pre a post h.1 (ground arith))

any_clash-of_IsDistinct :
    (pre post : List ℕ)
    → IsApart pre post
    → IsDistinct post
    → any_clash (length pre) post (pre ++ post) ≡ false
unfolding any_clash
any_clash-of_IsDistinct pre [] apart distinct = refl
any_clash-of_IsDistinct pre (a ∷ post) apart distinct =
    let later : any_clash (suc (length pre)) post (pre ++ a ∷ post) ≡ false =
      subst (λ n. any_clash n post (pre ++ a ∷ post) ≡ false)
        (omega (arith, length-append pre (a ∷ [])))
        (rw (append_assoc pre (a ∷ []) post) at (
          any_clash-of_IsDistinct (pre ++ a ∷ []) post (IsApart-snoc pre a post apart.1 distinct.0)
            distinct.1)) in
    rw (clash-split (length pre) a 0 pre post (omega arith), apart.0, distinct.0) later

IsDistinct-of_any_clash :
    (pre post : List ℕ) → any_clash (length pre) post (pre ++ post) ≡ false → IsDistinct post
unfolding any_clash
IsDistinct-of_any_clash pre [] h = tt
IsDistinct-of_any_clash pre (a ∷ post) h =
    let here = clash-split (length pre) a 0 pre post (omega arith) in
    let rest : any_clash (suc (length pre)) post (pre ++ a ∷ post) ≡ false = ground (arith, here) in
    (
      ground (arith, here),
      IsDistinct-of_any_clash (pre ++ a ∷ []) post (
          rw (append_assoc pre (a ∷ []) post) (
            subst (λ n. any_clash n post (pre ++ a ∷ post) ≡ false)
              (omega (arith, length-append pre (a ∷ []))) rest)),
    )

IsApart-nil : (xs : List ℕ) → IsApart [] xs
IsApart-nil [] = tt
IsApart-nil (x ∷ xs) = (refl, IsApart-nil xs)

length-pos : (xs : List ℕ) → 1 ≤ length xs → is_empty xs ≡ false
length-pos [] h = elim h [ ]
length-pos (x ∷ xs) h = refl

-- A well-formed signer set: of 1 to 20 distinct addresses, with a threshold that it can reach.
pub record IsWellFormed (signers : List Address) (threshold : ℕ) : Type 0 where
  pub few : length signers ≤ 20
  pub positive : 1 ≤ threshold
  pub reachable : threshold ≤ length signers
  pub distinct : IsDistinct signers

-- `validate_signers` succeeds exactly on the well-formed sets: its quadratic loop finds every
-- duplicate, and no false one.
pub validate_signers_iff :
    (signers : List Address) (threshold : ℕ)
    → (validate_signers signers threshold ≡ ok tt) ↔ IsWellFormed signers threshold
unfolding validate_signers
validate_signers_iff signers threshold = (λ h. sound h, λ w. complete w)
  where
    no_clash : any_clash 0 signers signers ≡ false → IsDistinct signers
    no_clash h = IsDistinct-of_any_clash [] signers h

    sound : validate_signers signers threshold ≡ ok tt → IsWellFormed signers threshold
    sound h =
        let unique = no_clash (ground arith) in
        record {
          few = ground arith;
          positive = ground arith;
          reachable = ground arith;
          distinct = unique;
        }

    complete : IsWellFormed signers threshold → validate_signers signers threshold ≡ ok tt
    complete w = ground (
      arith,
      length-pos signers,
      any_clash-of_IsDistinct [] signers (IsApart-nil signers) w.distinct,
    )

-- Every signer that comes after `pre` approves, once.
IsApproval-suffix :
    (c : Invocation) (cfg : AdminConfig) (pre post : List Address)
    → cfg.signers ≡ pre ++ post
    → IsApart pre post
    → IsDistinct post
    → All (λ who. c.auth who ≡ true) post
    → IsApproval c cfg pre post
unfolding is_signer
IsApproval-suffix c cfg pre [] e apart distinct signed = tt
IsApproval-suffix c cfg pre (a ∷ post) e apart distinct signed = (
  rw e (ground (arith, contains-append pre (a ∷ post) a)),
  apart.0,
  signed.0,
  IsApproval-suffix c cfg (pre ++ a ∷ []) post (e ∙ sym (append_assoc pre (a ∷ []) post))
      (IsApart-snoc pre a post apart.1 distinct.0) distinct.1 signed.1,
)

-- No lock-out: once `validate_signers` has accepted a set, the whole set, if each of its members
-- authorizes the call, passes `assert_threshold`.
pub validate_signers-reachable :
    (c : Invocation) (signers : List Address) (threshold : ℕ)
    → validate_signers signers threshold ≡ ok tt
    → All (λ who. c.auth who ≡ true) signers
    → assert_threshold c (record { signers = signers; threshold = threshold }) signers ≡ ok tt
validate_signers-reachable c signers threshold h signed =
    let w = (validate_signers_iff signers threshold).0 h in
    let cfg : AdminConfig = record { signers = signers; threshold = threshold } in
    (assert_threshold_iff c cfg signers).1
      (IsApproval-suffix c cfg [] signers refl (IsApart-nil signers) w.distinct signed, w.reachable)
