-- ===== src/Repayment/Kept.antt =====
-- The invariant of the contract of repayment/src/lib.rs.
use invofi_contracts.Prelude.{ℕ, ◌+◌, ◌≤◌, ◌≡◌, List, [], ◌∷◌, ◌++◌, arith}
use invofi_contracts.Prelude.Lists.{length}
use invofi_contracts.Prelude.Int.{pos, ◌≤ℤ◌, ◌<ℤ◌, ◌+ℤ◌}
use invofi_contracts.Prelude.Maps.{ℕ_key}
use invofi_contracts.Host.Outcome.{Symbol}
use invofi_contracts.Common.Types.{PaymentRecord}
use invofi_contracts.Common.Storage.{Storage}
use invofi_contracts.Common.Contract.Administration.{IsGoverned}
use invofi_contracts.Repayment.State.{Repayment, load_payments, max_penalty_bps}

-- A payment was positive and is the sum of its interest and its principal.
pub record IsSplit (p : PaymentRecord) : Type 0 where
  pub positive : pos 0 <ℤ p.amount
  pub interest : pos 0 ≤ℤ p.interest_paid
  pub principal : pos 0 ≤ℤ p.principal_paid
  pub sum : p.interest_paid +ℤ p.principal_paid ≡ p.amount

-- A history whose payments are numbered from n + 1 on.
abbrev pub IsNumbered : ℕ → List PaymentRecord → Type 0
IsNumbered n [] = Unit
IsNumbered n (p ∷ ps) = (p.payment_id ≡ n + 1) × IsSplit p × IsNumbered (n + 1) ps

pub IsNumbered-append :
    (n : ℕ) (ps : List PaymentRecord) (p : PaymentRecord)
    → IsNumbered n ps
    → p.payment_id ≡ n + length ps + 1
    → IsSplit p
    → IsNumbered n (ps ++ p ∷ [])
IsNumbered-append n [] p h e split = (omega (arith, e), split, tt)
IsNumbered-append n (q ∷ ps) p (first, whole, rest) e split =
    (first, whole, IsNumbered-append (n + 1) ps p rest (omega (arith, e)) split)

-- Every history is numbered from one, every payment in it is the sum of its parts, the penalty is
-- within its limits, and the signer set is well-formed.
pub record IsKept (s : Repayment) : Type 0 where
  pub histories : (id : Symbol) → IsNumbered 0 (load_payments id s)
  pub rate : s.penbps ≤ max_penalty_bps
  pub cap : s.pencap ≤ 10000
  pub governed : IsGoverned s.store

pub settings_step :
    (s s' : Repayment)
    → s'.pays ≡ s.pays
    → s'.penbps ≡ s.penbps
    → s'.pencap ≡ s.pencap
    → IsKept s
    → IsGoverned s'.store
    → IsKept s'
unfolding load_payments
settings_step s s' pays rate cap k governed = record {
  histories = λ id. rw pays (k.histories id);
  rate = rw rate k.rate;
  cap = rw cap k.cap;
  governed = governed;
}

pub same_governed : (s s' : Storage) → s'.admcfg ≡ s.admcfg → IsGoverned s → IsGoverned s'
same_governed s s' same g = record { cfg = g.cfg; stored = rw same g.stored; formed = g.formed }
