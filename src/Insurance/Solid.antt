-- ===== src/Insurance/Solid.antt =====
-- The invariant of the contract of insurance/src/lib.rs, and what keeps its parts.
use invofi_contracts.Prelude.Int.{ℤ}
use invofi_contracts.Prelude.Maps.{Map, ℕ_key}
use invofi_contracts.Host.Outcome.{Symbol}
use invofi_contracts.Common.Contract.Administration.{IsGoverned}
use invofi_contracts.Insurance.State.{Insurance, load_tier_pool}
use invofi_contracts.Insurance.FlatBalance.{IsBalanced}
use invofi_contracts.Insurance.Reservations.{IsReserved}
use invofi_contracts.Insurance.TierBalance.{TiersBalanced}
use invofi_contracts.Insurance.Frames.{SameFlat, SameReserved, SameTiers, SameAdmin, SameMoney}

-- The contract is solid: the flat pool and the tiers are balanced, some ledger of what is owed
-- accounts for the reservations, and the signer set is well-formed.
pub record IsSolid (s : Insurance) : Type 0 where
  pub balanced : IsBalanced s
  pub owed : Map Symbol ℤ
  pub reserved : IsReserved s owed
  pub tiers : TiersBalanced s
  pub governed : IsGoverned s.store

pub keep-IsBalanced : (s s' : Insurance) → SameFlat s s' → IsBalanced s → IsBalanced s'
keep-IsBalanced s s' (stakes, total) b = rw (stakes, total) b

keep-IsReserved :
    (s s' : Insurance) (owed : Map Symbol ℤ)
    → SameReserved s s'
    → IsReserved s owed
    → IsReserved s' owed
keep-IsReserved s s' owed (resrvd, paid, total) (sums, low, each) =
    (rw total sums, low, λ k. rw (resrvd, paid) (each k))

keep-TiersBalanced : (s s' : Insurance) → SameTiers s s' → TiersBalanced s → TiersBalanced s'
unfolding load_tier_pool
keep-TiersBalanced s s' (stakes, pools) b tier = rw (stakes, pools) (b tier)

pub keep-IsGoverned : (s s' : Insurance) → SameAdmin s s' → IsGoverned s.store → IsGoverned s'.store
keep-IsGoverned s s' same g = record { cfg = g.cfg; stored = rw same g.stored; formed = g.formed }

pub flat_step :
    (s s' : Insurance)
    → SameReserved s s' × SameTiers s s' × SameAdmin s s'
    → IsSolid s
    → IsBalanced s'
    → IsSolid s'
flat_step s s' (reserved, tiers, admin) i balanced = record {
  balanced = balanced;
  owed = i.owed;
  reserved = keep-IsReserved s s' i.owed reserved i.reserved;
  tiers = keep-TiersBalanced s s' tiers i.tiers;
  governed = keep-IsGoverned s s' admin i.governed;
}

pub tier_step :
    (s s' : Insurance)
    → SameFlat s s' × SameReserved s s' × SameAdmin s s'
    → IsSolid s
    → TiersBalanced s'
    → IsSolid s'
tier_step s s' (flat, reserved, admin) i tiers = record {
  balanced = keep-IsBalanced s s' flat i.balanced;
  owed = i.owed;
  reserved = keep-IsReserved s s' i.owed reserved i.reserved;
  tiers = tiers;
  governed = keep-IsGoverned s s' admin i.governed;
}

pub reserve_step :
    (s s' : Insurance) (owed : Map Symbol ℤ)
    → SameTiers s s' × SameAdmin s s'
    → IsSolid s
    → IsBalanced s'
    → IsReserved s' owed
    → IsSolid s'
reserve_step s s' owed (tiers, admin) i balanced reserved = record {
  balanced = balanced;
  owed = owed;
  reserved = reserved;
  tiers = keep-TiersBalanced s s' tiers i.tiers;
  governed = keep-IsGoverned s s' admin i.governed;
}

pub settings_step :
    (s s' : Insurance) → SameMoney s s' → IsSolid s → IsGoverned s'.store → IsSolid s'
settings_step s s' (flat, reserved, tiers) i governed = record {
  balanced = keep-IsBalanced s s' flat i.balanced;
  owed = i.owed;
  reserved = keep-IsReserved s s' i.owed reserved i.reserved;
  tiers = keep-TiersBalanced s s' tiers i.tiers;
  governed = governed;
}
