-- ===== src/Financing/Proposals.antt =====
-- `last_proposal_by` of financing/src/lib.rs finds the latest round of a party.
use invofi_contracts.Prelude.{
  ◌≡◌, ◌⊎◌, sym, ap, ◌∙◌, inl, inr, true, false, Option, none, some, List, [], ◌∷◌, ◌++◌,
  Bool-cases,
}
use invofi_contracts.Prelude.Lists.{All}
use invofi_contracts.Common.Domain.{NegotiationParty, NegotiationRecord}
use invofi_contracts.Financing.Negotiation.{same_party, last_proposal_from, last_proposal_by}

-- None of the rounds is the party's.
abbrev pub AreOthers : NegotiationParty → List NegotiationRecord → Type 0
AreOthers party rounds = All (λ (r : NegotiationRecord). same_party r.party party ≡ false) rounds

-- The round is the party's, and the party has none after it.
pub record IsLatest (party : NegotiationParty) (history : List NegotiationRecord)
    (r : NegotiationRecord) : Type 0 where
  pub before : List NegotiationRecord
  pub later : List NegotiationRecord
  pub placed : history ≡ before ++ r ∷ later
  pub own : same_party r.party party ≡ true
  pub others : AreOthers party later

found_from :
    (party : NegotiationParty) (latest : Option NegotiationRecord)
    (history : List NegotiationRecord) (r : NegotiationRecord)
    → last_proposal_from party latest history ≡ some r
    → IsLatest party history r ⊎ ((latest ≡ some r) × AreOthers party history)
unfolding last_proposal_from
found_from party latest [] r h = inr (h, tt)
found_from party latest (entry ∷ rest) r h = elim (Bool-cases (same_party entry.party party)) [
  | inl own ↦ elim (found_from party (some entry) rest r (rw own at h)) [
    | inl k ↦ inl (record {
      before = entry ∷ k.before;
      later = k.later;
      placed = ap (λ xs. entry ∷ xs) k.placed;
      own = k.own;
      others = k.others;
    })
    | inr (e, others) ↦
        let same : entry ≡ r = cc in
        inl (record {
          before = [];
          later = rest;
          placed = ap (λ x. x ∷ rest) same;
          own = ap (λ x. same_party x.party party) (sym same) ∙ own;
          others = others;
        })
  ]
  | inr other ↦ elim (found_from party latest rest r (rw other at h)) [
    | inl k ↦ inl (record {
      before = entry ∷ k.before;
      later = k.later;
      placed = ap (λ xs. entry ∷ xs) k.placed;
      own = k.own;
      others = k.others;
    })
    | inr (e, others) ↦ inr (e, (other, others))
  ]
]

-- What `last_proposal_by` finds is a round of the party after which the party has none.
pub last_proposal_by-IsLatest :
    (history : List NegotiationRecord) (party : NegotiationParty) {r : NegotiationRecord}
    → last_proposal_by history party ≡ some r
    → IsLatest party history r
unfolding last_proposal_by
last_proposal_by-IsLatest history party {r} h = elim (found_from party none history r h) [
  | inl k ↦ k
  | inr (e, others) ↦ cc
]
