-- ===== src/Financing/Paging.antt =====
-- `get_offers_paginated` of financing/src/lib.rs: its loop is a slice of the offers.
use invofi_contracts.Prelude.{
  ℕ, zero, suc, ◌+◌, ◌-◌, ◌≤◌, ◌<◌, ◌≡◌, refl, sym, ap, ◌∙◌, inl, inr, true, false, List, [], ◌∷◌,
  ◌++◌, Bool-cases, leb, ltb, le→leb, ltb→lt, arith,
}
use invofi_contracts.Prelude.Lists.{length, take, drop, append-nil, append_assoc, length-append}
use invofi_contracts.Prelude.Maps.{Map}
use invofi_contracts.Host.Outcome.{Symbol}
use invofi_contracts.Common.Types.{FinancingOffer}
use invofi_contracts.Financing.State.{Financing}
use invofi_contracts.Financing.Views.{
  page_from, get_offers_paginated, get_all_offers, select_offers,
}

-- Every offer, in key order.
abbrev pub values : Map Symbol FinancingOffer → List FinancingOffer
values [] = []
values ((_, offer) ∷ rest) = offer ∷ values rest

take-nil : (n : ℕ) → take {A = FinancingOffer} n [] ≡ []
take-nil zero = refl
take-nil (suc n) = refl

drop-nil : (n : ℕ) → drop {A = FinancingOffer} n [] ≡ []
drop-nil zero = refl
drop-nil (suc n) = refl

take-one :
    (n : ℕ) (o : FinancingOffer) (xs : List FinancingOffer) → n ≡ 1 → take n (o ∷ xs) ≡ o ∷ []
take-one n o xs e = rw e refl

take-next :
    (limit count : ℕ) (o : FinancingOffer) (xs : List FinancingOffer)
    → count < limit
    → take (limit - count) (o ∷ xs) ≡ o ∷ take (limit - (count + 1)) xs
take-next limit count o xs h =
    let e : limit - count ≡ suc (limit - (count + 1)) = omega (arith, h) in rw e refl

-- Past the offset, the page is filled up to the limit.
filled :
    (offset limit idx : ℕ) (page : List FinancingOffer) (m : Map Symbol FinancingOffer)
    → offset ≤ idx
    → length page ≤ limit
    → page_from offset limit idx page m ≡ page ++ take (limit - length page) (values m)
unfolding page_from
filled offset limit idx page [] past room =
    sym (ap (λ xs. page ++ xs) (take-nil (limit - length page)) ∙ append-nil page)
filled offset limit idx page ((k, o) ∷ rest) past room =
    elim (Bool-cases (ltb (length page) limit)) [
      | inl free ↦
          rw (le→leb offset idx past, free, length-append page (o ∷ []))
            (elim (Bool-cases (leb limit (length page + 1))) [
              | inl last ↦ rw last (
                  ap (λ xs. page ++ xs)
                    (sym (
                      take-one (limit - length page) o (values rest)
                        (remaining_one limit (length page) free last))))
              | inr more ↦ rw more (
                  filled offset limit (suc idx) (page ++ o ∷ []) rest (omega (arith, past))
                    (rw (length-append page (o ∷ [])) (room_left limit (length page) free))
                  ∙ rw
                      (
                        length-append page (o ∷ []),
                        append_assoc page (o ∷ []) (take (limit - (length page + 1)) (values rest)),
                        take-next limit (length page) o (values rest) (ltb→lt _ _ free),
                      )
                      refl)
            ])
      | inr full ↦
          rw (le→leb offset idx past, full, no_room limit (length page) full)
            (sym (
              ap (λ n. page ++ take n (o ∷ values rest)) (nothing_left limit (length page) full)
              ∙ append-nil page))
    ]
  where
    remaining_one : (l n : ℕ) → ltb n l ≡ true → leb l (n + 1) ≡ true → l - n ≡ 1
    remaining_one l n h k = ground arith

    room_left : (l n : ℕ) → ltb n l ≡ true → n + 1 ≤ l
    room_left l n h = ground arith

    no_room : (l n : ℕ) → ltb n l ≡ false → leb l n ≡ true
    no_room l n h = ground arith

    nothing_left : (l n : ℕ) → ltb n l ≡ false → l - n ≡ 0
    nothing_left l n h = ground arith

skipped :
    (offset limit idx : ℕ) (m : Map Symbol FinancingOffer)
    → idx ≤ offset
    → page_from offset limit idx [] m ≡ take limit (drop (offset - idx) (values m))
unfolding page_from
skipped offset limit idx [] h = sym (ap (take limit) (drop-nil (offset - idx)) ∙ take-nil limit)
skipped offset limit idx ((k, o) ∷ rest) h = elim (Bool-cases (ltb idx offset)) [
  | inr reached ↦
      let here : offset - idx ≡ 0 = ground arith in
      let past : offset ≤ idx = ground arith in
      let all : limit - 0 ≡ limit = omega arith in
      filled offset limit idx [] ((k, o) ∷ rest) past (omega arith) ∙ rw (here, all) refl
  | inl before ↦
      let early : leb offset idx ≡ false = ground arith in
      let next : offset - idx ≡ suc (offset - suc idx) = ground arith in
      rw (early, next)
        (elim (Bool-cases (leb limit 0)) [
          | inl none ↦ let e : limit ≡ 0 = ground arith in rw (none, e) refl
          | inr some ↦ rw some (skipped offset limit (suc idx) rest (ground arith))
        ])
]

all_values : (m : Map Symbol FinancingOffer) → select_offers (λ o. true) m ≡ values m
unfolding select_offers
all_values [] = refl
all_values ((k, o) ∷ rest) = rw (all_values rest) refl

-- A page is what is left of all offers, in key order, after the first `offset` are dropped, up to
-- `limit` of them.
pub get_offers_paginated-slice :
    (offset limit : ℕ) (s : Financing)
    → get_offers_paginated offset limit s ≡ take limit (drop offset (get_all_offers s))
unfolding get_offers_paginated get_all_offers
get_offers_paginated-slice offset limit s =
    let whole : offset - 0 ≡ offset = omega arith in
    (skipped offset limit 0 s.offers (omega arith) ∙ rw whole refl)
    ∙ ap (λ xs. take limit (drop offset xs)) (sym (all_values s.offers))
