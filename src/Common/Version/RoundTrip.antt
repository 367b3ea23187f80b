-- ===== src/Common/Version/RoundTrip.antt =====
-- Printing a version, and parsing it with `parse_semantic_version` of common/src/lib.rs.
use invofi_contracts.Prelude.{
  ℕ, zero, suc, ◌+◌, ◌*◌, ◌/◌, ◌%◌, ◌≤◌, ◌<◌, ◌≡◌, refl, ap, ◌∙◌, ◌⊎◌, false, List, [], ◌∷◌, ◌++◌,
  arith, ltb, lt→ltb, ltb→lt, le→leb, ◌==◌, inl, inr, Bool-cases, if◌then◌else◌,
}
use invofi_contracts.Prelude.Lists.{length, length-append}
use invofi_contracts.Host.Outcome.{ok, >>=-eq-ok}
use invofi_contracts.Common.Types.{SemanticVersion, Text}
use invofi_contracts.Common.Version.{
  Parser, part_at, set_part, step_byte, scan, initial_parser, parse_semantic_version,
}

-- The decimal digits of a number, the first one first; ten rounds serve every `u32`.
abbrev pub decimal_from : ℕ → ℕ → List ℕ
decimal_from zero n = []
decimal_from (suc f) n =
    if ltb n 10 then (48 + n) ∷ [] else decimal_from f (n / 10) ++ (48 + n % 10) ∷ []

abbrev pub decimal : ℕ → List ℕ
decimal = decimal_from 10

abbrev pub print_version : SemanticVersion → Text
print_version v = decimal v.major ++ (b'.' ∷ (decimal v.minor ++ (b'.' ∷ decimal v.patch)))

abbrev power_10 : ℕ → ℕ
power_10 zero = 1
power_10 (suc f) = 10 * power_10 f

scan-append : (xs ys : List ℕ) (p q : Parser) → scan xs p ≡ ok q → scan (xs ++ ys) p ≡ scan ys q
unfolding scan
scan-append [] ys p q h = ground arith
scan-append (x ∷ xs) ys p q h =
    let (p', e, rest) = >>=-eq-ok (step_byte x p) (scan xs) h in rw e (scan-append xs ys p' q rest)

part_at-set_part :
    (k v : ℕ) (parts : List ℕ) → k < length parts → part_at k (set_part k v parts) ≡ v
part_at-set_part k v [] h = elim h [ ]
part_at-set_part zero v (x ∷ parts) h = refl
part_at-set_part (suc k) v (x ∷ parts) h = part_at-set_part k v parts (omega arith)

set_part-set_part :
    (k v w : ℕ) (parts : List ℕ) → set_part k w (set_part k v parts) ≡ set_part k w parts
set_part-set_part k v w [] = refl
set_part-set_part zero v w (x ∷ parts) = refl
set_part-set_part (suc k) v w (x ∷ parts) = ap (λ l. x ∷ l) (set_part-set_part k v w parts)

-- One more digit: the part was not begun, or is not zero so far.
step-digit :
    (k : ℕ) (parts : List ℕ) (d v n w : ℕ)
    → part_at k parts ≡ v
    → (n ≡ 0) ⊎ (0 < v)
    → d < 10
    → w ≡ v * 10 + d
    → w < 4294967296
    → scan ((48 + d) ∷ []) (record { parts = parts; part = k; digits = n })
      ≡ ok (record { parts = set_part k w parts; part = k; digits = n + 1 })
unfolding step_byte scan
step-digit k parts d v n w e started small exact fits = ground arith

one_digit :
    (k : ℕ) (parts : List ℕ) (n : ℕ)
    → part_at k parts ≡ 0
    → n < 10
    → scan ((48 + n) ∷ []) (record { parts = parts; part = k; digits = 0 })
      ≡ ok (record { parts = set_part k n parts; part = k; digits = 1 })
one_digit k parts n empty small =
    step-digit k parts n 0 0 n empty (inl refl) small (omega arith) (omega arith)

-- Scanning the digits of `n` from an empty part leaves `n` in the part.
scan-decimal :
    (f k : ℕ) (parts : List ℕ) (n : ℕ)
    → n < power_10 (suc f)
    → n < 4294967296
    → k < length parts
    → part_at k parts ≡ 0
    → scan (decimal_from (suc f) n) (record { parts = parts; part = k; digits = 0 })
      ≡ ok (record {
        parts = set_part k n parts;
        part = k;
        digits = length (decimal_from (suc f) n);
      })
scan-decimal zero k parts n bound fits k_in empty =
    rw (lt→ltb n 10 (omega arith)) (one_digit k parts n empty (omega arith))
scan-decimal (suc f) k parts n bound fits k_in empty = elim (Bool-cases (ltb n 10)) [
  | inl small ↦ rw small (one_digit k parts n empty (ltb→lt n 10 small))
  | inr large ↦
      let front = decimal_from (suc f) (n / 10) in
      let front_scan = scan-decimal f k parts (n / 10) (omega arith) (omega arith) k_in empty in
      let ten : 10 ≤ n = ground arith in
      rw (large, length-append front ((48 + n % 10) ∷ []))
        (scan-append front ((48 + n % 10) ∷ []) _ _ front_scan
          ∙ rw (← set_part-set_part k (n / 10) n parts) (
              step-digit k (set_part k (n / 10) parts) (n % 10) (n / 10) (length front) n
                (part_at-set_part k (n / 10) parts k_in) (inr (omega arith)) (omega arith)
                (omega arith) fits))
]

scan_dot :
    (k n : ℕ) (parts bs : List ℕ)
    → 0 < n
    → k < 2
    → scan (b'.' ∷ bs) (record { parts = parts; part = k; digits = n })
      ≡ scan bs (record { parts = parts; part = k + 1; digits = 0 })
unfolding step_byte scan
scan_dot k n parts bs begun early = ground arith

decimal_length :
    (f n : ℕ) → (1 ≤ length (decimal_from (suc f) n)) × (length (decimal_from (suc f) n) ≤ suc f)
decimal_length zero n = ground arith
decimal_length (suc f) n = ground (
  arith,
  decimal_length f (n / 10),
  length-append {0} (decimal_from (suc f) (n / 10)) ((48 + n % 10) ∷ []),
)

pub record IsU32Version (v : SemanticVersion) : Type 0 where
  pub major_fits : v.major < 4294967296
  pub minor_fits : v.minor < 4294967296
  pub patch_fits : v.patch < 4294967296

print_length :
    (v : SemanticVersion) → (5 ≤ length (print_version v)) × (length (print_version v) ≤ 32)
print_length v = omega (
  arith,
  decimal_length 9 v.major,
  decimal_length 9 v.minor,
  decimal_length 9 v.patch,
  length-append {0} (decimal v.minor) (b'.' ∷ decimal v.patch),
  length-append {0} (decimal v.major) (b'.' ∷ (decimal v.minor ++ (b'.' ∷ decimal v.patch))),
)

positive : (n : ℕ) → 1 ≤ n → (n == 0) ≡ false
positive n h = ground arith

module _ (v : SemanticVersion) (w : IsU32Version v) where
  scan_version :
      scan (print_version v) initial_parser
      ≡ ok (record {
        parts = v.major ∷ v.minor ∷ v.patch ∷ [];
        part = 2;
        digits = length (decimal v.patch);
      })
  scan_version =
      scan-append (decimal v.major) _ _ _ (
        scan-decimal 9 0 (0 ∷ 0 ∷ 0 ∷ []) v.major (omega (arith, w.major_fits)) w.major_fits
          (omega arith) refl)
      ∙ scan_dot 0 (length (decimal v.major)) _ _ (decimal_length 9 v.major).0 (omega arith)
      ∙ scan-append (decimal v.minor) _ _ _ (
          scan-decimal 9 1 (v.major ∷ 0 ∷ 0 ∷ []) v.minor (omega (arith, w.minor_fits)) w.minor_fits
            (omega arith) refl)
      ∙ scan_dot 1 (length (decimal v.minor)) _ _ (decimal_length 9 v.minor).0 (omega arith)
      ∙ scan-decimal 9 2 (v.major ∷ v.minor ∷ 0 ∷ []) v.patch (omega (arith, w.patch_fits))
          w.patch_fits (omega arith) refl

  -- Every version of three `u32` components, printed in decimal with dots, is parsed back to itself;
  -- in particular the length limit of 32 bytes refuses none of them.
  pub parse_semantic_version-print : parse_semantic_version (print_version v) ≡ ok v
  unfolding parse_semantic_version
  parse_semantic_version-print =
      rw (le→leb 5 _ (print_length v).0, le→leb _ 32 (print_length v).1, scan_version)
        (rw (positive (length (decimal v.patch)) (decimal_length 9 v.patch).0) refl)
