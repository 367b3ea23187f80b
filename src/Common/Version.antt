-- ===== src/Common/Version.antt =====
-- `parse_semantic_version` of common/src/lib.rs: a loop over the bytes that fills three `u32` parts.
pub mod RoundTrip
use invofi_contracts.Prelude.{
  ℕ, zero, suc, ◌+◌, ◌-◌, ◌*◌, Bool, true, false, not, ◌&&◌, ◌||◌, List, [], ◌∷◌, ltb, leb, ◌==◌,
  if◌then◌else◌,
}
use invofi_contracts.Prelude.Lists.{length}
use invofi_contracts.Host.Outcome.{
  Fault, Result, ok, err, ◌>>=◌, ◌>>◌, contract, invalid_version, guard,
}
use invofi_contracts.Host.Machine.{u32_bound}
use invofi_contracts.Common.Types.{SemanticVersion, Text}

-- The local variables of the loop; `parts` has three elements.
pub record Parser : Type 0 where
  pub parts : List ℕ
  pub part : ℕ
  pub digits : ℕ

-- `parts[i]`
abbrev pub part_at : ℕ → List ℕ → ℕ
part_at i [] = 0
part_at zero (x ∷ xs) = x
part_at (suc i) (x ∷ xs) = part_at i xs

abbrev pub set_part : ℕ → ℕ → List ℕ → List ℕ
set_part i v [] = []
set_part zero v (x ∷ xs) = v ∷ xs
set_part (suc i) v (x ∷ xs) = x ∷ set_part i v xs

abbrev bad : Fault
bad = contract invalid_version

abbrev is_ascii_digit : ℕ → Bool
is_ascii_digit b = leb 48 b && leb b 57

-- `checked_mul(10)`, then `checked_add`: a part is a `u32`.
abbrev accumulate : ℕ → ℕ → Result ℕ
accumulate v d = do
  guard (ltb (v * 10) u32_bound) bad
  guard (ltb (v * 10 + d) u32_bound) bad
  ok (v * 10 + d)

-- The body of the loop.
unfoldable pub step_byte : ℕ → Parser → Result Parser
step_byte b p =
    if b == b'.'
    then (do
      guard (not (p.part == 2 || p.digits == 0)) bad
      ok (record p { part = p.part + 1; digits = 0 }))
    else (do
      let current = part_at p.part p.parts
      guard (not (not (is_ascii_digit b) || (ltb 0 p.digits && current == 0))) bad
      value ← accumulate current (b - 48)
      ok (record p { parts = set_part p.part value p.parts; digits = p.digits + 1 }))

unfoldable pub scan : List ℕ → Parser → Result Parser
unfolding step_byte
scan [] p = ok p
scan (b ∷ bs) p = step_byte b p >>= scan bs

abbrev pub initial_parser : Parser
initial_parser = record { parts = 0 ∷ 0 ∷ 0 ∷ []; part = 0; digits = 0 }

unfoldable pub parse_semantic_version : Text → Result SemanticVersion
unfolding scan
parse_semantic_version value = do
  guard (leb 5 (length value) && leb (length value) 32) bad
  p ← scan value initial_parser
  guard (not (not (p.part == 2) || p.digits == 0)) bad
  ok (record { major = part_at 0 p.parts; minor = part_at 1 p.parts; patch = part_at 2 p.parts })

-- The derived order: by components, the major one first.
abbrev pub version_le : SemanticVersion → SemanticVersion → Bool
version_le v w =
    if ltb v.major w.major
    then true
    else if ltb w.major v.major
    then false
    else if ltb v.minor w.minor
    then true
    else if ltb w.minor v.minor
    then false
    else leb v.patch w.patch
