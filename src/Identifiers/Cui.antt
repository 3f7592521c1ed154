-- ===== src/Identifiers/Cui.antt =====
-- packages/shared-types/src/identifiers.ts: `sanitizeCui` and `isValidCUI`.
-- A text is a list of UTF-16 code units. `toUpperCase` is modelled on ASCII, which is exact here:
-- no other code unit becomes an R, an O or a digit, and every non-digit is removed.
pub mod Laws
pub mod Checksum
use cerniq_app_v.Prelude.{
  ℕ, ◌+◌, ◌-◌, ◌*◌, ◌%◌, List, [], ◌∷◌, map, Bool, false, not, ◌&&◌, ◌||◌, Option, none, some, ltb,
  ◌==◌, if◌then◌else◌, length, filter_by, every,
}
use cerniq_app_v.Prelude.Text.{is_digit, to_upper, trim, pad_start}

-- `normalized.startsWith("RO") ? normalized.slice(2) : normalized`
unfoldable pub drop_ro : List ℕ → List ℕ
drop_ro [] = []
drop_ro (a ∷ []) = a ∷ []
drop_ro (a ∷ b ∷ s) = if a == b'R' && b == b'O' then s else a ∷ b ∷ s

unfoldable pub sanitize_cui : List ℕ → List ℕ
unfolding drop_ro is_digit to_upper trim
sanitize_cui input = filter_by is_digit (drop_ro (trim (map to_upper input)))

-- `Number` of one digit.
abbrev pub digit : ℕ → ℕ
digit c = c - b'0'

abbrev pub control_key : List ℕ
control_key = 7 ∷ 5 ∷ 3 ∷ 2 ∷ 1 ∷ 7 ∷ 5 ∷ 3 ∷ 2 ∷ []

-- The loop over the control key, `digits[i] ?? 0` times the i-th weight.
unfoldable pub weighted_sum : List ℕ → List ℕ → ℕ
weighted_sum ds [] = 0
weighted_sum [] (k ∷ ks) = weighted_sum [] ks
weighted_sum (d ∷ ds) (k ∷ ks) = d * k + weighted_sum ds ks

unfoldable pub expected_digit : ℕ → ℕ
expected_digit sum = let remainder = sum * 10 % 11 in if remainder == 10 then 0 else remainder

-- `digits.pop()`: the last element and the rest.
unfoldable pub pop : List ℕ → Option (ℕ × List ℕ)
pop [] = none
pop (d ∷ ds) = elim (pop ds) [ none ↦ some (d, []) | some (last, front) ↦ some (last, d ∷ front) ]

unfoldable pub is_valid_cui : List ℕ → Bool
is_valid_cui input =
    let clean = sanitize_cui input in
    if ltb (length clean) 2 || ltb 10 (length clean) || not (every is_digit clean)
    then false
    else (elim (pop (map digit (pad_start 10 b'0' clean))) [
      | none ↦ false
      | some (check_digit, digits) ↦ check_digit == expected_digit (weighted_sum digits control_key)
    ])
