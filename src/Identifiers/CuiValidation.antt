-- ===== src/Identifiers/CuiValidation.antt =====
-- workers/enrichment/src/lib/cui-validation.ts: the fiscal code check of the import pipeline.
use cerniq_app_v.Prelude.{
  ℕ, zero, suc, ◌+◌, ◌-◌, ◌*◌, ◌%◌, List, [], ◌∷◌, map, Bool, false, not, ◌&&◌, ◌||◌, Option, none,
  some, ltb, ◌==◌, if◌then◌else◌, length, filter_by, every, get_or, take, drop,
}
use cerniq_app_v.Prelude.Text.{is_digit, to_upper, trim, pad_start}

abbrev pub control_key : List ℕ
control_key = 7 ∷ 5 ∷ 3 ∷ 2 ∷ 1 ∷ 7 ∷ 5 ∷ 3 ∷ 2 ∷ []

-- `replace(/^RO/, "")`
unfoldable pub replace_ro : List ℕ → List ℕ
replace_ro s = if get_or s 0 0 == b'R' && get_or s 1 0 == b'O' then drop 2 s else s

-- The cleaned text, whose digits `replace(/\D/g, "")` keeps.
unfoldable pub sanitize_cui : List ℕ → List ℕ
unfolding replace_ro is_digit to_upper trim
sanitize_cui cui = filter_by is_digit (replace_ro (trim (map to_upper cui)))

-- `Number` of a digit.
abbrev pub to_number : ℕ → ℕ
to_number c = c - b'0'

-- The loop from i on, over so many digits: `sum += digits[i] * CONTROL_KEY[i]`.
unfoldable pub sum_from : List ℕ → ℕ → ℕ → ℕ → ℕ
sum_from digits zero i sum = sum
sum_from digits (suc n) i sum =
    sum_from digits n (i + 1) (sum + get_or digits i 0 * get_or control_key i 0)

pub record Checksum : Type 0 where
  pub is_valid : Bool
  pub check_digit : ℕ
  pub expected_check_digit : ℕ

pub data Reason : Type 0 where
  invalid_length non_numeric checksum_mismatch : Reason

pub record Modulo11 : Type 0 where
  pub is_valid : Bool
  pub cleaned : List ℕ
  pub reason : Option Reason
  pub check_digit : Option ℕ
  pub expected_check_digit : Option ℕ

-- `digits.pop() ?? -1` and what is left: the last of the padded text's digits, which are never
-- none, so that -1 is never taken. An index past the end counts 0; the loop's nine digits are there.
unfoldable pub validate_cui_checksum : List ℕ → Checksum
unfolding sum_from
validate_cui_checksum clean_cui =
    let digits = map to_number (pad_start 10 b'0' clean_cui) in
    let last = length digits - 1 in
    let check_digit = get_or digits last 0 in
    let remainder = sum_from (take last digits) 9 0 0 * 10 % 11 in
    let expected : ℕ = (if remainder == 10 then 0 else remainder) in
    record {
      is_valid = check_digit == expected;
      check_digit = check_digit;
      expected_check_digit = expected;
    }

-- The answer for a text that is not checked.
abbrev pub refused : List ℕ → Reason → Modulo11
refused cleaned r = record {
  is_valid = false;
  cleaned = cleaned;
  reason = some r;
  check_digit = none;
  expected_check_digit = none;
}

unfoldable pub validate_cui_modulo11 : List ℕ → Modulo11
validate_cui_modulo11 cui =
    let cleaned = sanitize_cui cui in
    if ltb (length cleaned) 2 || ltb 10 (length cleaned)
    then refused cleaned invalid_length
    else if not (every is_digit cleaned)
    then refused cleaned non_numeric
    else (let checksum = validate_cui_checksum cleaned in
        record {
          is_valid = checksum.is_valid;
          cleaned = cleaned;
          reason = if checksum.is_valid then none else some checksum_mismatch;
          check_digit = some checksum.check_digit;
          expected_check_digit = some checksum.expected_check_digit;
        })
