-- ===== src/Identifiers/NrRegCom.antt =====
-- packages/shared-types/src/identifiers.ts: the trade register number, in its old form
-- `J09/98/2003` and its new form `J2003000098095`.
-- `toUpperCase` is modelled on ASCII, which is exact here: no other code unit becomes a lone J, F,
-- C, a digit or a slash, and with any other code unit left in it a text matches neither form.
pub mod Parts
pub mod Laws
pub mod Canonical
use cerniq_app_v.Prelude.{
  ℕ, ◌+◌, ◌-◌, ◌%◌, List, [], ◌∷◌, ◌++◌, map, Bool, true, false, not, ◌&&◌, ◌||◌, Option, none,
  some, leb, ◌==◌, if◌then◌else◌, length, filter_by, every, take, drop, get_or,
}
use cerniq_app_v.Prelude.Text.{is_digit, is_space, to_upper, trim, pad_start}

-- A call returns, or throws an `Error`.
pub data Outcome {ℓ} (A : Type ℓ) : Type ℓ where
  returns : A → Outcome A
  throws : Outcome A

unfoldable pub normalize_identifier_whitespace : List ℕ → List ℕ
normalize_identifier_whitespace input =
    filter_by (λ c. not (is_space c)) (map to_upper (trim input))

-- `[JFC]`; the flag `i` admits lower case too.
unfoldable pub is_type_letter : ℕ → Bool
is_type_letter c = c == b'J' || c == b'F' || c == b'C' || c == b'j' || c == b'f' || c == b'c'

-- The longest run of digits at the front, and the rest.
unfoldable pub span_digits : List ℕ → List ℕ × List ℕ
span_digits [] = ([], [])
span_digits (c ∷ s) =
    let (run, rest) = span_digits s in if is_digit c then (c ∷ run, rest) else ([], c ∷ s)

pub record OldMatch : Type 0 where
  pub type : ℕ
  pub county : List ℕ
  pub order : List ℕ
  pub year : List ℕ

-- After a slash: a run of digits and what follows it.
unfoldable pub slash_digits : List ℕ → Option (List ℕ × List ℕ)
slash_digits [] = none
slash_digits (c ∷ s) = if c == b'/' then some (span_digits s) else none

-- `OLD_NR_REG_COM_RE`, /^([JFC])(\d{1,2})\/(\d+)\/(\d{4})$/i. A slash is no digit, so each group is
-- the whole run of digits at its place.
unfoldable pub match_old : List ℕ → Option OldMatch
match_old [] = none
match_old (t ∷ s) =
    let (county, rest) = span_digits s in
    elim (slash_digits rest) [
      | none ↦ none
      | some (order, rest') ↦ elim (slash_digits rest') [
        | none ↦ none
        | some (year, end) ↦
            if is_type_letter t
              && leb 1 (length county)
              && leb (length county) 2
              && leb 1 (length order)
              && length year == 4
              && length end == 0
            then some (record { type = t; county = county; order = order; year = year })
            else none
      ]
    ]

pub record NewMatch : Type 0 where
  pub base : List ℕ
  pub check_digit : ℕ

-- `NEW_NR_REG_COM_RE`, /^([JFC])(\d{4})(\d{6})(\d{2})(\d)$/i: a letter and thirteen digits. The
-- first four groups, joined again, are the base.
unfoldable pub match_new : List ℕ → Option NewMatch
match_new [] = none
match_new (t ∷ s) =
    if is_type_letter t && length s == 13 && every is_digit s
    then some (record { base = t ∷ take 12 s; check_digit = get_or s 12 0 - b'0' })
    else none

unfoldable pub sum_digits : List ℕ → ℕ
sum_digits [] = 0
sum_digits (c ∷ s) = (c - b'0') + sum_digits s

-- /^([JFC])(\d{4})(\d{6})(\d{2})$/
unfoldable pub is_base : List ℕ → Bool
is_base [] = false
is_base (t ∷ s) = (t == b'J' || t == b'F' || t == b'C') && length s == 12 && every is_digit s

-- `(type.codePointAt(0) + sum of the digits) % 10` of a base that the expression admits.
unfoldable pub check_of : List ℕ → ℕ
check_of [] = 0
check_of (t ∷ s) = (t + sum_digits s) % 10

unfoldable pub compute_nr_reg_com_check_digit : List ℕ → Outcome ℕ
compute_nr_reg_com_check_digit base =
    let normalized = normalize_identifier_whitespace base in
    if not (is_base normalized) then throws else returns (check_of normalized)

-- `${base}${check}`, with a check digit below 10.
unfoldable pub with_check : List ℕ → Outcome ℕ → Outcome (List ℕ)
with_check base throws = throws
with_check base (returns check) = returns (base ++ (b'0' + check) ∷ [])

unfoldable pub convert_old_nr_reg_com_to_canonical : OldMatch → Outcome (List ℕ)
convert_old_nr_reg_com_to_canonical m =
    let base =
      to_upper m.type
      ∷ (pad_start 4 b'0' m.year ++ (pad_start 6 b'0' m.order ++ pad_start 2 b'0' m.county)) in
    with_check base (compute_nr_reg_com_check_digit base)

-- `expected === Number(checkDigit) ? raw : null`
unfoldable pub checked : List ℕ → NewMatch → Outcome ℕ → Outcome (Option (List ℕ))
checked raw m throws = throws
checked raw m (returns expected) = returns (if expected == m.check_digit then some raw else none)

abbrev pub some_of : Outcome (List ℕ) → Outcome (Option (List ℕ))
some_of throws = throws
some_of (returns s) = returns (some s)

-- The new form is checked and kept, the old form is kept as it is; anything else is null.
unfoldable pub sanitize_nr_reg_com : List ℕ → Outcome (Option (List ℕ))
sanitize_nr_reg_com input =
    let raw = normalize_identifier_whitespace input in
    elim (match_new raw) [
      | some m ↦ checked raw m (compute_nr_reg_com_check_digit m.base)
      | none ↦ elim (match_old raw) [ some m ↦ returns (some raw) | none ↦ returns none ]
    ]

-- The new form is checked and kept, the old form is converted; anything else is null. An empty
-- text matches neither form.
unfoldable pub normalize_nr_reg_com : List ℕ → Outcome (Option (List ℕ))
normalize_nr_reg_com input =
    let raw = normalize_identifier_whitespace input in
    elim (match_new raw) [
      | some m ↦ checked raw m (compute_nr_reg_com_check_digit m.base)
      | none ↦ elim (match_old raw) [
        | none ↦ returns none
        | some m ↦ some_of (convert_old_nr_reg_com_to_canonical m)
      ]
    ]

unfoldable pub is_valid_nr_reg_com : List ℕ → Outcome Bool
is_valid_nr_reg_com input = elim (normalize_nr_reg_com input) [
  | throws ↦ throws
  | returns none ↦ returns false
  | returns (some _) ↦ returns true
]
