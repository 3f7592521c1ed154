-- ===== src/Identifiers/Tests.antt =====
-- Company identifiers at concrete inputs.
use cerniq_app_v.Prelude.{
  ℕ, length, ◌<◌, ◌≡◌, ◌≢◌, ◌↔◌, ◌==◌, ◌&&◌, refl, List, [], ◌∷◌, ◌++◌, true, false, some, every,
  arith,
}
use cerniq_app_v.Prelude.Text.{codes, is_digit, pad_start, trim, to_upper}
use cerniq_app_v.Identifiers.Cui.{sanitize_cui, is_valid_cui, expected_digit, pop, weighted_sum}
use cerniq_app_v.Identifiers.CuiValidation.{validate_cui_modulo11}
use cerniq_app_v.Identifiers.Cui.Laws.{is_valid_cui-eq-modulo11}
use cerniq_app_v.Identifiers.Cui.Checksum.{check_digit_unique, substitution_detected}
use cerniq_app_v.Identifiers.NrRegCom.{
  OldMatch, match_old, normalize_identifier_whitespace, normalize_nr_reg_com, returns, throws,
  match_new, is_type_letter, slash_digits, span_digits, convert_old_nr_reg_com_to_canonical,
  with_check, compute_nr_reg_com_check_digit, is_base, check_of, sum_digits,
}
use cerniq_app_v.Identifiers.NrRegCom.Laws.{normalize_nr_reg_com-throws_iff}
use cerniq_app_v.Identifiers.NrRegCom.Canonical.{normalize_nr_reg_com_idem}

valid-cui : is_valid_cui (codes " RO 18547290 ") ≡ true
unfolding is_valid_cui sanitize_cui expected_digit is_digit pop pad_start weighted_sum
valid-cui = refl

is_valid_cui-eq-modulo11_example :
    is_valid_cui (codes "18547290") ≡ (validate_cui_modulo11 (codes "18547290")).is_valid
is_valid_cui-eq-modulo11_example = is_valid_cui-eq-modulo11 (codes "18547290")

digits-body : every is_digit (codes "1854729") ≡ true
unfolding is_digit
digits-body = refl

digit-zero : is_digit b'0' ≡ true
unfolding is_digit
digit-zero = refl

check_digit_unique_example :
    (c : ℕ) × (is_digit c ≡ true)
    × ((d : ℕ) → (is_digit d && is_valid_cui (codes "1854729" ++ d ∷ [])) ≡ (d == c))
check_digit_unique_example =
    check_digit_unique (codes "1854729") digits-body (omega arith) (omega arith)

digits-one : every is_digit (codes "185" ++ b'4' ∷ codes "730") ≡ true
unfolding is_digit
digits-one = refl

digits-other : every is_digit (codes "185" ++ b'5' ∷ codes "730") ≡ true
unfolding is_digit
digits-other = refl

abbrev four : ℕ
four = b'4'

abbrev three : ℕ
three = b'3'

apart : four ≢ b'5'
apart h = absurd (omega arith)

not-zero : three ≢ b'0'
not-zero h = absurd (omega arith)

digit-three : is_digit b'3' ≡ true
unfolding is_digit
digit-three = refl

valid-one : is_valid_cui ((codes "185" ++ b'4' ∷ codes "730") ++ b'3' ∷ []) ≡ true
unfolding is_valid_cui sanitize_cui expected_digit is_digit pop pad_start weighted_sum
valid-one = refl

-- A wrong digit in the middle.
substitution_detected_example :
    is_valid_cui ((codes "185" ++ b'5' ∷ codes "730") ++ b'3' ∷ []) ≡ false
substitution_detected_example =
    substitution_detected (codes "185") (codes "730") b'4' b'5' b'3' digits-one digits-other
      digit-three (omega arith) apart not-zero valid-one

abbrev old_form : List ℕ
old_form = codes "J9/98/2003"

abbrev long_form : List ℕ
long_form = codes "J09/1234567/2003"

normalize_nr_reg_com-throws_iff_example : (normalize_nr_reg_com long_form ≡ throws) ↔ (
    (m : OldMatch) × (match_old (normalize_identifier_whitespace long_form) ≡ some m)
    × (6 < length m.order))
normalize_nr_reg_com-throws_iff_example = normalize_nr_reg_com-throws_iff long_form

normalized : normalize_nr_reg_com old_form ≡ returns (some (codes "J2003000098095"))
unfolding normalize_nr_reg_com match_new normalize_identifier_whitespace trim to_upper
    is_type_letter match_old slash_digits span_digits is_digit convert_old_nr_reg_com_to_canonical
    with_check compute_nr_reg_com_check_digit is_base pad_start check_of sum_digits
normalized = refl

normalize_nr_reg_com_idem_example :
    normalize_nr_reg_com (codes "J2003000098095") ≡ returns (some (codes "J2003000098095"))
normalize_nr_reg_com_idem_example =
    normalize_nr_reg_com_idem old_form (codes "J2003000098095") normalized
