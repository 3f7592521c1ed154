-- ===== src/Identifiers/NrRegCom/Canonical.antt =====
-- Normalizing a register number twice.
use cerniq_app_v.Prelude.{
  ℕ, ◌+◌, ◌-◌, ◌<◌, ◌≡◌, refl, List, [], ◌∷◌, ◌++◌, true, some, arith, leb, ◌==◌, length, every,
  every-append, every-weaken,
}
use cerniq_app_v.Prelude.Text.{is_digit, to_upper, digit-to_upper}
use cerniq_app_v.Identifiers.NrRegCom.{
  returns, normalize_identifier_whitespace, match_new, NewMatch, OldMatch, check_of, checked,
  normalize_nr_reg_com,
}
use cerniq_app_v.Identifiers.NrRegCom.Parts.{
  IsOld, canonical_base, canonical_tail, canonical_tail-digits, canonical_tail-size,
  letter-to_upper, match_new-letter_digits, normalized-upper, to_upper_idem,
}
use cerniq_app_v.Identifiers.NrRegCom.Laws.{
  match_new-IsNew, Form, neither, new, old, form, canonical,
}

check_of-lt : (b : List ℕ) → check_of b < 10
unfolding check_of
check_of-lt [] = omega arith
check_of-lt (t ∷ s) = omega arith

digit-below : (c : ℕ) → c < 10 → (is_digit (b'0' + c) ≡ true) × (b'0' + c - b'0' ≡ c)
unfolding is_digit
digit-below c h = ground arith

-- A converted number has the new form, with its own check digit.
match_new-canonical :
    (m : OldMatch)
    → IsOld m
    → leb (length m.order) 6 ≡ true
    → match_new (canonical m)
      ≡ some (record { base = canonical_base m; check_digit = check_of (canonical_base m) })
match_new-canonical m groups short =
    let check = check_of (canonical_base m) in
    let (is, back) = digit-below check (check_of-lt (canonical_base m)) in
    rw (
      match_new-letter_digits (to_upper m.type) (canonical_tail m) (b'0' + check)
          (letter-to_upper m.type groups.letter) (canonical_tail-digits m groups)
          (ground (arith, canonical_tail-size m groups)) is,
      back,
    )

-- A text of the new form with the right check digit, already in upper case without white space.
normalize-match_new :
    (r : List ℕ) (m : NewMatch)
    → match_new r ≡ some m
    → every (λ c. to_upper c == c) r ≡ true
    → check_of m.base ≡ m.check_digit
    → normalize_nr_reg_com r ≡ returns (some r)
unfolding normalize_nr_reg_com checked
normalize-match_new r m e u check =
    let is = match_new-IsNew r m u e in ground (arith, is.fixed, is.computed)

canonical-upper : (m : OldMatch) → IsOld m → every (λ c. to_upper c == c) (canonical m) ≡ true
canonical-upper m groups =
    let check = check_of (canonical_base m) in
    let digits =
      every-append is_digit (canonical_tail m) ((b'0' + check) ∷ [])
        (canonical_tail-digits m groups)
        (rw ((digit-below check (check_of-lt (canonical_base m))).0)) in
    ground (
      arith,
      to_upper_idem m.type,
      every-weaken is_digit (λ c. to_upper c == c) (canonical_tail m ++ (b'0' + check) ∷ [])
          digit-to_upper digits,
    )

normalized-fixed :
    (s r : List ℕ)
    → Form s
    → normalize_nr_reg_com s ≡ returns (some r)
    → normalize_nr_reg_com r ≡ returns (some r)
normalized-fixed s r (neither n z o) h = cc
normalized-fixed s r (new m e is n z) h =
    let raw = normalize_identifier_whitespace s in
    let same : r ≡ raw = ground arith in
    rw same (normalize-match_new raw m e (normalized-upper s) (ground arith))
normalized-fixed s r (old m o is n z) h =
    let same : r ≡ canonical m = ground arith in
    let new_form : NewMatch = record {
      base = canonical_base m;
      check_digit = check_of (canonical_base m);
    } in
    rw same (
      normalize-match_new (canonical m) new_form (match_new-canonical m is (ground arith))
        (canonical-upper m is) refl)

-- What `normalizeNrRegCom` returns is canonical: normalizing it again returns it unchanged. For an
-- old number this says that the converted number passes the check of its own check digit.
pub normalize_nr_reg_com_idem :
    (s r : List ℕ)
    → normalize_nr_reg_com s ≡ returns (some r)
    → normalize_nr_reg_com r ≡ returns (some r)
normalize_nr_reg_com_idem s r = normalized-fixed s r (form s)
