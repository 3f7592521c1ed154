-- ===== src/Identifiers/NrRegCom/Laws.antt =====
-- Which register numbers are normalized, which are refused, and which make the call throw.
use cerniq_app_v.Prelude.{
  ℕ, ◌+◌, ◌<◌, ◌≡◌, refl, ◌≢◌, ◌↔◌, inl, inr, List, [], ◌∷◌, ◌++◌, true, none, some, arith, leb,
  ◌==◌, if◌then◌else◌, length, every, take, every-take, length-take_le, Option-cases,
}
use cerniq_app_v.Prelude.Text.{is_digit, to_upper}
use cerniq_app_v.Identifiers.NrRegCom.{
  returns, throws, normalize_identifier_whitespace, match_new, match_old, NewMatch, OldMatch,
  check_of, compute_nr_reg_com_check_digit, with_check, checked,
  convert_old_nr_reg_com_to_canonical, sanitize_nr_reg_com, normalize_nr_reg_com,
}
use cerniq_app_v.Identifiers.NrRegCom.Parts.{
  normalize-letter_digits, compute-letter_digits, IsOld, match_old-IsOld, canonical_base,
  canonical_base-compute, canonical_tail, normalized-upper, upper_type_letter, match_old-digits,
}

-- What the new form says of an upper case text.
pub record IsNew (raw : List ℕ) (m : NewMatch) : Type 0 where
  pub computed : compute_nr_reg_com_check_digit m.base ≡ returns (check_of m.base)
  pub not_old : match_old raw ≡ none
  pub fixed : normalize_identifier_whitespace raw ≡ raw

pub match_new-IsNew :
    (raw : List ℕ) (m : NewMatch)
    → every (λ c. to_upper c == c) raw ≡ true
    → match_new raw ≡ some m
    → IsNew raw m
unfolding match_new
match_new-IsNew [] m u h = ground arith
match_new-IsNew (t ∷ s) m u h =
    let digits : every is_digit s ≡ true = ground arith in
    let size : length s ≡ 13 = ground arith in
    let letter = upper_type_letter t (ground arith) (ground arith) in
    let base : m.base ≡ t ∷ take 12 s = ground arith in
    record {
      computed =
          rw (base, compute-letter_digits t (take 12 s) letter (every-take is_digit 12 s digits))
            (ground (arith, length-take_le 12 s (omega arith)));
      not_old = match_old-digits t s digits;
      fixed = normalize-letter_digits t s letter digits;
    }

convert-with_check :
    (m : OldMatch)
    → convert_old_nr_reg_com_to_canonical m
      ≡ with_check (canonical_base m) (compute_nr_reg_com_check_digit (canonical_base m))
unfolding convert_old_nr_reg_com_to_canonical canonical_tail
convert-with_check m = refl

abbrev pub canonical : OldMatch → List ℕ
canonical m = canonical_base m ++ (b'0' + check_of (canonical_base m)) ∷ []

convert-eq :
    (m : OldMatch)
    → IsOld m
    → convert_old_nr_reg_com_to_canonical m
      ≡ (if leb (length m.order) 6 then returns (canonical m) else throws)
unfolding with_check
convert-eq m groups = rw (convert-with_check m, canonical_base-compute m groups) (ground arith)

-- The three kinds of text, with what the two functions answer.
pub data Form (s : List ℕ) : Type 0 where
  neither :
      normalize_nr_reg_com s ≡ returns none
      → sanitize_nr_reg_com s ≡ returns none
      → match_old (normalize_identifier_whitespace s) ≡ none
      → Form s
  new :
      (m : NewMatch)
      → match_new (normalize_identifier_whitespace s) ≡ some m
      → IsNew (normalize_identifier_whitespace s) m
      → normalize_nr_reg_com s ≡ sanitize_nr_reg_com s
      → sanitize_nr_reg_com s
        ≡ returns (
            if check_of m.base == m.check_digit
            then some (normalize_identifier_whitespace s)
            else none)
      → Form s
  old :
      (m : OldMatch)
      → match_old (normalize_identifier_whitespace s) ≡ some m
      → IsOld m
      → normalize_nr_reg_com s
        ≡ (if leb (length m.order) 6 then returns (some (canonical m)) else throws)
      → sanitize_nr_reg_com s ≡ returns (some (normalize_identifier_whitespace s))
      → Form s

pub form : (s : List ℕ) → Form s
unfolding normalize_nr_reg_com sanitize_nr_reg_com checked
form s =
    let raw = normalize_identifier_whitespace s in
    elim (Option-cases (match_new raw)) [
      | inr (m, n) ↦
          let is = match_new-IsNew raw m (normalized-upper s) n in
          new m n is (ground (arith, is.computed)) (ground (arith, is.computed))
      | inl n ↦ elim (Option-cases (match_old raw)) [
        | inl o ↦ neither (ground arith) (ground arith) o
        | inr (m, o) ↦
            let is = match_old-IsOld raw m o in
            old m o is (ground (arith, convert-eq m is)) (ground arith)
      ]
    ]

-- The old form, with an order number too long for the new one.
abbrev HasLongOrder : List ℕ → Type 0
HasLongOrder s =
    (m : OldMatch) × (match_old (normalize_identifier_whitespace s) ≡ some m) × (6 < length m.order)

throws-HasLongOrder : (s : List ℕ) → Form s → normalize_nr_reg_com s ≡ throws → HasLongOrder s
throws-HasLongOrder s (neither n z o) h = cc
throws-HasLongOrder s (new m e is n z) h = cc
throws-HasLongOrder s (old m o is n z) h = (m, o, ground arith)

HasLongOrder-throws : (s : List ℕ) → Form s → HasLongOrder s → normalize_nr_reg_com s ≡ throws
HasLongOrder-throws s (neither n z o) (m, e, long) = cc
HasLongOrder-throws s (new m' e' is n z) (m, e, long) = cc (is.not_old)
HasLongOrder-throws s (old m' o is n z) (m, e, long) = ground arith

-- `normalizeNrRegCom` throws on a text exactly when it has the old form with an order number of
-- more than six digits; on every other text it returns.
pub normalize_nr_reg_com-throws_iff :
    (s : List ℕ)
    → (normalize_nr_reg_com s ≡ throws) ↔ (
        (m : OldMatch) × (match_old (normalize_identifier_whitespace s) ≡ some m)
        × (6 < length m.order))
normalize_nr_reg_com-throws_iff s = (throws-HasLongOrder s (form s), HasLongOrder-throws s (form s))

nulls-agree :
    (s : List ℕ)
    → Form s
    → (sanitize_nr_reg_com s ≢ throws)
      × ((sanitize_nr_reg_com s ≡ returns none) ↔ (normalize_nr_reg_com s ≡ returns none))
nulls-agree s (neither n z o) = ground arith
nulls-agree s (new m e is n z) = ground arith
nulls-agree s (old m o is n z) = ground arith

-- `sanitizeNrRegCom` never throws, and gives null for exactly the texts for which
-- `normalizeNrRegCom` returns null.
sanitize-normalize_none :
    (s : List ℕ)
    → (sanitize_nr_reg_com s ≢ throws)
      × ((sanitize_nr_reg_com s ≡ returns none) ↔ (normalize_nr_reg_com s ≡ returns none))
sanitize-normalize_none s = nulls-agree s (form s)
