-- ===== src/Identifiers/NrRegCom/Parts.antt =====
-- The parts of the register number functions: letters, runs of digits, padding, check digits.
use cerniq_app_v.Prelude.{
  ℕ, zero, suc, ◌+◌, ◌-◌, ◌≤◌, ◌<◌, ◌≡◌, refl, inl, inr, ◌∙◌, ap, List, [], ◌∷◌, ◌++◌, map, Bool,
  true, ◌||◌, none, some, arith, leb, ◌==◌, if◌then◌else◌, length, filter_by, every, take, get_or,
  every-append, every-replicate, every-filter_other, filter_by-every, every-weaken, Option-cases,
  length-append, length-replicate, replicate,
}
use cerniq_app_v.Prelude.Text.{
  is_digit, is_space, is_solid, to_upper, trim, pad_start, trim_solid, map-to_upper_id,
  digit-to_upper, digit-is_solid, length-pad_start,
}
use cerniq_app_v.Identifiers.NrRegCom.{
  returns, throws, normalize_identifier_whitespace, is_type_letter, match_new, match_old, OldMatch,
  is_base, check_of, compute_nr_reg_com_check_digit, span_digits, slash_digits,
}

abbrev pub is_upper_letter : ℕ → Bool
is_upper_letter t = t == b'J' || t == b'F' || t == b'C'

pub letter-to_upper : (t : ℕ) → is_type_letter t ≡ true → is_upper_letter (to_upper t) ≡ true
unfolding is_type_letter to_upper
letter-to_upper t h = ground arith

upper_letter-fixed :
    (t : ℕ) → is_upper_letter t ≡ true → ((to_upper t == t) ≡ true) × (is_solid t ≡ true)
unfolding to_upper is_space
upper_letter-fixed t h = ground arith

pub upper_letter-type : (t : ℕ) → is_upper_letter t ≡ true → is_type_letter t ≡ true
unfolding is_type_letter
upper_letter-type t h = ground arith

-- A letter and digits is its own normalized form.
pub normalize-letter_digits :
    (t : ℕ) (ds : List ℕ)
    → is_upper_letter t ≡ true
    → every is_digit ds ≡ true
    → normalize_identifier_whitespace (t ∷ ds) ≡ t ∷ ds
unfolding normalize_identifier_whitespace
normalize-letter_digits t ds ht hd =
    let fixed = upper_letter-fixed t ht in
    let solid : every is_solid (t ∷ ds) ≡ true =
      ground (arith, every-weaken is_digit is_solid ds digit-is_solid hd) in
    let upper : every (λ c. to_upper c == c) (t ∷ ds) ≡ true =
      ground (arith, every-weaken is_digit (λ c. to_upper c == c) ds digit-to_upper hd) in
    ap (λ x. filter_by is_solid (map to_upper x)) (trim_solid (t ∷ ds) solid)
    ∙ (ap (filter_by is_solid) (map-to_upper_id (t ∷ ds) upper)
        ∙ filter_by-every is_solid (t ∷ ds) solid)

-- The check digit of a letter and digits: computed if there are twelve, otherwise the call throws.
pub compute-letter_digits :
    (t : ℕ) (ds : List ℕ)
    → is_upper_letter t ≡ true
    → every is_digit ds ≡ true
    → compute_nr_reg_com_check_digit (t ∷ ds)
      ≡ (if length ds == 12 then returns (check_of (t ∷ ds)) else throws)
unfolding compute_nr_reg_com_check_digit is_base
compute-letter_digits t ds ht hd = rw (normalize-letter_digits t ds ht hd) (ground arith)

-- What `OLD_NR_REG_COM_RE` says of its groups.
pub record IsOld (m : OldMatch) : Type 0 where
  pub letter : is_type_letter m.type ≡ true
  pub county_digits : every is_digit m.county ≡ true
  pub order_digits : every is_digit m.order ≡ true
  pub year_digits : every is_digit m.year ≡ true
  pub county_size : length m.county ≤ 2
  pub year_size : length m.year ≡ 4

pub span_digits-digits : (s : List ℕ) → every is_digit (span_digits s).0 ≡ true
unfolding span_digits
span_digits-digits [] = refl
span_digits-digits (c ∷ s) = ground (arith, span_digits-digits s)

slash_digits-digits : (s d r : List ℕ) → slash_digits s ≡ some (d, r) → every is_digit d ≡ true
unfolding slash_digits
slash_digits-digits [] d r h = cc
slash_digits-digits (c ∷ s) d r h = ground (arith, span_digits-digits s)

pub match_old-IsOld : (s : List ℕ) (m : OldMatch) → match_old s ≡ some m → IsOld m
unfolding match_old
match_old-IsOld [] m h = ground arith
match_old-IsOld (t ∷ s) m h = elim (Option-cases (slash_digits (span_digits s).1)) [
  | inl e ↦ ground arith
  | inr ((order, rest'), e) ↦ elim (Option-cases (slash_digits rest')) [
    | inl e' ↦ ground arith
    | inr ((year, end), e') ↦ ground (
      arith,
      span_digits-digits s,
      slash_digits-digits (span_digits s).1 order rest' e,
      slash_digits-digits rest' year end e',
    )
  ]
]

-- The twelve or more digits that follow the letter of a converted number, without the check digit.
unfoldable pub canonical_tail : OldMatch → List ℕ
canonical_tail m =
    pad_start 4 b'0' m.year ++ (pad_start 6 b'0' m.order ++ pad_start 2 b'0' m.county)

abbrev pub canonical_base : OldMatch → List ℕ
canonical_base m = to_upper m.type ∷ canonical_tail m

every-pad_start :
    (n : ℕ) (s : List ℕ) → every is_digit s ≡ true → every is_digit (pad_start n b'0' s) ≡ true
unfolding pad_start is_digit
every-pad_start n s h =
    every-append is_digit (replicate (n - length s) b'0') s
      (every-replicate is_digit (n - length s) b'0' refl) h

length-pad_start_le : (n : ℕ) (s : List ℕ) → length s ≤ n → length (pad_start n b'0' s) ≡ n
length-pad_start_le n s h = length-pad_start n b'0' s h

length-pad_start_long : (n : ℕ) (s : List ℕ) → n < length s → length (pad_start n b'0' s) ≡ length s
unfolding pad_start
length-pad_start_long n s h = omega (
  arith,
  length-append (replicate (n - length s) b'0') s,
  length-replicate {A = ℕ} (n - length s) b'0',
)

pub canonical_tail-digits : (m : OldMatch) → IsOld m → every is_digit (canonical_tail m) ≡ true
unfolding canonical_tail
canonical_tail-digits m old =
    let order = pad_start 6 b'0' m.order in
    let county = pad_start 2 b'0' m.county in
    every-append is_digit (pad_start 4 b'0' m.year) (order ++ county)
      (every-pad_start 4 m.year old.year_digits)
      (every-append is_digit order county (every-pad_start 6 m.order old.order_digits)
        (every-pad_start 2 m.county old.county_digits))

canonical_tail-order :
    (m : OldMatch) → IsOld m → length (canonical_tail m) ≡ 6 + length (pad_start 6 b'0' m.order)
unfolding canonical_tail
canonical_tail-order m old =
    let order = pad_start 6 b'0' m.order in
    let county = pad_start 2 b'0' m.county in
    omega (
      arith,
      length-append (pad_start 4 b'0' m.year) (order ++ county),
      length-append order county,
      length-pad_start_le 4 m.year (omega arith),
      length-pad_start_le 2 m.county old.county_size,
    )

-- Twelve digits follow the letter exactly when the order number has at most six.
pub canonical_tail-size :
    (m : OldMatch) → IsOld m → (length (canonical_tail m) == 12) ≡ leb (length m.order) 6
canonical_tail-size m old = ground (
  arith,
  canonical_tail-order m old,
  length-pad_start_le 6 m.order,
  length-pad_start_long 6 m.order,
)

pub canonical_base-compute :
    (m : OldMatch)
    → IsOld m
    → compute_nr_reg_com_check_digit (canonical_base m)
      ≡ (if leb (length m.order) 6 then returns (check_of (canonical_base m)) else throws)
canonical_base-compute m old = rw (← canonical_tail-size m old) (
    compute-letter_digits (to_upper m.type) (canonical_tail m) (letter-to_upper m.type old.letter)
      (canonical_tail-digits m old))

take-append :
    (n : ℕ) (ds : List ℕ) (c : ℕ)
    → length ds ≡ n
    → (take n (ds ++ c ∷ []) ≡ ds) × (get_or (ds ++ c ∷ []) n 0 ≡ c)
take-append zero [] c h = (refl, refl)
take-append zero (d ∷ ds) c h = absurd (omega arith)
take-append (suc n) [] c h = absurd (omega arith)
take-append (suc n) (d ∷ ds) c h =
    let (front, last) = take-append n ds c (omega arith) in (ap (◌∷◌ d) front, last)

-- A letter, twelve digits and a check digit are matched as such.
pub match_new-letter_digits :
    (t : ℕ) (ds : List ℕ) (c : ℕ)
    → is_upper_letter t ≡ true
    → every is_digit ds ≡ true
    → length ds ≡ 12
    → is_digit c ≡ true
    → match_new (t ∷ (ds ++ c ∷ [])) ≡ some (record { base = t ∷ ds; check_digit = c - b'0' })
unfolding match_new
match_new-letter_digits t ds c ht hd size hc =
    let digits : every is_digit (ds ++ c ∷ []) ≡ true =
      every-append is_digit ds (c ∷ []) hd (rw hc) in
    let whole : length (ds ++ c ∷ []) ≡ 13 = omega (arith, length-append ds (c ∷ [])) in
    rw (
      upper_letter-type t ht,
      whole,
      digits,
      (take-append 12 ds c size).0,
      (take-append 12 ds c size).1,
    )

pub to_upper_idem : (c : ℕ) → (to_upper (to_upper c) == to_upper c) ≡ true
unfolding to_upper
to_upper_idem c = ground arith

map-to_upper-fixed : (s : List ℕ) → every (λ c. to_upper c == c) (map to_upper s) ≡ true
map-to_upper-fixed [] = refl
map-to_upper-fixed (c ∷ s) = ground (arith, to_upper_idem c, map-to_upper-fixed s)

-- What is matched is in upper case.
pub normalized-upper :
    (s : List ℕ) → every (λ c. to_upper c == c) (normalize_identifier_whitespace s) ≡ true
unfolding normalize_identifier_whitespace
normalized-upper s =
    every-filter_other (λ c. to_upper c == c) is_solid (map to_upper (trim s))
      (map-to_upper-fixed (trim s))

pub upper_type_letter :
    (t : ℕ) → is_type_letter t ≡ true → (to_upper t == t) ≡ true → is_upper_letter t ≡ true
unfolding is_type_letter to_upper
upper_type_letter t h u = ground arith

-- After a run of digits to the end there is no slash.
slash_digits-span_digits :
    (s : List ℕ) → every is_digit s ≡ true → slash_digits (span_digits s).1 ≡ none
unfolding span_digits slash_digits
slash_digits-span_digits [] h = refl
slash_digits-span_digits (c ∷ s) h = ground (arith, slash_digits-span_digits s)

-- No text has both forms.
pub match_old-digits : (t : ℕ) (s : List ℕ) → every is_digit s ≡ true → match_old (t ∷ s) ≡ none
unfolding match_old
match_old-digits t s h = rw (slash_digits-span_digits s h, match_old)
