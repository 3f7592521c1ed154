-- ===== src/Identifiers/Cui/Laws.antt =====
-- What `sanitizeCui` keeps, and the agreement of the two fiscal code checks.
use cerniq_app_v.Prelude.{
  ℕ, suc, ◌-◌, ◌≤◌, ◌≡◌, refl, sym, ap, List, [], ◌∷◌, ◌++◌, map, true, false, none, some, ltb,
  ◌||◌, arith, ◌==◌, Bool-cases, inl, inr, every, every-filter_by, filter_by, filter_by-every,
  every-weaken, length, length-map, length-append, length-replicate, replicate, get_or, take,
}
use cerniq_app_v.Prelude.Text.{
  is_digit, to_upper, trim, is_solid, trim_solid, map-to_upper_id, digit-to_upper, digit-is_solid,
  pad_start,
}
use cerniq_app_v.Identifiers.Cui.{
  drop_ro, sanitize_cui, is_valid_cui, expected_digit, weighted_sum, control_key, pop, digit,
}
use cerniq_app_v.Identifiers.CuiValidation
use cerniq_app_v.Identifiers.CuiValidation.{
  validate_cui_modulo11, validate_cui_checksum, replace_ro, sum_from,
}

-- Only digits are left of a fiscal code.
pub sanitize_cui-digits : (s : List ℕ) → every is_digit (sanitize_cui s) ≡ true
unfolding sanitize_cui
sanitize_cui-digits s = every-filter_by is_digit (drop_ro (trim (map to_upper s)))

drop_ro_digits : (s : List ℕ) → every is_digit s ≡ true → drop_ro s ≡ s
unfolding drop_ro is_digit
drop_ro_digits [] h = refl
drop_ro_digits (a ∷ []) h = refl
drop_ro_digits (a ∷ b ∷ s) h = ground arith

-- A text of digits is its own sanitized form.
pub sanitize_cui_id : (s : List ℕ) → every is_digit s ≡ true → sanitize_cui s ≡ s
unfolding sanitize_cui
sanitize_cui_id s h =
    rw
      (
        map-to_upper_id s (every-weaken is_digit (λ c. to_upper c == c) s digit-to_upper h),
        trim_solid s (every-weaken is_digit is_solid s digit-is_solid h),
        drop_ro_digits s h,
      )
      (filter_by-every is_digit s h)

-- Sanitizing a second time changes nothing.
sanitize_cui_idem : (s : List ℕ) → sanitize_cui (sanitize_cui s) ≡ sanitize_cui s
sanitize_cui_idem s = sanitize_cui_id (sanitize_cui s) (sanitize_cui-digits s)

-- The worker's code, step by step, against the package's.
replace_ro-eq : (s : List ℕ) → replace_ro s ≡ drop_ro s
unfolding replace_ro drop_ro
replace_ro-eq [] = refl
replace_ro-eq (a ∷ []) = ground arith
replace_ro-eq (a ∷ b ∷ s) = refl

worker_sanitize_cui-eq : (s : List ℕ) → CuiValidation.sanitize_cui s ≡ sanitize_cui s
unfolding CuiValidation.sanitize_cui sanitize_cui
worker_sanitize_cui-eq s = ap (filter_by is_digit) (replace_ro-eq (trim (map to_upper s)))

sum_from-eq : (ds : List ℕ) → sum_from ds 9 0 0 ≡ weighted_sum ds control_key
unfolding sum_from weighted_sum
sum_from-eq [] = omega arith
sum_from-eq (a ∷ []) = omega arith
sum_from-eq (a ∷ b ∷ []) = omega arith
sum_from-eq (a ∷ b ∷ c ∷ []) = omega arith
sum_from-eq (a ∷ b ∷ c ∷ d ∷ []) = omega arith
sum_from-eq (a ∷ b ∷ c ∷ d ∷ e ∷ []) = omega arith
sum_from-eq (a ∷ b ∷ c ∷ d ∷ e ∷ f ∷ []) = omega arith
sum_from-eq (a ∷ b ∷ c ∷ d ∷ e ∷ f ∷ g ∷ []) = omega arith
sum_from-eq (a ∷ b ∷ c ∷ d ∷ e ∷ f ∷ g ∷ h ∷ []) = omega arith
sum_from-eq (a ∷ b ∷ c ∷ d ∷ e ∷ f ∷ g ∷ h ∷ i ∷ rest) = omega arith

-- `pop` gives the last element and leaves those before it.
pop-at :
    (d : ℕ) (ds : List ℕ)
    → pop (d ∷ ds) ≡ some (get_or (d ∷ ds) (length ds) 0, take (length ds) (d ∷ ds))
unfolding pop
pop-at d [] = refl
pop-at d (e ∷ ds) = rw (pop-at e ds)

pop_padded :
    (ds : List ℕ)
    → 1 ≤ length ds
    → pop ds ≡ some (get_or ds (length ds - 1) 0, take (length ds - 1) ds)
pop_padded [] h = absurd (omega arith)
pop_padded (d ∷ ds) h = let e : suc (length ds) - 1 ≡ length ds = omega arith in rw e (pop-at d ds)

length-padded : (s : List ℕ) → 1 ≤ length (map digit (pad_start 10 b'0' s))
unfolding pad_start
length-padded s = omega (
  arith,
  length-map digit (replicate (10 - length s) b'0' ++ s),
  length-append (replicate (10 - length s) b'0') s,
  length-replicate {A = ℕ} (10 - length s) b'0',
)

-- The check of one package, computed as the worker does it.
checksum-eq :
    (s : List ℕ)
    → (elim (pop (map digit (pad_start 10 b'0' s))) [
      | none ↦ false
      | some (check_digit, digits) ↦ check_digit == expected_digit (weighted_sum digits control_key)
    ])
      ≡ (validate_cui_checksum s).is_valid
unfolding validate_cui_checksum expected_digit
checksum-eq s =
    let ds = map digit (pad_start 10 b'0' s) in
    rw (pop_padded ds (length-padded s)) (
      ap (λ sum. get_or ds (length ds - 1) 0 == expected_digit sum)
        (sym (sum_from-eq (take (length ds - 1) ds))))

-- The two packages agree on which texts are fiscal codes: the cleaning, the weights and the loop of
-- the one and of the other, each as it is written there, come to the same for every text.
pub is_valid_cui-eq-modulo11 : (s : List ℕ) → is_valid_cui s ≡ (validate_cui_modulo11 s).is_valid
unfolding is_valid_cui validate_cui_modulo11
is_valid_cui-eq-modulo11 s =
    let clean = sanitize_cui s in
    rw (validate_cui_modulo11, worker_sanitize_cui-eq s)
      (elim (Bool-cases (ltb (length clean) 2 || ltb 10 (length clean))) [
        | inl e ↦ rw (is_valid_cui, e) refl
        | inr e ↦ elim (Bool-cases (every is_digit clean)) [
          | inl d ↦ rw (is_valid_cui, e, d) (checksum-eq clean)
          | inr d ↦ rw (is_valid_cui, e, d) refl
        ]
      ])
