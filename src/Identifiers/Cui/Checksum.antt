-- ===== src/Identifiers/Cui/Checksum.antt =====
-- The strength of the fiscal code's check digit.
use mathlib.Core.List.{map-append, append_assoc}
use cerniq_app_v.Prelude.{
  ℕ, zero, suc, ◌+◌, ◌-◌, ◌*◌, ◌%◌, ◌≤◌, ◌<◌, ◌≡◌, refl, ◌≢◌, ◌↔◌, sym, ◌∙◌, List, [], ◌∷◌, ◌++◌,
  map, Bool, true, false, ◌&&◌, some, arith, ◌==◌, Bool-cases, inl, inr, length, every,
  every-append, length-append, get_or, replicate, length-map, length-replicate,
}
use cerniq_app_v.Prelude.Text.{is_digit, pad_start}
use cerniq_app_v.Identifiers.Cui.{
  is_valid_cui, expected_digit, weighted_sum, pop, digit, control_key,
}
use cerniq_app_v.Identifiers.Cui.Laws.{sanitize_cui_id}

pop-append : (xs : List ℕ) (x : ℕ) → pop (xs ++ x ∷ []) ≡ some (x, xs)
unfolding pop
pop-append [] x = refl
pop-append (y ∷ xs) x = rw (pop-append xs x)

expected_digit-lt : (sum : ℕ) → expected_digit sum < 10
unfolding expected_digit
expected_digit-lt sum = ground arith

-- The weighted sum of a body, padded to nine digits.
body_sum : List ℕ → ℕ
body_sum b = weighted_sum (map digit (pad_start 9 b'0' b)) control_key

pad_start-snoc :
    (b : List ℕ) (c : ℕ) → pad_start 10 b'0' (b ++ c ∷ []) ≡ pad_start 9 b'0' b ++ c ∷ []
unfolding pad_start
pad_start-snoc b c =
    let e : 10 - length (b ++ c ∷ []) ≡ 9 - length b = omega (arith, length-append b (c ∷ [])) in
    rw e (sym (append_assoc (replicate (9 - length b) b'0') b (c ∷ [])))

-- A body of at most nine digits and a digit: the code is valid when the digit is the expected one.
is_valid_cui-snoc :
    (b : List ℕ) (c : ℕ)
    → every is_digit b ≡ true
    → is_digit c ≡ true
    → 1 ≤ length b
    → length b ≤ 9
    → is_valid_cui (b ++ c ∷ []) ≡ (digit c == expected_digit (body_sum b))
unfolding is_valid_cui body_sum
is_valid_cui-snoc b c hb hc lo hi =
    let digits : every is_digit (b ++ c ∷ []) ≡ true =
      every-append is_digit b (c ∷ []) hb (rw hc) in
    let size : length (b ++ c ∷ []) ≡ length b + 1 = omega (arith, length-append b (c ∷ [])) in
    let popped : pop (map digit (pad_start 10 b'0' (b ++ c ∷ [])))
        ≡ some (digit c, map digit (pad_start 9 b'0' b)) =
      rw (pad_start-snoc b c, map-append) (pop-append (map digit (pad_start 9 b'0' b)) (digit c)) in
    rw (sanitize_cui_id (b ++ c ∷ []) digits, popped) (ground arith)

digit_iff : (d e : ℕ) → is_digit d ≡ true → e < 10 → ((digit d == e) ≡ true) ↔ (d ≡ e + b'0')
unfolding is_digit
digit_iff d e hd he = (λ h. ground arith, λ h. ground arith)

check_digit :
    (b : List ℕ)
    → every is_digit b ≡ true
    → 1 ≤ length b
    → length b ≤ 9
    → (c : ℕ) × (is_digit c ≡ true)
      × ((d : ℕ) → is_digit d ≡ true → (is_valid_cui (b ++ d ∷ []) ≡ true) ↔ (d ≡ c))
check_digit b hb lo hi =
    let e = expected_digit (body_sum b) in
    let below : e < 10 = expected_digit-lt (body_sum b) in
    (
      e + b'0',
      unfold is_digit in ground arith,
      λ d hd. rw (is_valid_cui-snoc b d hb hd lo hi) (digit_iff d e hd below),
    )

same_truth : (v : Bool) (d c : ℕ) → (v ≡ true) ↔ (d ≡ c) → v ≡ (d == c)
same_truth true d c h = elim (Bool-cases (d == c)) [
  | inl e ↦ sym e
  | inr e ↦ absurd (ground (arith, h.0 refl))
]
same_truth false d c h = elim (Bool-cases (d == c)) [
  | inl e ↦ h.1 (ground (arith, e)) ∙ sym e
  | inr e ↦ sym e
]

same_test : (x c d : ℕ) → is_digit c ≡ true → is_digit d ≡ false → x ≡ c → (d == x) ≡ false
same_test x c d hc hd e = elim (Bool-cases (d == x)) [
  | inl h ↦ absurd (ground (arith, e))
  | inr h ↦ h
]

-- For each body of one to nine digits there is one digit that completes it to a valid fiscal code:
-- of all code units, exactly that one is a digit and gives a valid code at the end of the body.
pub check_digit_unique :
    (b : List ℕ)
    → every is_digit b ≡ true
    → 1 ≤ length b
    → length b ≤ 9
    → (c : ℕ) × (is_digit c ≡ true)
      × ((d : ℕ) → (is_digit d && is_valid_cui (b ++ d ∷ [])) ≡ (d == c))
check_digit_unique b hb lo hi =
    let (c, is, only) = check_digit b hb lo hi in
    (
      c,
      is,
      λ d. elim (Bool-cases (is_digit d)) [
        | inl e ↦ rw e (same_truth (is_valid_cui (b ++ d ∷ [])) d c (only d e))
        | inr e ↦ rw e (sym (same_test c c d is e refl))
      ],
    )

weighted_sum-replace :
    (p q : List ℕ) (a b : ℕ) (ks : List ℕ)
    → weighted_sum (p ++ a ∷ q) ks + b * get_or ks (length p) 0
      ≡ weighted_sum (p ++ b ∷ q) ks + a * get_or ks (length p) 0
unfolding weighted_sum
weighted_sum-replace p q a b [] = omega arith
weighted_sum-replace [] q a b (k ∷ ks) = omega arith
weighted_sum-replace (x ∷ p) q a b (k ∷ ks) = omega (arith, weighted_sum-replace p q a b ks)

-- Another digit at one of the nine places gives another remainder.
remainder-ne :
    (i a b s t : ℕ)
    → i < 9
    → a < 10
    → b < 10
    → s + b * get_or control_key i 0 ≡ t + a * get_or control_key i 0
    → s * 10 % 11 ≡ t * 10 % 11
    → a ≡ b
remainder-ne zero a b s t _ ha hb e r = omega arith
remainder-ne (suc zero) a b s t _ ha hb e r = omega arith
remainder-ne (suc (suc zero)) a b s t _ ha hb e r = omega arith
remainder-ne (suc (suc (suc zero))) a b s t _ ha hb e r = omega arith
remainder-ne (suc (suc (suc (suc zero)))) a b s t _ ha hb e r = omega arith
remainder-ne (suc (suc (suc (suc (suc zero))))) a b s t _ ha hb e r = omega arith
remainder-ne (suc (suc (suc (suc (suc (suc zero)))))) a b s t _ ha hb e r = omega arith
remainder-ne (suc (suc (suc (suc (suc (suc (suc zero))))))) a b s t _ ha hb e r = omega arith
remainder-ne (suc (suc (suc (suc (suc (suc (suc (suc zero)))))))) a b s t _ ha hb e r = omega arith
remainder-ne (suc (suc (suc (suc (suc (suc (suc (suc (suc i))))))))) a b s t h ha hb e r =
    absurd (omega arith)

-- The values of a body's first digits, padding included.
abbrev front : List ℕ → List ℕ → List ℕ
front p q = map digit (replicate (9 - (length p + suc (length q))) b'0' ++ p)

body_sum-at :
    (p q : List ℕ) (a : ℕ)
    → body_sum (p ++ a ∷ q) ≡ weighted_sum (front p q ++ digit a ∷ map digit q) control_key
unfolding body_sum pad_start
body_sum-at p q a =
    let z = replicate (9 - (length p + suc (length q))) b'0' in
    let split : map digit (z ++ (p ++ a ∷ q)) ≡ front p q ++ digit a ∷ map digit q =
      rw (← append_assoc z p (a ∷ q)) (map-append digit (z ++ p) (a ∷ q)) in
    rw (length-append p (a ∷ q), split) refl

length-front : (p q : List ℕ) → length p + length q ≤ 8 → length (front p q) < 9
length-front p q short =
    let n = 9 - (length p + suc (length q)) in
    omega (
      arith,
      length-map digit (replicate n b'0' ++ p),
      length-append (replicate n b'0') p,
      length-replicate {A = ℕ} n b'0',
    )

digit-injective : (a b : ℕ) → is_digit a ≡ true → is_digit b ≡ true → digit a ≡ digit b → a ≡ b
unfolding is_digit
digit-injective a b ha hb e = ground arith

digit-lt : (a : ℕ) → is_digit a ≡ true → digit a < 10
unfolding is_digit
digit-lt a ha = ground arith

-- Two bodies that differ in one digit have different remainders.
body_sum-ne :
    (p q : List ℕ) (a b : ℕ)
    → length p + length q ≤ 8
    → is_digit a ≡ true
    → is_digit b ≡ true
    → body_sum (p ++ a ∷ q) * 10 % 11 ≡ body_sum (p ++ b ∷ q) * 10 % 11
    → a ≡ b
body_sum-ne p q a b short ha hb r = digit-injective a b ha hb (
    remainder-ne (length (front p q)) (digit a) (digit b)
      (weighted_sum (front p q ++ digit a ∷ map digit q) control_key)
      (weighted_sum (front p q ++ digit b ∷ map digit q) control_key) (length-front p q short)
      (digit-lt a ha) (digit-lt b hb)
      (weighted_sum-replace (front p q) (map digit q) (digit a) (digit b) control_key)
      (rw (body_sum-at p q a, body_sum-at p q b) at r))

-- A sum whose expected digit is not 0 is known by it, up to its remainder.
expected_digit-injective :
    (s t c : ℕ)
    → c ≢ 0
    → (c == expected_digit s) ≡ true
    → (c == expected_digit t) ≡ true
    → s * 10 % 11 ≡ t * 10 % 11
unfolding expected_digit
expected_digit-injective s t c nz hs ht = ground arith

every-at : (p q : List ℕ) (a : ℕ) → every is_digit (p ++ a ∷ q) ≡ true → is_digit a ≡ true
every-at [] q a h = ground arith
every-at (x ∷ p) q a h = every-at p q a (ground arith)

module _ (p q : List ℕ) (short : length p + length q ≤ 8) (c : ℕ) (hc : is_digit c ≡ true) where
  is_valid_cui-at :
      (a : ℕ)
      → every is_digit (p ++ a ∷ q) ≡ true
      → is_valid_cui ((p ++ a ∷ q) ++ c ∷ []) ≡ (digit c == expected_digit (body_sum (p ++ a ∷ q)))
  is_valid_cui-at a ha =
      is_valid_cui-snoc (p ++ a ∷ q) c ha hc (omega (arith, length-append p (a ∷ q)))
        (omega (arith, length-append p (a ∷ q)))

  -- Two valid codes with the check digit `c`, not 0, that differ at most in one digit, are equal.
  valid_twice :
      (a b : ℕ)
      → every is_digit (p ++ a ∷ q) ≡ true
      → every is_digit (p ++ b ∷ q) ≡ true
      → c ≢ b'0'
      → is_valid_cui ((p ++ a ∷ q) ++ c ∷ []) ≡ true
      → is_valid_cui ((p ++ b ∷ q) ++ c ∷ []) ≡ true
      → a ≡ b
  valid_twice a b ha hb nz va vb =
      body_sum-ne p q a b short (every-at p q a ha) (every-at p q b hb) (
        expected_digit-injective (body_sum (p ++ a ∷ q)) (body_sum (p ++ b ∷ q)) (digit c)
          (λ e. nz (digit-injective c b'0' hc (unfold is_digit in refl) e))
          (rw (is_valid_cui-at a ha) at va) (rw (is_valid_cui-at b hb) at vb))

-- One wrong digit among the first nine is noticed, unless the check digit is 0: of two texts that
-- differ in one digit before a check digit other than 0, at most one is a valid fiscal code.
pub substitution_detected :
    (p q : List ℕ) (a b c : ℕ)
    → every is_digit (p ++ a ∷ q) ≡ true
    → every is_digit (p ++ b ∷ q) ≡ true
    → is_digit c ≡ true
    → length p + length q ≤ 8
    → a ≢ b
    → c ≢ b'0'
    → is_valid_cui ((p ++ a ∷ q) ++ c ∷ []) ≡ true
    → is_valid_cui ((p ++ b ∷ q) ++ c ∷ []) ≡ false
substitution_detected p q a b c ha hb hc short ne nz valid =
    elim (Bool-cases (is_valid_cui ((p ++ b ∷ q) ++ c ∷ []))) [
      | inl also ↦ absurd (ne (valid_twice p q short c hc a b ha hb nz valid also))
      | inr not_valid ↦ not_valid
    ]
