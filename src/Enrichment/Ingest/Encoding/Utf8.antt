-- ===== src/Enrichment/Ingest/Encoding/Utf8.antt =====
-- What `detectEncoding` makes of a text in UTF-8.
use cerniq_app_v.Prelude.{
  ◌≡◌, refl, ap, ◌∙◌, inl, inr, Bool-cases, ℕ, zero, suc, ◌+◌, ◌-◌, ◌/◌, ◌%◌, ◌≤◌, ◌<◌, List, [],
  ◌∷◌, ◌++◌, Bool, true, false, ◌==◌, leb, ltb, ltb→lt, if◌then◌else◌, length, take, every, arith,
}
use mathlib.Core.List.{append_assoc}
use cerniq_app_v.Enrichment.Ingest.Encoding.{
  utf8, latin1, Seen, inspect_utf8_lead_byte, scan, encoding_of, detect_encoding, has_utf8_mark,
  has_utf16_mark, sample_size,
}

-- The bytes of a code point in UTF-8, from the standard.
abbrev pub encode : ℕ → List ℕ
encode c =
    if ltb c 0x80
    then c ∷ []
    else (if ltb c 0x800
        then (192 + c / 64) ∷ (128 + c % 64) ∷ []
        else (if ltb c 0x10000
            then (224 + c / 4096) ∷ (128 + c / 64 % 64) ∷ (128 + c % 64) ∷ []
            else (240 + c / 262144)
              ∷ (128 + c / 4096 % 64)
              ∷ (128 + c / 64 % 64)
              ∷ (128 + c % 64)
              ∷ []))

abbrev pub encode_all : List ℕ → List ℕ
encode_all [] = []
encode_all (c ∷ cs) = encode c ++ encode_all cs

-- A code point of three bytes at most.
abbrev pub is_short : ℕ → Bool
is_short c = ltb c 0x10000

==_of : (a b : ℕ) → a ≡ b → (a == b) ≡ true
==_of a b h = ground arith

scan-one :
    (a : ℕ) (bytes : List ℕ)
    → leb a 0x7f ≡ true
    → (scan 0 (a ∷ bytes)).invalid_utf8 ≡ (scan 0 bytes).invalid_utf8
unfolding scan
scan-one a bytes h = rw (scan, h) refl

scan-two :
    (a b : ℕ) (bytes : List ℕ)
    → leb a 0x7f ≡ false
    → (a / 32 == 6) ≡ true
    → (b / 64 == 2) ≡ true
    → (scan 0 (a ∷ b ∷ bytes)).invalid_utf8 ≡ (scan 0 bytes).invalid_utf8
unfolding scan inspect_utf8_lead_byte
scan-two a b bytes h i j = rw (scan, h, inspect_utf8_lead_byte, i, j) refl

scan-three :
    (a b c : ℕ) (bytes : List ℕ)
    → leb a 0x7f ≡ false
    → (a / 32 == 6) ≡ false
    → (a / 16 == 14) ≡ true
    → (b / 64 == 2) ≡ true
    → (c / 64 == 2) ≡ true
    → (scan 0 (a ∷ b ∷ c ∷ bytes)).invalid_utf8 ≡ (scan 0 bytes).invalid_utf8
unfolding scan inspect_utf8_lead_byte
scan-three a b c bytes h i j k l = rw (scan, h, inspect_utf8_lead_byte, i, j, k, l) refl

-- A short code point is passed over.
scan-encode :
    (c : ℕ) (bytes : List ℕ)
    → is_short c ≡ true
    → (scan 0 (encode c ++ bytes)).invalid_utf8 ≡ (scan 0 bytes).invalid_utf8
scan-encode c bytes short = elim (Bool-cases (ltb c 0x80)) [
  | inl e ↦ rw e (scan-one c bytes (ground arith))
  | inr e ↦ elim (Bool-cases (ltb c 0x800)) [
    | inl f ↦
        rw (e, f)
          (scan-two (192 + c / 64) (128 + c % 64) bytes (ground arith)
            (==_of _ _ (omega (arith, ltb→lt c 0x800 f))) (==_of _ _ (omega arith)))
    | inr f ↦
        rw (e, f, short)
          (scan-three (224 + c / 4096) (128 + c / 64 % 64) (128 + c % 64) bytes (ground arith)
            (ground arith) (==_of _ _ (omega (arith, ltb→lt c 0x10000 short)))
            (==_of _ _ (omega arith)) (==_of _ _ (omega arith)))
  ]
]

-- The sample of a text that is cut at no code point.
pub scan-encode_all :
    (cs bytes : List ℕ)
    → every is_short cs ≡ true
    → (scan 0 (encode_all cs ++ bytes)).invalid_utf8 ≡ (scan 0 bytes).invalid_utf8
scan-encode_all [] bytes h = refl
scan-encode_all (c ∷ cs) bytes h = rw append_assoc (
    scan-encode c (encode_all cs ++ bytes) (ground arith) ∙ scan-encode_all cs bytes (ground arith))

mark-head : (a : ℕ) (xs : List ℕ) → (a == 0xff) ≡ false → has_utf16_mark (a ∷ xs) ≡ false
mark-head a [] h = refl
mark-head a (x ∷ xs) h = ground arith

-- No code point begins with the first byte of the mark of UTF-16.
pub mark-encode : (c : ℕ) (xs : List ℕ) → c < 0x110000 → has_utf16_mark (encode c ++ xs) ≡ false
mark-encode c xs h = elim (Bool-cases (ltb c 0x80)) [
  | inl e ↦ rw e (mark-head c xs (ground arith))
  | inr e ↦ elim (Bool-cases (ltb c 0x800)) [
    | inl f ↦
        rw (e, f)
          (mark-head (192 + c / 64) ((128 + c % 64) ∷ xs) (ground (arith, ltb→lt c 0x800 f)))
    | inr f ↦ elim (Bool-cases (ltb c 0x10000)) [
      | inl g ↦
          rw (e, f, g)
            (mark-head (224 + c / 4096) ((128 + c / 64 % 64) ∷ (128 + c % 64) ∷ xs)
              (ground (arith, ltb→lt c 0x10000 g)))
      | inr g ↦
          rw (e, f, g)
            (mark-head (240 + c / 262144)
              ((128 + c / 4096 % 64) ∷ (128 + c / 64 % 64) ∷ (128 + c % 64) ∷ xs) (ground arith))
    ]
  ]
]

pub mark-encode_all :
    (cs xs : List ℕ)
    → every is_short cs ≡ true
    → has_utf16_mark xs ≡ false
    → has_utf16_mark (encode_all cs ++ xs) ≡ false
mark-encode_all [] xs h k = k
mark-encode_all (c ∷ cs) xs h k = rw append_assoc (mark-encode c _ (ground arith))

pub take-append :
    (n : ℕ) (xs ys : List ℕ) → length xs ≤ n → take n (xs ++ ys) ≡ xs ++ take (n - length xs) ys
take-append n [] ys h = ap (λ k. take k ys) (omega arith)
take-append zero (x ∷ xs) ys h = absurd (omega (arith, h))
take-append (suc n) (x ∷ xs) ys h =
    ap (λ zs. x ∷ zs)
      (take-append n xs ys (omega (arith, h)) ∙ ap (λ k. xs ++ take k ys) (omega arith))

-- A byte that is invalid is a high one.
pub invalid→high :
    (skip : ℕ) (bytes : List ℕ)
    → (scan skip bytes).invalid_utf8 ≡ true
    → (scan skip bytes).has_high_bytes ≡ true
unfolding scan
invalid→high skip [] h = absurd (ground arith)
invalid→high (suc skip) (b ∷ bytes) h = invalid→high skip bytes h
invalid→high zero (b ∷ bytes) h = ground (arith, invalid→high zero bytes)

pub valid-utf8 : (seen : Seen) → seen.invalid_utf8 ≡ false → encoding_of seen ≡ utf8
unfolding encoding_of
valid-utf8 seen h = ground arith

pub invalid-latin1 :
    (seen : Seen)
    → seen.has_high_bytes ≡ true
    → seen.invalid_utf8 ≡ true
    → encoding_of seen ≡ latin1
unfolding encoding_of
invalid-latin1 seen h k = ground arith

pub take-nil : (n : ℕ) → take {A = ℕ} n [] ≡ []
take-nil zero = refl
take-nil (suc n) = refl

pub detect_encoding_unmarked :
    (buffer : List ℕ)
    → has_utf8_mark buffer ≡ false
    → has_utf16_mark buffer ≡ false
    → detect_encoding buffer ≡ encoding_of (scan 0 (take sample_size buffer))
unfolding detect_encoding
detect_encoding_unmarked buffer h k = rw (h, k) refl
