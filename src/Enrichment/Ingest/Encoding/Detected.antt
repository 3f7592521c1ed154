-- ===== src/Enrichment/Ingest/Encoding/Detected.antt =====
-- The encoding that is detected for a text in UTF-8, by its code points.
use cerniq_app_v.Prelude.{
  ◌≡◌, refl, sym, ap, ◌∙◌, inl, inr, Bool-cases, ℕ, suc, ◌+◌, ◌-◌, ◌/◌, ◌≤◌, ◌<◌, List, [], ◌∷◌,
  ◌++◌, true, false, ◌==◌, leb, ltb, if◌then◌else◌, length, length-append, take, every, arith,
}
use mathlib.Core.List.{append_assoc, append-nil}
use cerniq_app_v.Enrichment.Ingest.Encoding.{
  utf8, latin1, inspect_utf8_lead_byte, scan, encoding_of, detect_encoding, has_utf8_mark,
  has_utf16_mark, sample_size,
}
use cerniq_app_v.Enrichment.Ingest.Encoding.Utf8.{
  encode, encode_all, is_short, scan-encode_all, mark-encode, mark-encode_all, take-append,
  invalid→high, valid-utf8, invalid-latin1, take-nil, detect_encoding_unmarked,
}

-- Short code points only.
detect_encoding-short :
    (cs : List ℕ)
    → every is_short cs ≡ true
    → length (encode_all cs) ≤ sample_size
    → detect_encoding (encode_all cs) ≡ utf8
unfolding detect_encoding encoding_of scan
detect_encoding-short cs short fits = elim (Bool-cases (has_utf8_mark (encode_all cs))) [
  | inl e ↦ rw (detect_encoding, e) refl
  | inr e ↦
      let no_mark : has_utf16_mark (encode_all cs) ≡ false =
        ap has_utf16_mark (sym (append-nil (encode_all cs))) ∙ mark-encode_all cs [] short refl in
      let whole : take sample_size (encode_all cs) ≡ encode_all cs ++ [] =
        ap (take sample_size) (sym (append-nil (encode_all cs)))
        ∙ (take-append sample_size (encode_all cs) [] fits
            ∙ ap (λ ys. encode_all cs ++ ys) (take-nil (sample_size - length (encode_all cs)))) in
      detect_encoding_unmarked (encode_all cs) e no_mark
      ∙ (ap (λ bytes. encoding_of (scan 0 bytes)) whole
          ∙ valid-utf8 _ (scan-encode_all cs [] short))
]

encode_all-append : (cs ds : List ℕ) → encode_all (cs ++ ds) ≡ encode_all cs ++ encode_all ds
encode_all-append [] ds = refl
encode_all-append (c ∷ cs) ds =
    ap (λ bytes. encode c ++ bytes) (encode_all-append cs ds)
    ∙ sym (append_assoc (encode c) (encode_all cs) (encode_all ds))

-- The first byte of a long code point is high and invalid, whatever follows.
scan-long :
    (c k : ℕ) (bytes : List ℕ)
    → is_short c ≡ false
    → c < 0x110000
    → (scan 0 (take (suc k) (encode c ++ bytes))).invalid_utf8 ≡ true
unfolding scan inspect_utf8_lead_byte
scan-long c k bytes long h =
    let not_one : ltb c 0x80 ≡ false = ground arith in
    let not_two : ltb c 0x800 ≡ false = ground arith in
    let high : leb (240 + c / 262144) 0x7f ≡ false = ground arith in
    let not_lead : ((240 + c / 262144) / 32 == 6) ≡ false = ground arith in
    let not_lead_of_three : ((240 + c / 262144) / 16 == 14) ≡ false = ground arith in
    rw (not_one, not_two, long, scan, high, inspect_utf8_lead_byte, not_lead, not_lead_of_three)
      refl

-- A long one that begins in the sample, after short ones.
detect_encoding-long :
    (cs : List ℕ) (c : ℕ) (rest : List ℕ)
    → every is_short cs ≡ true
    → is_short c ≡ false
    → c < 0x110000
    → length (encode_all cs) < sample_size
    → has_utf8_mark (encode_all (cs ++ (c ∷ rest))) ≡ false
    → detect_encoding (encode_all (cs ++ (c ∷ rest))) ≡ latin1
detect_encoding-long cs c rest short long in_range fits no_mark =
    let after = encode c ++ encode_all rest in
    let whole : encode_all (cs ++ (c ∷ rest)) ≡ encode_all cs ++ after =
      encode_all-append cs (c ∷ rest) in
    let k = sample_size - length (encode_all cs) - 1 in
    let counted : sample_size - length (encode_all cs) ≡ suc k = omega (arith, fits) in
    let sample : take sample_size (encode_all cs ++ after) ≡ encode_all cs ++ take (suc k) after =
      take-append sample_size (encode_all cs) after (omega (arith, fits))
      ∙ ap (λ n. encode_all cs ++ take n after) counted in
    let invalid : (scan 0 (take sample_size (encode_all cs ++ after))).invalid_utf8 ≡ true =
      ap (λ bytes. (scan 0 bytes).invalid_utf8) sample
      ∙ (scan-encode_all cs (take (suc k) after) short
          ∙ scan-long c k (encode_all rest) long in_range) in
    ap detect_encoding whole
    ∙ (detect_encoding_unmarked (encode_all cs ++ after) (ap has_utf8_mark (sym whole) ∙ no_mark)
          (mark-encode_all cs after short (mark-encode c (encode_all rest) in_range))
        ∙ invalid-latin1 _ (invalid→high 0 _ invalid) invalid)

-- The first long code point.
first_long :
    (cs : List ℕ)
    → every is_short cs ≡ false
    → every (λ c. ltb c 0x110000) cs ≡ true
    → (pre : List ℕ) × (c : ℕ) × (rest : List ℕ) × (cs ≡ pre ++ (c ∷ rest))
      × (every is_short pre ≡ true)
      × (is_short c ≡ false)
      × (c < 0x110000)
first_long [] h k = absurd (ground arith)
first_long (c ∷ cs) h k = elim (Bool-cases (is_short c)) [
  | inr e ↦ ([], c, cs, refl, refl, e, ground arith)
  | inl e ↦
      let (pre, d, rest, split, short, long, range) =
        first_long cs (ground (arith, e)) (ground arith) in
      (c ∷ pre, d, rest, ap (λ ds. c ∷ ds) split, ground (arith, e, short), long, range)
]

length-encode : (c : ℕ) → 1 ≤ length (encode c)
length-encode c = ground arith

-- A text in UTF-8 with no mark before it that fits in the sample is read as UTF-8 where all its code
-- points are below 0x10000, and as Latin-1 otherwise.
pub detect_encoding-encode_all :
    (cs : List ℕ)
    → every (λ c. ltb c 0x110000) cs ≡ true
    → length (encode_all cs) ≤ sample_size
    → has_utf8_mark (encode_all cs) ≡ false
    → detect_encoding (encode_all cs) ≡ (if every is_short cs then utf8 else latin1)
detect_encoding-encode_all cs range fits no_mark = elim (Bool-cases (every is_short cs)) [
  | inl e ↦ rw e (detect_encoding-short cs e fits)
  | inr e ↦
      let (pre, c, rest, split, short, long, high) = first_long cs e range in
      let size : length (encode_all cs)
          ≡ length (encode_all pre) + (length (encode c) + length (encode_all rest)) =
        ap (λ ds. length (encode_all ds)) split
        ∙ (ap length (encode_all-append pre (c ∷ rest))
            ∙ (length-append (encode_all pre) (encode c ++ encode_all rest)
                ∙ ap (λ n. length (encode_all pre) + n)
                    (length-append (encode c) (encode_all rest)))) in
      rw e (
        ap (λ ds. detect_encoding (encode_all ds)) split
        ∙ detect_encoding-long pre c rest short long high
            (omega (arith, size, fits, length-encode c))
            (ap (λ ds. has_utf8_mark (encode_all ds)) (sym split) ∙ no_mark))
]
