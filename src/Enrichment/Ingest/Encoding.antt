-- ===== src/Enrichment/Ingest/Encoding.antt =====
-- `detectEncoding`: which encoding the first bytes of a file are read in. A byte is a number below
-- 256; its leading bits are what is left of a division.
pub mod Utf8
pub mod Detected
use cerniq_app_v.Prelude.{
  ℕ, zero, suc, ◌+◌, ◌/◌, List, [], ◌∷◌, Bool, true, false, not, ◌&&◌, ◌||◌, ◌==◌, leb,
  if◌then◌else◌, take,
}

pub data BufferEncoding : Type 0 where
  utf8 utf16le latin1 : BufferEncoding

-- `(byte & 0xc0) === 0x80`
abbrev pub is_continuation : ℕ → Bool
is_continuation byte = byte / 64 == 2

-- The byte at the head continues a sequence; there is none behind the end.
abbrev pub continues : List ℕ → Bool
continues [] = false
continues (byte ∷ bytes) = is_continuation byte

-- The next two bytes both do.
abbrev pub continues_twice : List ℕ → Bool
continues_twice [] = false
continues_twice (byte ∷ bytes) = is_continuation byte && continues bytes

pub record Lead : Type 0 where
  pub invalid : Bool
  pub advance : ℕ

-- The byte at the index, and those behind it.
unfoldable pub inspect_utf8_lead_byte : ℕ → List ℕ → Lead
inspect_utf8_lead_byte byte bytes =
    if byte / 32 == 6
    then (if continues bytes
        then record { invalid = false; advance = 1 }
        else record { invalid = true; advance = 0 })
    else (if byte / 16 == 14
        then (if continues_twice bytes
            then record { invalid = false; advance = 2 }
            else record { invalid = true; advance = 0 })
        else record { invalid = true; advance = 0 })

-- `hasHighBytes` and `invalidUtf8` of the bytes, the first so many of which were looked at already.
pub record Seen : Type 0 where
  pub has_high_bytes : Bool
  pub invalid_utf8 : Bool

unfoldable pub scan : ℕ → List ℕ → Seen
unfolding inspect_utf8_lead_byte
scan skip [] = record { has_high_bytes = false; invalid_utf8 = false }
scan (suc skip) (byte ∷ bytes) = scan skip bytes
scan zero (byte ∷ bytes) = elim (leb byte 0x7f) [
  | true ↦ scan zero bytes
  | false ↦ record {
    has_high_bytes = true;
    invalid_utf8 =
        (inspect_utf8_lead_byte byte bytes).invalid
        || (scan (inspect_utf8_lead_byte byte bytes).advance bytes).invalid_utf8;
  }
]

abbrev pub has_utf8_mark : List ℕ → Bool
has_utf8_mark (a ∷ b ∷ c ∷ bytes) = a == 0xef && b == 0xbb && c == 0xbf
has_utf8_mark _ = false

abbrev pub has_utf16_mark : List ℕ → Bool
has_utf16_mark (a ∷ b ∷ bytes) = a == 0xff && b == 0xfe
has_utf16_mark _ = false

abbrev pub sample_size : ℕ
sample_size = 8192

unfoldable pub encoding_of : Seen → BufferEncoding
encoding_of seen = if seen.has_high_bytes && seen.invalid_utf8 then latin1 else utf8

unfoldable pub detect_encoding : List ℕ → BufferEncoding
unfolding scan encoding_of
detect_encoding buffer =
    if has_utf8_mark buffer
    then utf8
    else (if has_utf16_mark buffer then utf16le else encoding_of (scan 0 (take sample_size buffer)))
