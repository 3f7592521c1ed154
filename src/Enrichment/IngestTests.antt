-- ===== src/Enrichment/IngestTests.antt =====
-- Tests of the insertion of imported rows, and the theorems on it applied.
use cerniq_app_v.Prelude.{
  ◌≡◌, refl, ℕ, List, [], ◌∷◌, map, Bool, true, false, ◌||◌, Option, none, some, String, str_eq,
  if◌then◌else◌, length, replicate, arith,
}
use cerniq_app_v.Prelude.Text.{codes}
use cerniq_app_v.Enrichment.Ingest.Text.{
  should_split_insert_batch, contains, contains_any, starts_with, to_lower, truncate_error_message,
}
use cerniq_app_v.Enrichment.Ingest.Row.{Outside, State, BronzeContactInsert}
use cerniq_app_v.Enrichment.Ingest.Batch.{insert_bronze_payload_safely}
use cerniq_app_v.Enrichment.Ingest.Ends.{Settled, insert_bronze_payload_safely-Settled}
use cerniq_app_v.Enrichment.Ingest.Encoding.{
  utf8, latin1, detect_encoding, encoding_of, scan, inspect_utf8_lead_byte,
}
use cerniq_app_v.Enrichment.Ingest.Encoding.Utf8.{encode_all}
use cerniq_app_v.Enrichment.Ingest.Encoding.Detected.{detect_encoding-encode_all}

abbrev row_with : String → Option String → ℕ → BronzeContactInsert
row_with hash code number = record {
  tenant_id = 7;
  source_payload_hash = hash;
  extracted_name = none;
  extracted_cui_raw = code;
  extracted_cui = code;
  extracted_nr_reg_com_raw = none;
  extracted_nr_reg_com = none;
  row_number = some number;
}

abbrev has_bad : List BronzeContactInsert → Bool
has_bad [] = false
has_bad (r ∷ rs) = str_eq r.source_payload_hash "bad" || has_bad rs

-- The database refuses each batch with a bad row.
abbrev outside : Outside
outside = record {
  refuses = λ db rows. if has_bad rows then some (codes "Invalid byte sequence") else none;
  aborted = λ id n. false;
  no_task = λ id companies. none;
  no_mark = λ db id. none;
  message_of = λ e. codes "error";
  now = 0;
}

abbrev empty : State
empty = record { db = record { bronze = []; keys = []; companies = []; next_id = 1 }; tasks = [] }

abbrev payload : List BronzeContactInsert
payload =
    row_with "aa" (some "123") 1
    ∷ row_with "bad" (some "456") 2
    ∷ row_with "aa" (some "123") 3
    ∷ row_with "dd" none 4
    ∷ []

splits : should_split_insert_batch (codes "PG: Value TOO long") ≡ true
unfolding should_split_insert_batch contains contains_any starts_with to_lower
splits = refl

does_not_split : should_split_insert_batch (codes "Connection reset: value too long") ≡ false
unfolding should_split_insert_batch contains contains_any starts_with to_lower
does_not_split = refl

-- A text of 1001 code units is made longer by its truncation.
truncated_length : length (truncate_error_message (replicate 1001 b'a') 1000) ≡ 1002
unfolding truncate_error_message
truncated_length = refl

insert_bronze_payload_safely-Settled_example :
    Settled 4 (insert_bronze_payload_safely outside payload empty).0
insert_bronze_payload_safely-Settled_example =
    insert_bronze_payload_safely-Settled outside payload empty

-- "é" is read as UTF-8, and "a" before a face is not.
detected :
    map detect_encoding ((0xc3 ∷ 0xa9 ∷ []) ∷ (b'a' ∷ 0xf0 ∷ 0x9f ∷ 0x98 ∷ 0x80 ∷ []) ∷ [])
    ≡ utf8 ∷ latin1 ∷ []
unfolding detect_encoding encoding_of scan inspect_utf8_lead_byte
detected = refl

detect_encoding-encode_all_example : detect_encoding (encode_all (b'a' ∷ 0x1f600 ∷ [])) ≡ latin1
detect_encoding-encode_all_example =
    detect_encoding-encode_all (b'a' ∷ 0x1f600 ∷ []) refl (omega arith) refl
