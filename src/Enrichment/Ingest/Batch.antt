-- ===== src/Enrichment/Ingest/Batch.antt =====
-- `insertBronzePayloadSafely`: the loop over the inserted rows, and the split.
use cerniq_app_v.Prelude.{
  ℕ, zero, suc, ◌+◌, ◌-◌, ◌/◌, List, [], ◌∷◌, ◌++◌, map, true, false, Option, none, some, length,
  take, drop,
}
use cerniq_app_v.Enrichment.Ingest.Text.{
  Message, should_split_insert_batch, max_length, truncate_error_message,
}
use cerniq_app_v.Enrichment.Ingest.Row.{
  BronzeContactInsert, Outside, State, RowError, BronzeInsertResult, Inserted, RowResolution,
  returned, broke, resolve_inserted_bronze_row, numbered, insert_contacts, thrown, out_of_fuel,
  done, failed,
}

-- What the loop over the inserted rows adds up.
pub record Tally : Type 0 where
  pub processable_ids : List ℕ
  pub row_errors : List RowError
  pub duplicate_rows : ℕ
  pub resolved_rows : ℕ
  pub identity_conflict_rows : ℕ
  pub insufficient_identifier_rows : ℕ

-- `push`, if there is something.
abbrev pub push_some {ℓ} : {A : Type ℓ} → List A → Option A → List A
push_some xs none = xs
push_some xs (some a) = xs ++ (a ∷ [])

abbrev pub add_row : Tally → RowResolution → Tally
add_row t r = record {
  processable_ids = push_some t.processable_ids r.processable_id;
  row_errors = push_some t.row_errors r.row_error;
  duplicate_rows = t.duplicate_rows + r.duplicate_rows;
  resolved_rows = t.resolved_rows + r.resolved_rows;
  identity_conflict_rows = t.identity_conflict_rows + r.identity_conflict_rows;
  insufficient_identifier_rows = t.insufficient_identifier_rows + r.insufficient_identifier_rows;
}

abbrev pub no_rows : Tally
no_rows = record {
  processable_ids = [];
  row_errors = [];
  duplicate_rows = 0;
  resolved_rows = 0;
  identity_conflict_rows = 0;
  insufficient_identifier_rows = 0;
}

-- The loop ends, or a row's error is thrown out of it.
pub data Looped : Type 0 where
  tallied : Tally → Looped
  broke_off : Message → Looped

unfoldable pub resolve_rows :
    Outside → List (ℕ × BronzeContactInsert) → Tally → State → Looped × State
unfolding resolve_inserted_bronze_row
resolve_rows outside [] t s = (tallied t, s)
resolve_rows outside ((id, row) ∷ rows) t s =
    let one = resolve_inserted_bronze_row outside id row s in
    elim one.0 [
      | returned r ↦ resolve_rows outside rows (add_row t r) one.1
      | broke message ↦ (broke_off message, one.1)
    ]

-- The result of a batch that was inserted.
abbrev pub batch_result : List BronzeContactInsert → List ℕ → Tally → BronzeInsertResult
batch_result payload ids t = record {
  rows_read = length payload;
  rows_inserted = length ids - t.duplicate_rows - length t.row_errors;
  inserted_ids = ids;
  processable_ids = t.processable_ids;
  error_rows = length t.row_errors;
  duplicate_rows = t.duplicate_rows;
  resolved_rows = t.resolved_rows;
  identity_conflict_rows = t.identity_conflict_rows;
  insufficient_identifier_rows = t.insufficient_identifier_rows;
  row_errors = t.row_errors;
}

abbrev pub empty_bronze_insert_result : BronzeInsertResult
empty_bronze_insert_result = record {
  rows_read = 0;
  rows_inserted = 0;
  inserted_ids = [];
  processable_ids = [];
  error_rows = 0;
  duplicate_rows = 0;
  resolved_rows = 0;
  identity_conflict_rows = 0;
  insufficient_identifier_rows = 0;
  row_errors = [];
}

unfoldable pub single_row_insert_failure : BronzeContactInsert → Message → BronzeInsertResult
unfolding truncate_error_message
single_row_insert_failure row message = record empty_bronze_insert_result {
  rows_read = 1;
  error_rows = 1;
  row_errors =
      record { row_number = row.row_number; message = truncate_error_message message max_length }
      ∷ [];
}

unfoldable pub merge_bronze_insert_results :
    BronzeInsertResult → BronzeInsertResult → BronzeInsertResult
merge_bronze_insert_results left right = record {
  rows_read = left.rows_read + right.rows_read;
  rows_inserted = left.rows_inserted + right.rows_inserted;
  inserted_ids = left.inserted_ids ++ right.inserted_ids;
  processable_ids = left.processable_ids ++ right.processable_ids;
  error_rows = left.error_rows + right.error_rows;
  duplicate_rows = left.duplicate_rows + right.duplicate_rows;
  resolved_rows = left.resolved_rows + right.resolved_rows;
  identity_conflict_rows = left.identity_conflict_rows + right.identity_conflict_rows;
  insufficient_identifier_rows =
      left.insufficient_identifier_rows + right.insufficient_identifier_rows;
  row_errors = left.row_errors ++ right.row_errors;
}

-- The second half, after what the first one came to.
unfoldable pub and_then : Inserted × State → (State → Inserted × State) → Inserted × State
unfolding merge_bronze_insert_results
and_then (failed e, s) right = (failed e, s)
and_then (done left, s) right = elim (right s).0 [
  | done r ↦ (done (merge_bronze_insert_results left r), (right s).1)
  | failed e ↦ (failed e, (right s).1)
]

abbrev pub mid_of : List BronzeContactInsert → ℕ
mid_of payload = (length payload + 1) / 2

-- The body of the `try`: the batch is inserted and its rows are resolved. What is thrown leaves the
-- rows that are inserted, since this is no transaction.
pub data Tried : Type 0 where
  inserted : BronzeInsertResult → Tried
  threw : Message → Tried

unfoldable pub try_batch : Outside → List BronzeContactInsert → State → Tried × State
unfolding resolve_rows insert_contacts numbered
try_batch outside payload s = elim (outside.refuses s.db payload) [
  | some message ↦ (threw message, s)
  | none ↦
      let ids = numbered s.db.next_id payload in
      let loop =
        resolve_rows outside ids no_rows
          (record s { db = insert_contacts outside.now payload s.db }) in
      elim loop.0 [
        | tallied t ↦ (
          inserted (batch_result payload (map (λ (r : ℕ × BronzeContactInsert). r.0) ids) t),
          loop.1,
        )
        | broke_off message ↦ (threw message, loop.1)
      ]
]

-- With fuel for the depth of the splits; the length of the payload is enough (Ingest/Ends).
unfoldable pub insert_safely : ℕ → Outside → List BronzeContactInsert → State → Inserted × State
unfolding try_batch should_split_insert_batch single_row_insert_failure and_then
insert_safely fuel outside [] s = (done empty_bronze_insert_result, s)
insert_safely zero outside (row ∷ rows) s = (failed out_of_fuel, s)
insert_safely (suc fuel) outside (row ∷ rows) s =
    let payload = row ∷ rows in
    let tried = try_batch outside payload s in
    elim tried.0 [
      | inserted result ↦ (done result, tried.1)
      | threw message ↦ elim (should_split_insert_batch message) [
        | false ↦ (failed (thrown message), tried.1)
        | true ↦ elim rows [
          | [] ↦ (done (single_row_insert_failure row message), tried.1)
          | _ ∷ _ ↦
              and_then (insert_safely fuel outside (take (mid_of payload) payload) tried.1)
                (insert_safely fuel outside (drop (mid_of payload) payload))
        ]
      ]
    ]

unfoldable pub insert_bronze_payload_safely :
    Outside → List BronzeContactInsert → State → Inserted × State
unfolding insert_safely
insert_bronze_payload_safely outside payload s = insert_safely (length payload) outside payload s
