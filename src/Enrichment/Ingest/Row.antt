-- ===== src/Enrichment/Ingest/Row.antt =====
-- The rows of a batch, and `resolveInsertedBronzeRow`.
use cerniq_app_v.Prelude.{
  ℕ, suc, ◌+◌, List, [], ◌∷◌, ◌++◌, map, Bool, true, false, Option, none, some, String, ◌==◌,
  length,
}
use cerniq_app_v.Prelude.Rows.{update_where}
use cerniq_app_v.CompanyIdentity.Model
use cerniq_app_v.CompanyIdentity.Model.{
  Db, BronzeContact, BronzeIdentityStatus, ProcessingStatus, Resolution, IdentitySourceAuthority,
}
use cerniq_app_v.CompanyIdentity.Action.{Result, ok, err}
use cerniq_app_v.CompanyIdentity.Service.{resolve_bronze_contact_identity}
use cerniq_app_v.Enrichment.Ingest.Text.{Message, max_length, truncate_error_message}

-- `BronzeContactInsert`, the columns that the resolution reads, and the row number of its metadata.
pub record BronzeContactInsert : Type 0 where
  pub tenant_id : ℕ
  pub source_payload_hash : String
  pub extracted_name : Option String
  pub extracted_cui_raw : Option String
  pub extracted_cui : Option String
  pub extracted_nr_reg_com_raw : Option String
  pub extracted_nr_reg_com : Option String
  pub row_number : Option ℕ

-- What is outside: why the database refuses a batch, if it does; the attempts that it refuses of the
-- resolution of a contact; why no approval task can be made for a contact in conflict, if so; why a
-- contact cannot be marked as failed, if so; the messages of the errors; and the time.
pub record Outside : Type 0 where
  pub refuses : Db → List BronzeContactInsert → Option Message
  pub aborted : ℕ → ℕ → Bool
  pub no_task : ℕ → List ℕ → Option Message
  pub no_mark : Db → ℕ → Option Message
  pub message_of : Model.Error → Message
  pub now : ℕ

-- An approval task of type `identity_conflict`.
pub record ConflictTask : Type 0 where
  pub bronze_contact_id : ℕ
  pub company_ids : List ℕ

pub record State : Type 0 where
  pub db : Db
  pub tasks : List ConflictTask

pub record RowError : Type 0 where
  pub row_number : Option ℕ
  pub message : Message

pub record BronzeInsertResult : Type 0 where
  pub rows_read : ℕ
  pub rows_inserted : ℕ
  pub inserted_ids : List ℕ
  pub processable_ids : List ℕ
  pub error_rows : ℕ
  pub duplicate_rows : ℕ
  pub resolved_rows : ℕ
  pub identity_conflict_rows : ℕ
  pub insufficient_identifier_rows : ℕ
  pub row_errors : List RowError

-- `error.message` is thrown on; `out_of_fuel` is none of the program's.
pub data Failure : Type 0 where
  thrown : Message → Failure
  out_of_fuel : Failure

pub data Inserted : Type 0 where
  done : BronzeInsertResult → Inserted
  failed : Failure → Inserted

-- What `resolveInsertedBronzeRow` returns.
pub record RowResolution : Type 0 where
  pub processable_id : Option ℕ
  pub duplicate_rows : ℕ
  pub resolved_rows : ℕ
  pub identity_conflict_rows : ℕ
  pub insufficient_identifier_rows : ℕ
  pub row_error : Option RowError

-- `resolveInsertedBronzeRow` returns, or the update in its `catch` throws.
pub data RowOutcome : Type 0 where
  returned : RowResolution → RowOutcome
  broke : Message → RowOutcome

abbrev pub nothing : RowResolution
nothing = record {
  processable_id = none;
  duplicate_rows = 0;
  resolved_rows = 0;
  identity_conflict_rows = 0;
  insufficient_identifier_rows = 0;
  row_error = none;
}

-- The `catch`: the contact is marked, whatever the error; an error of this update is thrown on.
unfoldable pub mark_failed : ℕ → BronzeContactInsert → Message → State → RowOutcome × State
unfolding update_where truncate_error_message
mark_failed inserted_id source_row message s = (
  returned (record nothing {
    row_error = some (record {
      row_number = source_row.row_number;
      message = truncate_error_message message max_length;
    });
  }),
  record s {
    db = record s.db {
      bronze =
          update_where (λ (b : BronzeContact). b.id == inserted_id)
            (λ (b : BronzeContact). record b {
              processing_status = ProcessingStatus.error;
              do_not_process = true;
            })
            s.db.bronze;
    };
  },
)

unfoldable pub fail_row : Outside → ℕ → BronzeContactInsert → Message → State → RowOutcome × State
unfolding mark_failed
fail_row outside inserted_id source_row message s = elim (outside.no_mark s.db inserted_id) [
  | none ↦ mark_failed inserted_id source_row message s
  | some thrown_on ↦ (broke thrown_on, s)
]

-- A contact in conflict, whose approval task may fail.
unfoldable pub handle_conflict :
    Outside → Option Message → ℕ → BronzeContactInsert → List ℕ → State → RowOutcome × State
unfolding fail_row
handle_conflict outside none inserted_id source_row company_ids s = (
  returned (record nothing { identity_conflict_rows = 1 }),
  record s {
    tasks = record { bronze_contact_id = inserted_id; company_ids = company_ids } ∷ s.tasks;
  },
)
handle_conflict outside (some message) inserted_id source_row company_ids s =
    fail_row outside inserted_id source_row message s

-- The `switch` over the result of the resolution.
unfoldable pub row_of :
    Outside → ℕ → BronzeContactInsert → Result Resolution → State → RowOutcome × State
unfolding handle_conflict fail_row
row_of outside inserted_id source_row (ok (Resolution.resolved company status created)) s =
    (returned (record nothing { processable_id = some inserted_id; resolved_rows = 1 }), s)
row_of outside inserted_id source_row (ok (Resolution.duplicate_source company duplicate)) s =
    (returned (record nothing { duplicate_rows = 1 }), s)
row_of outside inserted_id source_row (ok Resolution.insufficient_identifiers) s =
    (returned (record nothing { insufficient_identifier_rows = 1 }), s)
row_of outside inserted_id source_row (ok (Resolution.identity_conflict company_ids)) s =
    handle_conflict outside (outside.no_task inserted_id company_ids) inserted_id source_row
      company_ids s
row_of outside inserted_id source_row (err e) s =
    fail_row outside inserted_id source_row (outside.message_of e) s

unfoldable pub resolve_inserted_bronze_row :
    Outside → ℕ → BronzeContactInsert → State → RowOutcome × State
unfolding row_of resolve_bronze_contact_identity
resolve_inserted_bronze_row outside inserted_id source_row s =
    let resolution =
      resolve_bronze_contact_identity (outside.aborted inserted_id) source_row.tenant_id inserted_id
        IdentitySourceAuthority.import s.db in
    row_of outside inserted_id source_row resolution.0 (record s { db = resolution.1 })

abbrev pub new_contact : ℕ → BronzeContactInsert → ℕ → BronzeContact
new_contact now row id = record {
  id = id;
  tenant_id = row.tenant_id;
  source_payload_hash = row.source_payload_hash;
  extracted_name = row.extracted_name;
  extracted_cui_raw = row.extracted_cui_raw;
  extracted_cui = row.extracted_cui;
  extracted_nr_reg_com_raw = row.extracted_nr_reg_com_raw;
  extracted_nr_reg_com = row.extracted_nr_reg_com;
  identity_status = BronzeIdentityStatus.unresolved;
  resolved_company_id = none;
  promoted_to_silver_id = none;
  duplicate_of_id = none;
  is_duplicate = false;
  do_not_process = false;
  processing_status = ProcessingStatus.pending;
  created_at = now;
}

-- The ids of the rows of a batch, from the first.
unfoldable pub numbered : ℕ → List BronzeContactInsert → List (ℕ × BronzeContactInsert)
numbered id [] = []
numbered id (row ∷ rows) = (id, row) ∷ numbered (suc id) rows

-- `db.insert(bronzeContacts).values(payload)`
unfoldable pub insert_contacts : ℕ → List BronzeContactInsert → Db → Db
unfolding numbered
insert_contacts now payload db = record db {
  bronze =
      db.bronze
      ++ map (λ (r : ℕ × BronzeContactInsert). new_contact now r.1 r.0)
          (numbered db.next_id payload);
  next_id = db.next_id + length payload;
}
