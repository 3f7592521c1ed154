-- ===== src/CompanyIdentity/Service.antt =====
-- The first entry of the service, `resolveBronzeContactIdentity`, with `finalizeNormalResolution`.
-- The advisory locks order transactions that the database serializes anyway.
use cerniq_app_v.Prelude.{
  ℕ, List, [], ◌∷◌, Bool, true, false, not, ◌&&◌, ◌||◌, Option, none, some, String, ◌==◌, str_eq,
  if◌then◌else◌, find_by,
}
use cerniq_app_v.Prelude.Rows.{find_first}
use cerniq_app_v.Prelude.{ltb}
use cerniq_app_v.CompanyIdentity.Model.{
  BronzeContact, Context, Resolution, IdentityKeyType, IdentitySourceAuthority,
  SilverIdentityStatus, BronzeIdentityStatus, ProcessingStatus, anaf, onrc, cui, nr_reg_com,
  key_conflict, bronze_not_found, is_given, derive_silver_identity_status,
}
use cerniq_app_v.CompanyIdentity.Action.{
  Action, Result, ok, err, pure, throw, ◌>>=◌, ◌>>◌, begin_tenant_transaction, max_attempts,
}
use cerniq_app_v.CompanyIdentity.Keys.{
  KeyInput, Snapshot, BronzeUpdate, insert_identity_key, update_company_identity_snapshot,
  create_placeholder_company, update_bronze_resolution, distinct,
}
use cerniq_app_v.CompanyIdentity.Detect.{
  Detected, halted, found, detect_single_company_id, mark_duplicate_source_bronze,
  mark_insufficient_identity_bronze, mark_identity_conflict_bronze,
}

-- The contact with the same payload that is oldest.
unfoldable pub find_source_duplicate : ℕ → ℕ → String → List BronzeContact → Option BronzeContact
unfolding find_first
find_source_duplicate tenant bronze_id hash bronze =
    find_first
      (λ b. b.tenant_id == tenant && str_eq b.source_payload_hash hash && not (b.id == bronze_id))
      (λ a b. ltb a.created_at b.created_at) bronze

-- The company and, if it is new, its id again.
unfoldable pub ensure_resolved_company : ℕ → Context → Option ℕ → Action (ℕ × Option ℕ)
unfolding create_placeholder_company
ensure_resolved_company tenant context (some company) = pure (company, none)
ensure_resolved_company tenant context none =
    create_placeholder_company tenant context >>= λ id. pure (id, some id)

abbrev pub is_anaf : IdentitySourceAuthority → Bool
is_anaf anaf = true
is_anaf _ = false

abbrev pub is_onrc : IdentitySourceAuthority → Bool
is_onrc onrc = true
is_onrc _ = false

abbrev pub context_key : Context → ℕ → IdentityKeyType → String → Option String → Bool → KeyInput
context_key context company type value original authoritative = record {
  tenant_id = context.tenant_id;
  company_id = company;
  key_type = type;
  key_value_canonical = value;
  key_value_original = original;
  source_authority = context.source_authority;
  is_authoritative = authoritative;
  source_bronze_id = some context.bronze_id;
}

-- An identifier of the contact that is given is entered for the company.
unfoldable pub upsert_context_key :
    Context → ℕ → IdentityKeyType → Option String → Option String → Bool → Action (Unit {0})
unfolding insert_identity_key
upsert_context_key context company type none original authoritative = pure tt
upsert_context_key context company type (some value) original authoritative =
    if str_eq value ""
    then pure tt
    else insert_identity_key (context_key context company type value original authoritative)

unfoldable pub upsert_context_identity_keys : Context → ℕ → Action (Unit {0})
unfolding upsert_context_key
upsert_context_identity_keys context company = do
  upsert_context_key context company cui context.extracted_cui context.extracted_cui_raw
      (is_anaf context.source_authority)
  upsert_context_key context company nr_reg_com context.extracted_nr_reg_com
      context.extracted_nr_reg_com_raw (is_onrc context.source_authority)

-- A company in conflict: only its status is set.
abbrev pub conflict_snapshot : ℕ → ℕ → Snapshot
conflict_snapshot tenant company = record {
  company_id = company;
  tenant_id = tenant;
  cui = none;
  nr_reg_com = none;
  nr_reg_com_original = none;
  source_bronze_id = none;
  identity_status = SilverIdentityStatus.identity_conflict;
}

-- What the `catch` does with a conflict of keys.
unfoldable pub handle_key_conflict : ℕ → Context → ℕ → ℕ → Action Resolution
unfolding mark_identity_conflict_bronze update_company_identity_snapshot distinct
handle_key_conflict tenant context company other = do
  result ← mark_identity_conflict_bronze context (distinct (company ∷ other ∷ []))
  update_company_identity_snapshot (conflict_snapshot tenant company)
  pure result

abbrev pub resolved_snapshot : ℕ → Context → ℕ → Snapshot
resolved_snapshot tenant context company = record {
  company_id = company;
  tenant_id = tenant;
  cui = context.extracted_cui;
  nr_reg_com = context.extracted_nr_reg_com;
  nr_reg_com_original = context.extracted_nr_reg_com_raw;
  source_bronze_id = some context.bronze_id;
  identity_status =
      derive_silver_identity_status context.extracted_cui context.extracted_nr_reg_com;
}

abbrev pub resolved_bronze : Context → ℕ → BronzeUpdate
resolved_bronze context company = record {
  bronze_id = context.bronze_id;
  identity_status = BronzeIdentityStatus.resolved;
  resolved_company_id = some company;
  duplicate_of_id = none;
  is_duplicate = false;
  do_not_process = false;
  processing_status = ProcessingStatus.pending;
}

-- After the keys are entered.
unfoldable pub record_resolution : ℕ → Context → ℕ → Option ℕ → Action Resolution
unfolding update_company_identity_snapshot update_bronze_resolution
record_resolution tenant context company created = do
  update_company_identity_snapshot (resolved_snapshot tenant context company)
  update_bronze_resolution (resolved_bronze context company)
  pure (
      Resolution.resolved company
        (derive_silver_identity_status context.extracted_cui context.extracted_nr_reg_com) created)

-- What follows the `try`: the other errors are thrown again.
unfoldable pub after_keys : ℕ → Context → ℕ → Option ℕ → Result (Unit {0}) → Action Resolution
unfolding record_resolution handle_key_conflict
after_keys tenant context company created (ok a) = record_resolution tenant context company created
after_keys tenant context company created (err (key_conflict other)) =
    handle_key_conflict tenant context company other
after_keys tenant context company created (err e) = throw e

-- `try { … } catch`, which keeps what was written before the throw.
unfoldable pub enter_and_record : ℕ → Context → ℕ → Option ℕ → Action Resolution
unfolding upsert_context_identity_keys after_keys
enter_and_record tenant context company created db =
    let entered = upsert_context_identity_keys context company db in
    after_keys tenant context company created entered.0 entered.1

unfoldable pub finalize_normal_resolution : ℕ → Context → Option ℕ → Action Resolution
unfolding ensure_resolved_company enter_and_record
finalize_normal_resolution tenant context existing =
    ensure_resolved_company tenant context existing >>= λ r. enter_and_record tenant context r.0 r.1

abbrev pub context_of : IdentitySourceAuthority → BronzeContact → Context
context_of authority b = record {
  bronze_id = b.id;
  tenant_id = b.tenant_id;
  source_payload_hash = b.source_payload_hash;
  extracted_name = b.extracted_name;
  extracted_cui_raw = b.extracted_cui_raw;
  extracted_cui = b.extracted_cui;
  extracted_nr_reg_com_raw = b.extracted_nr_reg_com_raw;
  extracted_nr_reg_com = b.extracted_nr_reg_com;
  source_authority = authority;
}

unfoldable pub finalize_detected : ℕ → Context → Detected → Action Resolution
unfolding finalize_normal_resolution
finalize_detected tenant context (halted result) = pure result
finalize_detected tenant context (found company) = finalize_normal_resolution tenant context company

-- A contact that is no copy of another.
unfoldable pub resolve_original : ℕ → Context → BronzeContact → Action Resolution
unfolding mark_insufficient_identity_bronze detect_single_company_id finalize_detected
resolve_original tenant context bronze =
    if is_given context.extracted_cui || is_given context.extracted_nr_reg_com
    then (detect_single_company_id tenant context bronze >>= λ detected.
        finalize_detected tenant context detected)
    else mark_insufficient_identity_bronze context

abbrev pub find_bronze : ℕ → ℕ → List BronzeContact → Option BronzeContact
find_bronze tenant id bronze = find_by (λ b. b.tenant_id == tenant && b.id == id) bronze

-- The body of the transaction.
unfoldable pub resolve_bronze_contact : ℕ → ℕ → IdentitySourceAuthority → Action Resolution
unfolding find_source_duplicate mark_duplicate_source_bronze resolve_original
resolve_bronze_contact tenant bronze_id authority db =
    elim (find_bronze tenant bronze_id db.bronze) [
      | none ↦ throw bronze_not_found db
      | some bronze ↦
          elim (find_source_duplicate tenant bronze.id bronze.source_payload_hash db.bronze) [
            | some duplicate ↦
                mark_duplicate_source_bronze (context_of authority bronze) duplicate db
            | none ↦ resolve_original tenant (context_of authority bronze) bronze db
          ]
    ]

unfoldable pub resolve_bronze_contact_identity :
    (ℕ → Bool) → ℕ → ℕ → IdentitySourceAuthority → Action Resolution
unfolding begin_tenant_transaction resolve_bronze_contact
resolve_bronze_contact_identity aborted tenant bronze_id authority =
    begin_tenant_transaction aborted max_attempts
      (resolve_bronze_contact tenant bronze_id authority)
