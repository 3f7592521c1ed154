-- ===== src/CompanyIdentity/Tests.antt =====
-- Tests of the identity service on a small database, and the theorems applied to it.
use cerniq_app_v.Prelude.{
  every, ◌≡◌, refl, ◌⊎◌, ℕ, ◌≤◌, [], ◌∷◌, map, Bool, true, false, Option, none, some, String, ◌==◌,
  count_by, arith,
}
use mathlib.Core.Option
use cerniq_app_v.Prelude.Rows.{update_where, find_first}
use cerniq_app_v.CompanyIdentity.Model
use cerniq_app_v.CompanyIdentity.Model.{
  not_serializable, Db, IdentityKey, SilverCompany, BronzeContact, IdentityKeyType,
  IdentitySourceAuthority, ProcessingStatus, Resolution, UpsertResult, linked, conflict, Error,
  anaf, cui, nr_reg_com, derive_silver_identity_status, unique_violation,
}
use cerniq_app_v.CompanyIdentity.Action.{
  Result, ok, err, begin_tenant_transaction, attempt, max_attempts, put_companies, is_unique, clash,
  ◌>>=◌, ◌>>◌,
}
use cerniq_app_v.CompanyIdentity.Keys.{
  KeyInput, is_active, insert_identity_key, find_identity_matches,
  find_legacy_silver_company_matches, distinct, update_company_identity_snapshot,
  update_bronze_resolution, create_placeholder_company,
}
use cerniq_app_v.CompanyIdentity.Merge.{
  transfer_keys, auto_merge_split_companies, merge_distinct, try_auto_merge_from_registry_matches,
  try_auto_merge_from_legacy_matches,
}
use cerniq_app_v.CompanyIdentity.Detect.{
  mark_duplicate_source_bronze, mark_insufficient_identity_bronze, mark_identity_conflict_bronze,
  merged_or_conflict, merge_with, try_auto_merge_nr_reg_com_conflict, detect_by_columns,
  detect_by_registry, detect_single_company_id,
}
use cerniq_app_v.CompanyIdentity.Service.{
  find_source_duplicate, ensure_resolved_company, upsert_context_key, upsert_context_identity_keys,
  handle_key_conflict, record_resolution, after_keys, enter_and_record, finalize_normal_resolution,
  finalize_detected, resolve_original, find_bronze, resolve_bronze_contact,
  resolve_bronze_contact_identity,
}
use cerniq_app_v.CompanyIdentity.Upsert.{
  reject_source, refuse_key, link_key, upsert_key, upsert_company_identity_key, Call, made, run,
}
use cerniq_app_v.CompanyIdentity.Upsert.Call.{resolve, upsert}
use cerniq_app_v.CompanyIdentity.Unique.{run-one_holder}
use cerniq_app_v.CompanyIdentity.Recorded.{outcome, outcome_of}
use cerniq_app_v.CompanyIdentity.Holder.{is_held_by}
use cerniq_app_v.CompanyIdentity.Calls.{
  attempts, begin_tenant_transaction-retries, resolve-recorded, resolve-entered,
}
use cerniq_app_v.CompanyIdentity.Linked.{IsTrue, upsert-tells_truth}

abbrev key_row : ℕ → ℕ → IdentityKeyType → String → IdentityKey
key_row row company type value = record {
  id = row;
  tenant_id = 7;
  company_id = company;
  key_type = type;
  key_value_canonical = value;
  key_value_original = none;
  source_authority = IdentitySourceAuthority.import;
  is_authoritative = false;
  source_bronze_id = none;
  is_revoked = false;
}

abbrev company_row : ℕ → Option String → Option String → SilverCompany
company_row row c n = record {
  id = row;
  tenant_id = 7;
  cui = c;
  nr_reg_com = n;
  nr_reg_com_original = n;
  denumire = none;
  identity_status = derive_silver_identity_status c n;
  source_bronze_id = none;
  is_promotion_blocked = true;
  is_master_record = true;
}

abbrev contact_row : ℕ → String → Option String → Option String → BronzeContact
contact_row row hash c n = record {
  id = row;
  tenant_id = 7;
  source_payload_hash = hash;
  extracted_name = none;
  extracted_cui_raw = c;
  extracted_cui = c;
  extracted_nr_reg_com_raw = n;
  extracted_nr_reg_com = n;
  identity_status = Model.BronzeIdentityStatus.unresolved;
  resolved_company_id = none;
  promoted_to_silver_id = none;
  duplicate_of_id = none;
  is_duplicate = false;
  do_not_process = false;
  processing_status = ProcessingStatus.pending;
  created_at = row;
}

-- One company is known by its code, another by its number, and contact 50 gives both; contact 51
-- repeats it, contact 52 gives neither and contact 53 a new code.
abbrev split : Db
split = record {
  bronze =
      contact_row 50 "aa" (some "123") (some "J40/1/2000")
      ∷ contact_row 51 "aa" (some "123") none
      ∷ contact_row 52 "cc" none (some "")
      ∷ contact_row 53 "dd" (some "456") none
      ∷ contact_row 54 "ee" (some "123") (some "J40/1/2000")
      ∷ [];
  keys = key_row 10 1 cui "123" ∷ key_row 11 2 nr_reg_com "J40/1/2000" ∷ [];
  companies = company_row 1 (some "123") none ∷ company_row 2 none (some "J40/1/2000") ∷ [];
  next_id = 100;
}

abbrev never : ℕ → Bool
never n = false

-- The first attempt is refused.
abbrev first : ℕ → Bool
first n = n == 4

abbrev input : IdentityKeyType → String → ℕ → KeyInput
input type value company = record {
  tenant_id = 7;
  company_id = company;
  key_type = type;
  key_value_canonical = value;
  key_value_original = none;
  source_authority = anaf;
  is_authoritative = true;
  source_bronze_id = some 53;
}

abbrev result_of : ℕ → Result Resolution
result_of id = (resolve_bronze_contact_identity first 7 id IdentitySourceAuthority.import split).0

results :
    map result_of (50 ∷ 52 ∷ 53 ∷ 54 ∷ 60 ∷ [])
    ≡ ok (Resolution.duplicate_source none 51)
      ∷ ok Resolution.insufficient_identifiers
      ∷ ok (Resolution.resolved 100 Model.SilverIdentityStatus.partial (some 100))
      ∷ ok (Resolution.resolved 1 Model.SilverIdentityStatus.resolved none)
      ∷ err Model.Error.bronze_not_found
      ∷ []
unfolding resolve_bronze_contact_identity begin_tenant_transaction attempt resolve_bronze_contact
    find_source_duplicate find_first mark_duplicate_source_bronze update_bronze_resolution
    update_where ◌>>=◌ ◌>>◌ resolve_original mark_insufficient_identity_bronze
    detect_single_company_id find_identity_matches distinct detect_by_registry detect_by_columns
    find_legacy_silver_company_matches try_auto_merge_nr_reg_com_conflict merge_with
    merged_or_conflict mark_identity_conflict_bronze try_auto_merge_from_registry_matches
    try_auto_merge_from_legacy_matches merge_distinct auto_merge_split_companies transfer_keys
    insert_identity_key put_companies is_unique clash finalize_detected finalize_normal_resolution
    ensure_resolved_company create_placeholder_company enter_and_record upsert_context_identity_keys
    upsert_context_key after_keys record_resolution update_company_identity_snapshot
    derive_silver_identity_status handle_key_conflict
results = refl

abbrev merge_two : Call
merge_two = resolve first 7 54 IdentitySourceAuthority.import

abbrev take_over : Call
take_over = upsert never (input cui "123" 2)

run-one_holder_example :
    count_by (is_active 7 cui "123") (run (merge_two ∷ take_over ∷ merge_two ∷ []) split).keys ≤ 1
run-one_holder_example =
    run-one_holder 7 cui "123" (merge_two ∷ take_over ∷ merge_two ∷ []) split (omega arith)

-- The key is moved when the companies are merged: revoked for one and entered for the other.
merge_moves_key :
    (run (merge_two ∷ []) split).keys
    ≡ record (key_row 10 1 cui "123") {
      key_value_original = some "123";
      source_bronze_id = some 54;
    }
      ∷ record (key_row 11 2 nr_reg_com "J40/1/2000") { is_revoked = true }
      ∷ record (key_row 100 1 nr_reg_com "J40/1/2000") {
        key_value_original = some "J40/1/2000";
        source_bronze_id = some 54;
      }
      ∷ []
unfolding resolve_bronze_contact_identity begin_tenant_transaction attempt resolve_bronze_contact
    find_source_duplicate find_first mark_duplicate_source_bronze update_bronze_resolution
    update_where ◌>>=◌ ◌>>◌ resolve_original mark_insufficient_identity_bronze
    detect_single_company_id find_identity_matches distinct detect_by_registry detect_by_columns
    find_legacy_silver_company_matches try_auto_merge_nr_reg_com_conflict merge_with
    merged_or_conflict mark_identity_conflict_bronze try_auto_merge_from_registry_matches
    try_auto_merge_from_legacy_matches merge_distinct auto_merge_split_companies transfer_keys
    insert_identity_key put_companies is_unique clash finalize_detected finalize_normal_resolution
    ensure_resolved_company create_placeholder_company enter_and_record upsert_context_identity_keys
    upsert_context_key after_keys record_resolution update_company_identity_snapshot
    derive_silver_identity_status handle_key_conflict run made
merge_moves_key = refl

-- The first of five attempts is refused.
begin_tenant_transaction-retries_example :
    (every first (attempts max_attempts) ≡ true)
      × (begin_tenant_transaction first max_attempts (upsert_key (input cui "456" 2)) split
          ≡ (err not_serializable, split))
    ⊎ (every first (attempts max_attempts) ≡ false)
      × (((a : UpsertResult) × ((upsert_key (input cui "456" 2) split).0 ≡ ok a)
            × (begin_tenant_transaction first max_attempts (upsert_key (input cui "456" 2)) split
                ≡ (ok a, (upsert_key (input cui "456" 2) split).1)))
          ⊎ ((e : Error) × ((upsert_key (input cui "456" 2) split).0 ≡ err e)
              × (begin_tenant_transaction first max_attempts (upsert_key (input cui "456" 2)) split
                  ≡ (err e, split))))
begin_tenant_transaction-retries_example =
    begin_tenant_transaction-retries first max_attempts (upsert_key (input cui "456" 2)) split

resolve-recorded_example :
    Option.map outcome (
      find_bronze 7 54
        (resolve_bronze_contact_identity first 7 54 IdentitySourceAuthority.import split).1.bronze)
    ≡ some (outcome_of (Resolution.resolved 1 Model.SilverIdentityStatus.resolved none))
unfolding resolve_bronze_contact_identity begin_tenant_transaction attempt resolve_bronze_contact
    find_source_duplicate find_first mark_duplicate_source_bronze update_bronze_resolution
    update_where ◌>>=◌ ◌>>◌ resolve_original mark_insufficient_identity_bronze
    detect_single_company_id find_identity_matches distinct detect_by_registry detect_by_columns
    find_legacy_silver_company_matches try_auto_merge_nr_reg_com_conflict merge_with
    merged_or_conflict mark_identity_conflict_bronze try_auto_merge_from_registry_matches
    try_auto_merge_from_legacy_matches merge_distinct auto_merge_split_companies transfer_keys
    insert_identity_key put_companies is_unique clash finalize_detected finalize_normal_resolution
    ensure_resolved_company create_placeholder_company enter_and_record upsert_context_identity_keys
    upsert_context_key after_keys record_resolution update_company_identity_snapshot
    derive_silver_identity_status handle_key_conflict
resolve-recorded_example =
    resolve-recorded first 7 54 IdentitySourceAuthority.import split
      (contact_row 54 "ee" (some "123") (some "J40/1/2000"))
      (Resolution.resolved 1 Model.SilverIdentityStatus.resolved none) refl refl

resolve-entered_example :
    is_held_by 7 nr_reg_com "J40/1/2000" 1
      (resolve_bronze_contact_identity first 7 54 IdentitySourceAuthority.import split).1.keys
    ≡ true
unfolding resolve_bronze_contact_identity begin_tenant_transaction attempt resolve_bronze_contact
    find_source_duplicate find_first mark_duplicate_source_bronze update_bronze_resolution
    update_where ◌>>=◌ ◌>>◌ resolve_original mark_insufficient_identity_bronze
    detect_single_company_id find_identity_matches distinct detect_by_registry detect_by_columns
    find_legacy_silver_company_matches try_auto_merge_nr_reg_com_conflict merge_with
    merged_or_conflict mark_identity_conflict_bronze try_auto_merge_from_registry_matches
    try_auto_merge_from_legacy_matches merge_distinct auto_merge_split_companies transfer_keys
    insert_identity_key put_companies is_unique clash finalize_detected finalize_normal_resolution
    ensure_resolved_company create_placeholder_company enter_and_record upsert_context_identity_keys
    upsert_context_key after_keys record_resolution update_company_identity_snapshot
    derive_silver_identity_status handle_key_conflict
resolve-entered_example =
    resolve-entered first 7 54 IdentitySourceAuthority.import split
      (contact_row 54 "ee" (some "123") (some "J40/1/2000")) 1 Model.SilverIdentityStatus.resolved
      none nr_reg_com "J40/1/2000" refl refl refl refl

upsert-tells_truth_example :
    IsTrue
      (input cui "123" 2)
      (conflict 2 1)
      split.keys
      (upsert_company_identity_key first (input cui "123" 2) split).1.keys
unfolding resolve_bronze_contact_identity begin_tenant_transaction attempt resolve_bronze_contact
    find_source_duplicate find_first mark_duplicate_source_bronze update_bronze_resolution
    update_where ◌>>=◌ ◌>>◌ resolve_original mark_insufficient_identity_bronze
    detect_single_company_id find_identity_matches distinct detect_by_registry detect_by_columns
    find_legacy_silver_company_matches try_auto_merge_nr_reg_com_conflict merge_with
    merged_or_conflict mark_identity_conflict_bronze try_auto_merge_from_registry_matches
    try_auto_merge_from_legacy_matches merge_distinct auto_merge_split_companies transfer_keys
    insert_identity_key put_companies is_unique clash finalize_detected finalize_normal_resolution
    ensure_resolved_company create_placeholder_company enter_and_record upsert_context_identity_keys
    upsert_context_key after_keys record_resolution update_company_identity_snapshot
    derive_silver_identity_status handle_key_conflict upsert_company_identity_key upsert_key
    link_key refuse_key reject_source
upsert-tells_truth_example =
    upsert-tells_truth first (input cui "123" 2) split (conflict 2 1) refl refl
