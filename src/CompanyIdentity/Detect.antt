-- ===== src/CompanyIdentity/Detect.antt =====
-- Which company a contact names: the `mark…` functions, `tryAutoMergeNrRegComConflict` and
-- `detectSingleCompanyId`.
use cerniq_app_v.Prelude.{
  ℕ, List, [], ◌∷◌, map, true, false, not, ◌&&◌, Option, none, some, ◌==◌, ltb, if◌then◌else◌,
  find_by, length,
}
use cerniq_app_v.CompanyIdentity.Model.{
  IdentityKey, BronzeContact, Context, Resolution, BronzeIdentityStatus, ProcessingStatus, is_given,
  or_else,
}
use cerniq_app_v.CompanyIdentity.Action.{Action, pure, ◌>>=◌, ◌>>◌, gets}
use cerniq_app_v.CompanyIdentity.Keys.{
  BronzeUpdate, find_identity_matches, find_legacy_silver_company_matches, distinct,
  update_bronze_resolution,
}
use cerniq_app_v.CompanyIdentity.Merge.{
  try_auto_merge_from_registry_matches, try_auto_merge_from_legacy_matches,
}

unfoldable pub mark_duplicate_source_bronze : Context → BronzeContact → Action Resolution
unfolding update_bronze_resolution
mark_duplicate_source_bronze context duplicate = do
  update_bronze_resolution (record {
    bronze_id = context.bronze_id;
    identity_status = BronzeIdentityStatus.duplicate_source;
    resolved_company_id = duplicate.resolved_company_id;
    duplicate_of_id = some duplicate.id;
    is_duplicate = true;
    do_not_process = true;
    processing_status = ProcessingStatus.rejected;
  })
  pure (Resolution.duplicate_source duplicate.resolved_company_id duplicate.id)

-- A contact that is not resolved.
abbrev pub rejection : Context → BronzeIdentityStatus → BronzeUpdate
rejection context status = record {
  bronze_id = context.bronze_id;
  identity_status = status;
  resolved_company_id = none;
  duplicate_of_id = none;
  is_duplicate = false;
  do_not_process = true;
  processing_status = ProcessingStatus.rejected;
}

unfoldable pub mark_insufficient_identity_bronze : Context → Action Resolution
unfolding update_bronze_resolution
mark_insufficient_identity_bronze context = do
  update_bronze_resolution (rejection context BronzeIdentityStatus.insufficient_identifiers)
  pure Resolution.insufficient_identifiers

unfoldable pub mark_identity_conflict_bronze : Context → List ℕ → Action Resolution
unfolding update_bronze_resolution
mark_identity_conflict_bronze context conflict_company_ids = do
  update_bronze_resolution (rejection context BronzeIdentityStatus.identity_conflict)
  pure (Resolution.identity_conflict conflict_company_ids)

-- `DetectCompanyResult`
pub data Detected : Type 0 where
  halted : Resolution → Detected
  found : Option ℕ → Detected

-- The merged company, or the conflict between the companies.
unfoldable pub merged_or_conflict : Context → List ℕ → Option ℕ → Action Detected
unfolding mark_identity_conflict_bronze
merged_or_conflict context ids (some merged) = pure (found (some merged))
merged_or_conflict context ids none =
    mark_identity_conflict_bronze context ids >>= λ r. pure (halted r)

abbrev pub head : List ℕ → Option ℕ
head [] = none
head (x ∷ xs) = some x

-- The company of the registry and another that holds the trade register number, if there is one.
unfoldable pub merge_with : ℕ → ℕ → Context → Option ℕ → Action (Option Detected)
unfolding try_auto_merge_from_legacy_matches merged_or_conflict
merge_with tenant registry context none = pure none
merge_with tenant registry context (some other) =
    try_auto_merge_from_legacy_matches tenant (registry ∷ other ∷ []) context.extracted_cui
      context.extracted_nr_reg_com
    >>= λ merged. merged_or_conflict context (registry ∷ other ∷ []) merged >>= λ d. pure (some d)

unfoldable pub try_auto_merge_nr_reg_com_conflict : ℕ → ℕ → Context → Action (Option Detected)
unfolding merge_with find_legacy_silver_company_matches
try_auto_merge_nr_reg_com_conflict tenant registry context =
    if is_given context.extracted_cui && is_given context.extracted_nr_reg_com
    then (gets (λ db.
          find_by (λ id. not (id == registry))
            (find_legacy_silver_company_matches tenant none context.extracted_nr_reg_com
              db.companies))
        >>= λ conflicting. merge_with tenant registry context conflicting)
    else pure none

-- With no match in the registry: the columns of the companies themselves.
unfoldable pub detect_by_columns : ℕ → Context → BronzeContact → Action Detected
unfolding try_auto_merge_from_legacy_matches merged_or_conflict find_legacy_silver_company_matches
detect_by_columns tenant context bronze =
    gets (λ db.
      find_legacy_silver_company_matches tenant context.extracted_cui context.extracted_nr_reg_com
        db.companies)
    >>= λ legacy_ids.
        if ltb 1 (length legacy_ids)
        then (try_auto_merge_from_legacy_matches tenant legacy_ids context.extracted_cui
              context.extracted_nr_reg_com
            >>= λ merged. merged_or_conflict context legacy_ids merged)
        else pure (
            found (
              or_else (head legacy_ids)
                (or_else bronze.resolved_company_id bronze.promoted_to_silver_id)))

abbrev pub or_found : ℕ → Option Detected → Detected
or_found registry none = found (some registry)
or_found registry (some d) = d

-- By the companies that the registry gives for the contact's identifiers.
unfoldable pub detect_by_registry :
    ℕ → Context → BronzeContact → List IdentityKey → List ℕ → Action Detected
unfolding detect_by_columns try_auto_merge_nr_reg_com_conflict try_auto_merge_from_registry_matches
    merged_or_conflict
detect_by_registry tenant context bronze matches [] = detect_by_columns tenant context bronze
detect_by_registry tenant context bronze matches (registry ∷ []) =
    try_auto_merge_nr_reg_com_conflict tenant registry context >>= λ result.
    pure (or_found registry result)
detect_by_registry tenant context bronze matches (a ∷ b ∷ ids) =
    try_auto_merge_from_registry_matches tenant matches context.extracted_cui
      context.extracted_nr_reg_com
    >>= λ merged. merged_or_conflict context (a ∷ b ∷ ids) merged

unfoldable pub detect_single_company_id : ℕ → Context → BronzeContact → Action Detected
unfolding detect_by_registry find_identity_matches distinct
detect_single_company_id tenant context bronze =
    gets (λ db.
      find_identity_matches tenant context.extracted_cui context.extracted_nr_reg_com db.keys)
    >>= λ matches.
        detect_by_registry tenant context bronze matches
          (distinct (map (λ (k : IdentityKey). k.company_id) matches))
