-- ===== src/Enrichment/Errors.antt =====
-- The handler of failed pipeline jobs (workers/enrichment/src/workers/p4-error-handler.ts). The
-- payload of the failed job, which a replay passes on, and the metadata of a company are left out.
pub mod Recorded
use cerniq_app_v.Prelude.{
  ℕ, ◌*◌, ◌^◌, min, List, [], ◌∷◌, ◌++◌, Bool, true, false, ◌&&◌, ◌||◌, Option, none, some, String,
  ◌==◌, ltb, str_eq, if◌then◌else◌,
}
use cerniq_app_v.Prelude.Rows.{update_where}

pub data Severity : Type 0 where
  critical error warning : Severity

pub data RecoveryAction : Type 0 where
  pending scheduled_replay retry_exhausted_hitl alert_credentials hitl_review skip_source blocked
        alert_only :
      RecoveryAction

-- `ErrorHandlerJobData`, with `job_id` for the id of the failed job or else of this one.
pub record ErrorJob : Type 0 where
  pub tenant_id : ℕ
  pub company_id : ℕ
  pub error_type : String
  pub source_worker : String
  pub job_id : String
  pub retry_count : ℕ
  pub max_retries : ℕ

-- A row of `pipeline_errors`.
pub record PipelineError : Type 0 where
  pub tenant_id : ℕ
  pub worker_name : String
  pub job_id : String
  pub entity_id : ℕ
  pub error_type : String
  pub severity : Severity
  pub recovery_action : RecoveryAction

pub record PipelineCompany : Type 0 where
  pub id : ℕ
  pub has_failed : Bool
  pub is_promotion_blocked : Bool
  pub has_enrichment_errors : Bool

pub record ReviewTask : Type 0 where
  pub entity_id : ℕ
  pub is_quality_review : Bool
  pub is_critical : Bool
  pub expires_in_hours : ℕ

pub record Replay : Type 0 where
  pub queue : String
  pub company_id : ℕ
  pub delay_ms : ℕ
  pub attempts : ℕ

-- `contacts` are the ids of the bronze contacts.
pub record ErrorState : Type 0 where
  pub contacts : List ℕ
  pub errors : List PipelineError
  pub companies : List PipelineCompany
  pub tasks : List ReviewTask
  pub replays : List Replay

pub data Handled : Type 0 where
  handled : RecoveryAction → Handled
  foreign_key_violation : Handled

unfoldable pub map_error_severity : String → Severity
map_error_severity type =
    if str_eq type "PERMANENT_FAILURE" || str_eq type "AUTH_ERROR"
    then critical
    else (if str_eq type "DATA_NOT_FOUND" || str_eq type "QUOTA_EXCEEDED" then warning else error)

unfoldable pub get_base_delay : String → ℕ
get_base_delay type =
    if str_eq type "RATE_LIMITED" || str_eq type "QUOTA_EXCEEDED"
    then 60000
    else (if str_eq type "CIRCUIT_OPEN" then 120000 else 30000)

abbrev pub is_transient : String → Bool
is_transient type =
    str_eq type "API_TIMEOUT"
    || str_eq type "NETWORK_ERROR"
    || str_eq type "RATE_LIMITED"
    || str_eq type "QUOTA_EXCEEDED"
    || str_eq type "CIRCUIT_OPEN"

abbrev pub review : ErrorJob → Bool → Bool → ℕ → ErrorState → ErrorState
review job is_quality_review is_critical hours s = record s {
  tasks =
      record {
        entity_id = job.company_id;
        is_quality_review = is_quality_review;
        is_critical = is_critical;
        expires_in_hours = hours;
      }
      ∷ s.tasks;
}

abbrev pub schedule : ErrorJob → ErrorState → ErrorState
schedule job s = record s {
  replays =
      record {
        queue = job.source_worker;
        company_id = job.company_id;
        delay_ms = min 600000 (get_base_delay job.error_type * 2 ^ job.retry_count);
        attempts = job.max_retries;
      }
      ∷ s.replays;
}

abbrev pub change_company : ErrorJob → (PipelineCompany → PipelineCompany) → ErrorState → ErrorState
change_company job f s = record s {
  companies = update_where (λ (c : PipelineCompany). c.id == job.company_id) f s.companies;
}

-- The `switch`: the action, and what it does.
unfoldable pub recover : ErrorJob → ErrorState → RecoveryAction × ErrorState
unfolding get_base_delay update_where
recover job s =
    if is_transient job.error_type
    then (if ltb job.retry_count job.max_retries
        then (scheduled_replay, schedule job s)
        else (retry_exhausted_hitl, review job false false 12 s))
    else (if str_eq job.error_type "AUTH_ERROR"
        then (alert_credentials, review job false true 4 s)
        else (if str_eq job.error_type "VALIDATION_ERROR"
            then (hitl_review, review job true false 12 s)
            else (if str_eq job.error_type "DATA_NOT_FOUND"
                then (
                  skip_source,
                  change_company job (λ c. record c { has_enrichment_errors = true }) s,
                )
                else (if str_eq job.error_type "PERMANENT_FAILURE"
                    then (
                      blocked,
                      change_company job
                          (λ c. record c { has_failed = true; is_promotion_blocked = true }) s,
                    )
                    else (alert_only, s)))))

abbrev pub is_contact : ℕ → List ℕ → Bool
is_contact id [] = false
is_contact id (c ∷ cs) = c == id || is_contact id cs

abbrev pub new_error : ErrorJob → PipelineError
new_error job = record {
  tenant_id = job.tenant_id;
  worker_name = job.source_worker;
  job_id = job.job_id;
  entity_id = job.company_id;
  error_type = job.error_type;
  severity = map_error_severity job.error_type;
  recovery_action = pending;
}

-- The row stands for the failed job.
abbrev pub is_of_job : ErrorJob → PipelineError → Bool
is_of_job job e =
    e.tenant_id == job.tenant_id
    && str_eq e.worker_name job.source_worker
    && str_eq e.job_id job.job_id

-- The insert is refused for an entity that is no contact: `entity_id` refers to bronze_contacts.
unfoldable pub handle_error : ErrorJob → ErrorState → Handled × ErrorState
unfolding recover map_error_severity update_where
handle_error job s =
    if is_contact job.company_id s.contacts
    then (let r = recover job (record s { errors = s.errors ++ (new_error job ∷ []) }) in
        (
          handled r.0,
          record r.1 {
            errors =
                update_where (is_of_job job)
                  (λ (e : PipelineError). record e { recovery_action = r.0 }) r.1.errors;
          },
        ))
    else (foreign_key_violation, s)
