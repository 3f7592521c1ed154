-- ===== src/Enrichment/ErrorTests.antt =====
-- Tests of the handler of failed jobs, and its theorem applied.
use cerniq_app_v.Prelude.{◌≡◌, refl, ℕ, [], ◌∷◌, map, true, false, ◌⊎◌, String}
use cerniq_app_v.Prelude.Rows.{update_where}
use cerniq_app_v.Enrichment.Errors.{
  ErrorJob, ErrorState, RecoveryAction, handled, foreign_key_violation, scheduled_replay,
  retry_exhausted_hitl, skip_source, alert_only, handle_error, recover, get_base_delay,
  map_error_severity, is_contact,
}
use cerniq_app_v.Enrichment.Errors.Recorded.{Records, handle_error-recorded}

abbrev job : String → ℕ → ErrorJob
job type retries = record {
  tenant_id = 7;
  company_id = 50;
  error_type = type;
  source_worker = "enrich:anaf:tva-status";
  job_id = "a1";
  retry_count = retries;
  max_retries = 3;
}

abbrev start : ErrorState
start = record { contacts = 50 ∷ []; errors = []; companies = []; tasks = []; replays = [] }

outcomes :
    map
      (λ j. (handle_error j start).0)
      (job "RATE_LIMITED" 2 ∷ job "RATE_LIMITED" 3 ∷ job "DATA_NOT_FOUND" 0 ∷ job "OTHER" 0 ∷ [])
    ≡ handled scheduled_replay
      ∷ handled retry_exhausted_hitl
      ∷ handled skip_source
      ∷ handled alert_only
      ∷ []
unfolding handle_error recover get_base_delay map_error_severity update_where
outcomes = refl

-- The id of a company of silver is none of a contact.
refused_company :
    (handle_error (record (job "RATE_LIMITED" 0) { company_id = 1 }) start).0
    ≡ foreign_key_violation
unfolding handle_error
refused_company = refl

handle_error-recorded_example :
    (is_contact 50 start.contacts ≡ true)
      × ((a : RecoveryAction) × ((handle_error (job "RATE_LIMITED" 2) start).0 ≡ handled a)
          × Records (job "RATE_LIMITED" 2) start (handle_error (job "RATE_LIMITED" 2) start).1 a)
    ⊎ (is_contact 50 start.contacts ≡ false)
      × (handle_error (job "RATE_LIMITED" 2) start ≡ (foreign_key_violation, start))
handle_error-recorded_example = handle_error-recorded (job "RATE_LIMITED" 2) start
