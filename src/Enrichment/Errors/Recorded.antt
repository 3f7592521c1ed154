-- ===== src/Enrichment/Errors/Recorded.antt =====
-- What the handler leaves in `pipeline_errors`.
use mathlib.Core.List.{map-append}
use cerniq_app_v.Prelude.{
  ◌≡◌, refl, ap, ◌∙◌, inl, inr, Bool-cases, List, [], ◌∷◌, ◌++◌, true, false, not, filter_by, map,
  eq_iff, arith, ◌⊎◌,
}
use cerniq_app_v.Prelude.Rows.{update_where}
use cerniq_app_v.Enrichment.Errors.{
  ErrorJob, ErrorState, PipelineError, RecoveryAction, handled, foreign_key_violation, recover,
  handle_error, is_contact, is_of_job, new_error, map_error_severity,
}

recover-errors : (job : ErrorJob) (s : ErrorState) → (recover job s).1.errors ≡ s.errors
unfolding recover
recover-errors job s = ground arith

refused :
    (job : ErrorJob) (s : ErrorState)
    → is_contact job.company_id s.contacts ≡ false
    → handle_error job s ≡ (foreign_key_violation, s)
unfolding handle_error
refused job s e = rw (handle_error, e) refl

-- The rows of other jobs, and those of the job.
abbrev pub others : ErrorJob → List PipelineError → List PipelineError
others job rows = filter_by (λ e. not (is_of_job job e)) rows

abbrev pub own : ErrorJob → List PipelineError → List PipelineError
own job rows = filter_by (is_of_job job) rows

-- A row as it stands with the action.
abbrev pub with_action : RecoveryAction → PipelineError → PipelineError
with_action a e = record e { recovery_action = a }

module _ (job : ErrorJob) (a : RecoveryAction) where
  others-update_where :
      (rows : List PipelineError)
      → others job (update_where (is_of_job job) (with_action a) rows) ≡ others job rows
  unfolding update_where
  others-update_where [] = refl
  others-update_where (e ∷ rows) = ground (arith, others-update_where rows)

  own-update_where :
      (rows : List PipelineError)
      → own job (update_where (is_of_job job) (with_action a) rows)
        ≡ map (with_action a) (own job rows)
  unfolding update_where
  own-update_where [] = refl
  own-update_where (e ∷ rows) = ground (arith, own-update_where rows)

new_error-is_of_job : (job : ErrorJob) → is_of_job job (new_error job) ≡ true
new_error-is_of_job job =
    ground (arith, eq_iff job.source_worker job.source_worker, eq_iff job.job_id job.job_id)

own-append :
    (job : ErrorJob) (rows : List PipelineError)
    → own job (rows ++ (new_error job ∷ [])) ≡ own job rows ++ (new_error job ∷ [])
own-append job [] = ground (arith, new_error-is_of_job job)
own-append job (e ∷ rows) = ground (arith, own-append job rows)

others-append :
    (job : ErrorJob) (rows : List PipelineError)
    → others job (rows ++ (new_error job ∷ [])) ≡ others job rows
others-append job [] = ground (arith, new_error-is_of_job job)
others-append job (e ∷ rows) = ground (arith, others-append job rows)

-- What the handler leaves of the rows.
abbrev pub Records : ErrorJob → ErrorState → ErrorState → RecoveryAction → Type 0
Records job before after action =
    (others job after.errors ≡ others job before.errors)
    × (own job after.errors
        ≡ map (with_action action) (own job before.errors)
          ++ (record {
            tenant_id = job.tenant_id;
            worker_name = job.source_worker;
            job_id = job.job_id;
            entity_id = job.company_id;
            error_type = job.error_type;
            severity = map_error_severity job.error_type;
            recovery_action = action;
          }
              ∷ []))

handle_error-cases :
    (job : ErrorJob) (s : ErrorState)
    → is_contact job.company_id s.contacts ≡ true
    → (a : RecoveryAction) × ((handle_error job s).0 ≡ handled a)
      × Records job s (handle_error job s).1 a
unfolding handle_error
handle_error-cases job s there =
    let entered : ErrorState = record s { errors = s.errors ++ (new_error job ∷ []) } in
    let r = recover job entered in
    let kept = recover-errors job entered in
    rw (handle_error, there)
      (
        r.0,
        refl,
        (
          others-update_where job r.0 r.1.errors
              ∙ (ap (others job) kept ∙ others-append job s.errors),
          own-update_where job r.0 r.1.errors
              ∙ (ap (λ rows. map (with_action r.0) (own job rows)) kept
                  ∙ (ap (map (with_action r.0)) (own-append job s.errors)
                      ∙ map-append (with_action r.0) (own job s.errors) (new_error job ∷ []))),
        ),
      )

-- A failed job whose id is a contact's is handled with an action: one row is added with the job's
-- tenant, worker, id, entity and error type and the severity of the type; it and every earlier row
-- of the job show the action, and the rows of other jobs are as before. A job with another id is
-- refused by the foreign key, and nothing has changed.
pub handle_error-recorded :
    (job : ErrorJob) (s : ErrorState)
    → (is_contact job.company_id s.contacts ≡ true)
        × ((a : RecoveryAction) × ((handle_error job s).0 ≡ handled a)
            × Records job s (handle_error job s).1 a)
      ⊎ (is_contact job.company_id s.contacts ≡ false)
        × (handle_error job s ≡ (foreign_key_violation, s))
handle_error-recorded job s = elim (Bool-cases (is_contact job.company_id s.contacts)) [
  | inl e ↦ inl (e, handle_error-cases job s e)
  | inr e ↦ inr (e, refused job s e)
]
