-- ===== src/Outreach/Sequences/Stopping.antt =====
-- What `sequence:stop` promises to the workers that run after it.
use cerniq_app_v.Prelude.{
  ℕ, List, [], ◌∷◌, true, false, not, ◌&&◌, some, ◌==◌, find_by, every, ◌≡◌, refl, inl, inr,
  Option-cases, arith,
}
use cerniq_app_v.Prelude.Rows.{update_where}
use cerniq_app_v.Outreach.Sequences.{
  Enrollment, Store, StopJob, AdvanceJob, is_active, stopped, or_reason, stop_sequence, advance,
}

-- No enrolment of a journey is active.
abbrev pub NoneActive : {T : Type 0} → ℕ → Store T → Type 0
NoneActive k store =
    every (λ e. not (e.journey_id == k && is_active e.status)) store.enrollments ≡ true

stopped-every :
    {T : Type 0} (now : T) (job : StopJob) (es : List (Enrollment T))
    → every
        (λ e. not (e.journey_id == job.journey_id && is_active e.status))
        (update_where
          (λ e. e.journey_id == job.journey_id && is_active e.status)
          (λ e. record e {
            status = stopped;
            stopped_reason = some (or_reason job.reason);
            last_step_executed_at = some now;
          })
          es)
      ≡ true
unfolding update_where
stopped-every now job [] = refl
stopped-every now job (e ∷ es) = ground (arith, stopped-every now job es)

inactive-found :
    {T : Type 0} (k enrollment_id : ℕ) (es : List (Enrollment T)) (e : Enrollment T)
    → every (λ i. not (i.journey_id == k && is_active i.status)) es ≡ true
    → find_by (λ i. i.id == enrollment_id) es ≡ some e
    → e.journey_id ≡ k
    → is_active e.status ≡ false
inactive-found k enrollment_id [] e none_active found same = absurd (ground arith)
inactive-found k enrollment_id (i ∷ es) e none_active found same =
    ground (arith, inactive-found k enrollment_id es e)

advance-inactive :
    {T : Type 0} (next : AdvanceJob) (store : Store T) (e : Enrollment T)
    → find_by (λ i. i.id == next.sequence_enrollment_id) store.enrollments ≡ some e
    → is_active e.status ≡ false
    → advance next store ≡ store
unfolding advance
advance-inactive next store e found inactive =
    elim (Option-cases (find_by (λ j. j.id == next.journey_id) store.journeys)) [
      | inl none_found ↦ rw (advance, found, none_found) refl
      | inr (j, is) ↦ rw (advance, found, is, inactive) refl
    ]

-- After a stop no enrolment of the journey is active, and an advance job of one of them, already
-- queued when the stop came, sends nothing and changes nothing.
pub stop_sequence-advance :
    {T : Type 0} (now : T) (job : StopJob) (store : Store T) (next : AdvanceJob) (e : Enrollment T)
    → find_by (λ i. i.id == next.sequence_enrollment_id) (stop_sequence now job store).enrollments
      ≡ some e
    → e.journey_id ≡ job.journey_id
    → NoneActive job.journey_id (stop_sequence now job store)
      × (advance next (stop_sequence now job store) ≡ stop_sequence now job store)
unfolding stop_sequence
stop_sequence-advance now job store next e found same = (
  stopped-every now job store.enrollments,
  advance-inactive next (stop_sequence now job store) e found (
      inactive-found job.journey_id next.sequence_enrollment_id
        (stop_sequence now job store).enrollments e (stopped-every now job store.enrollments) found
        same),
)
