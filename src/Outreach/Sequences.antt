-- ===== src/Outreach/Sequences.antt =====
-- workers/outreach/src/workers/sequences.ts: the enrolments of leads in sequences of messages.
-- The tables and the queues are one store; ids are numbers, a time is luxon's (Resilience.antt).
-- A first step is -1, so steps are integers.
pub mod Timing
pub mod Stopping
use cerniq_app_v.Prelude.{
  ℕ, ◌-◌, List, [], ◌∷◌, ◌++◌, Bool, true, false, ◌&&◌, Option, none, some, String, ◌==◌, leb, ltb,
  str_eq, if◌then◌else◌, find_by,
}
use cerniq_app_v.Prelude.Int.{ℤ, pos, negsuc, succ_ℤ}
use cerniq_app_v.Prelude.Rows.{update_where}
use cerniq_app_v.Outreach.Resilience.{start_hour, end_hour, Calendar, skip_fuel, skip_blocked}

abbrev pub same_step : ℤ → ℤ → Bool
same_step (pos a) (pos b) = a == b
same_step (negsuc a) (negsuc b) = a == b
same_step (pos a) (negsuc b) = false
same_step (negsuc a) (pos b) = false

-- The status of an enrolment.
pub data EnrollmentStatus : Type 0 where
  active paused completed stopped : EnrollmentStatus

abbrev pub is_active : EnrollmentStatus → Bool
is_active active = true
is_active paused = false
is_active completed = false
is_active stopped = false

pub record Sequence : Type 0 where
  pub id : ℕ
  pub respect_business_hours : Bool

pub record SequenceStep : Type 0 where
  pub sequence_id : ℕ
  pub step_number : ℤ
  pub delay_hours : Option ℕ
  pub delay_minutes : Option ℕ
  pub channel : String

pub record Enrollment (T : Type 0) : Type 0 where
  pub id : ℕ
  pub tenant_id : ℕ
  pub journey_id : ℕ
  pub sequence_id : ℕ
  pub status : EnrollmentStatus
  pub current_step : ℕ
  pub stopped_reason : Option String
  pub enrolled_at : T
  pub completed_at : Option T
  pub last_step_executed_at : Option T

pub record Journey (T : Type 0) : Type 0 where
  pub id : ℕ
  pub lead_id : ℕ
  pub current_sequence_id : Option ℕ
  pub sequence_step : ℤ
  pub sequence_paused : Bool
  pub next_action_at : Option T
  pub updated_at : T

pub record ScheduleJob : Type 0 where
  pub tenant_id : ℕ
  pub lead_id : ℕ
  pub journey_id : ℕ
  pub sequence_id : ℕ
  pub sequence_enrollment_id : ℕ
  pub current_step : ℤ

pub record AdvanceJob : Type 0 where
  pub tenant_id : ℕ
  pub journey_id : ℕ
  pub sequence_enrollment_id : ℕ
  pub completed_step : ℤ

-- A job of the channel selector.
pub record RouteJob : Type 0 where
  pub tenant_id : ℕ
  pub journey_id : ℕ
  pub lead_id : ℕ
  pub is_followup : Bool

pub record Store (T : Type 0) : Type 0 where
  pub sequences : List Sequence
  pub steps : List SequenceStep
  pub enrollments : List (Enrollment T)
  pub journeys : List (Journey T)
  -- with the delay of each
  pub advance_queue : List (AdvanceJob × ℕ)
  pub schedule_queue : List ScheduleJob
  pub route_queue : List RouteJob

pub data ScheduleResult (T : Type 0) : Type 0 where
  sequence_not_found sequence_complete : ScheduleResult T
  scheduled : (next_step : ℤ) → (scheduled_at : T) → (channel : String) → ScheduleResult T

pub record StopJob : Type 0 where
  pub journey_id : ℕ
  pub reason : Option String

pub record CreateJob (T : Type 0) : Type 0 where
  pub tenant_id : ℕ
  pub lead_id : ℕ
  pub journey_id : ℕ
  pub sequence_id : ℕ
  pub start_at : Option T

abbrev pub or_nat : ℕ → Option ℕ → ℕ
or_nat d none = d
or_nat d (some n) = n

abbrev pub or_reason : Option String → String
or_reason none = "LEAD_REPLIED"
or_reason (some r) = r

module _ {T : Type 0} (calendar : Calendar T) where
  -- "Ensure within business hours (09-18)"
  unfoldable pub into_hours : T → T
  into_hours t =
      if ltb (calendar.hour t) start_hour
      then calendar.set_start_minute t
      else if leb end_hour (calendar.hour t)
      then calendar.set_start_minute (calendar.plus_day t)
      else t

  -- The time of the next action, from the time at which its delay is over. None only if the loop
  -- runs out of fuel.
  unfoldable pub next_action_time : Bool → T → Option T
  unfolding skip_blocked into_hours
  next_action_time respect_business_hours due =
      if respect_business_hours
      then elim (skip_blocked calendar skip_fuel due) [ none ↦ none | some t ↦ some (into_hours t) ]
      else some due

  unfoldable pub schedule_at : T → ScheduleJob → SequenceStep → T → Store T → Store T
  unfolding update_where
  schedule_at now job step next_action_at store = record store {
    journeys =
        update_where (λ j. j.id == job.journey_id)
          (λ j. record j {
            next_action_at = some next_action_at;
            sequence_step = succ_ℤ job.current_step;
            updated_at = now;
          })
          store.journeys;
    advance_queue =
        store.advance_queue
        ++ ((
          record {
            tenant_id = job.tenant_id;
            journey_id = job.journey_id;
            sequence_enrollment_id = job.sequence_enrollment_id;
            completed_step = job.current_step;
          },
          calendar.to_millis next_action_at - calendar.to_millis now,
        )
            ∷ []);
  }

  unfoldable pub complete : T → ℕ → Store T → Store T
  unfolding update_where
  complete now enrollment_id store = record store {
    enrollments =
        update_where (λ e. e.id == enrollment_id)
          (λ e. record e { status = completed; completed_at = some now }) store.enrollments;
  }

  -- The processor of `sequence:schedule:followup`, at one reading of the clock.
  unfoldable pub schedule_followup : T → ScheduleJob → Store T → Option (Store T × ScheduleResult T)
  unfolding next_action_time schedule_at complete
  schedule_followup now job store = elim (find_by (λ s. s.id == job.sequence_id) store.sequences) [
    | none ↦ some (store, sequence_not_found)
    | some seq ↦
        elim (find_by
          (λ s.
            s.sequence_id == job.sequence_id && same_step s.step_number (succ_ℤ job.current_step))
          store.steps) [
            | none ↦ some (complete now job.sequence_enrollment_id store, sequence_complete)
            | some step ↦
                elim (next_action_time seq.respect_business_hours (
                  calendar.plus_time (or_nat 24 step.delay_hours) (or_nat 0 step.delay_minutes)
                    now)) [
                      | none ↦ none
                      | some at ↦ some (
                        schedule_at now job step at store,
                        scheduled (succ_ℤ job.current_step) at step.channel,
                      )
                    ]
          ]
  ]

-- The processor of `sequence:stop`.
unfoldable pub stop_sequence : {T : Type 0} → T → StopJob → Store T → Store T
unfolding update_where
stop_sequence now job store = record store {
  enrollments =
      update_where (λ e. e.journey_id == job.journey_id && is_active e.status)
        (λ e. record e {
          status = stopped;
          stopped_reason = some (or_reason job.reason);
          last_step_executed_at = some now;
        })
        store.enrollments;
  journeys =
      update_where (λ j. j.id == job.journey_id)
        (λ j. record j { next_action_at = none; sequence_paused = true; updated_at = now })
        store.journeys;
}

-- The processor of `sequence:advance`.
unfoldable pub advance : {T : Type 0} → AdvanceJob → Store T → Store T
advance job store = elim (find_by (λ e. e.id == job.sequence_enrollment_id) store.enrollments) [
  | none ↦ store
  | some e ↦ elim (find_by (λ j. j.id == job.journey_id) store.journeys) [
    | none ↦ store
    | some j ↦
        if is_active e.status
        then record store {
          route_queue =
              store.route_queue
              ++ (record {
                tenant_id = job.tenant_id;
                journey_id = job.journey_id;
                lead_id = j.lead_id;
                is_followup = true;
              }
                  ∷ []);
        }
        else store
  ]
]

abbrev pub or_now : {T : Type 0} → T → Option T → T
or_now now none = now
or_now now (some t) = t

-- The processor of `sequence:create`, with the id that uuid gives.
unfoldable pub create_enrollment : {T : Type 0} → T → ℕ → CreateJob T → Store T → Store T
unfolding update_where
create_enrollment now enrollment_id job store = record store {
  enrollments =
      store.enrollments
      ++ (record {
        id = enrollment_id;
        tenant_id = job.tenant_id;
        journey_id = job.journey_id;
        sequence_id = job.sequence_id;
        status = active;
        current_step = 0;
        stopped_reason = none;
        enrolled_at = or_now now job.start_at;
        completed_at = none;
        last_step_executed_at = none;
      }
          ∷ []);
  journeys =
      update_where (λ j. j.id == job.journey_id)
        (λ j. record j {
          current_sequence_id = some job.sequence_id;
          sequence_step = pos 0;
          sequence_paused = false;
          updated_at = now;
        })
        store.journeys;
  schedule_queue =
      store.schedule_queue
      ++ (record {
        tenant_id = job.tenant_id;
        lead_id = job.lead_id;
        journey_id = job.journey_id;
        sequence_id = job.sequence_id;
        sequence_enrollment_id = enrollment_id;
        current_step = negsuc 0;
      }
          ∷ []);
}
