-- ===== src/Outreach/ClockTests.antt =====
-- The quota, the business hours and the sequences at concrete inputs. A time is a number of hours
-- counted from a Monday at 00:00 (Clock.antt).
use cerniq_app_v.Prelude.{
  ◌↔◌, ◌⊎◌, ℕ, ◌+◌, ◌%◌, ◌≤◌, ◌<◌, ◌≡◌, refl, List, [], ◌∷◌, true, false, none, some, ◌==◌,
  if◌then◌else◌, leb, find_by, arith,
}
use cerniq_app_v.Prelude.Int.{pos}
use cerniq_app_v.Outreach.Clock.{hours, hours-Laws}
use cerniq_app_v.Outreach.Quota.{
  QuotaKey, Redis, QuotaCheckJobData, execute_quota_check, get_usage, daily_quota_limit,
}
use cerniq_app_v.Outreach.Quota.Usage.{
  Admits, run_checks, admitted_contacts, execute_quota_check-allowed_iff, run_checks-usage,
}
use cerniq_app_v.Outreach.Quota.Persisted.{QuotaIncrementJobData}
use cerniq_app_v.Outreach.Resilience.{is_business_hours, get_next_business_slot}
use cerniq_app_v.Outreach.Resilience.Skip.{IsFirstFree, is_blocked_day}
use cerniq_app_v.Outreach.Resilience.Slots.{
  first_day, get_next_business_slot-first, SchedulerJobData, SchedulerResult, Queued, schedule_job,
}
use cerniq_app_v.Outreach.Resilience.Scheduler.{Lands, schedule_job-Lands}
use cerniq_app_v.Outreach.Resilience.Retry.{
  RetryJobData, rate_limited, client_error, network, exponential, failed, retry, retry_policies,
  orchestrate_retry, orchestrate_retry-failed_iff, orchestrate_retry-retry,
}
use cerniq_app_v.Outreach.Sequences
use cerniq_app_v.Outreach.Sequences.{
  Enrollment, Journey, StopJob, AdvanceJob, active, stopped, stop_sequence, advance,
  next_action_time,
}
use cerniq_app_v.Outreach.Sequences.Timing.{
  sent_hour, next_action_time-day, next_action_time-saturday,
}
use cerniq_app_v.Outreach.Sequences.Stopping.{NoneActive, stop_sequence-advance}

abbrev phone_day : QuotaKey
phone_day = record { phone_id = 8; date_iso = 20 }

abbrev almost_full : Redis
almost_full = record {
  counters = record { key = phone_day; usage = 199; expires_in = none } ∷ [];
  statuses = [];
}

abbrev contact : QuotaCheckJobData
contact = record { phone_id = 8; is_new_contact = true; date_iso = 20; current_hour = 10 }

execute_quota_check-allowed_iff_example :
    (((execute_quota_check contact almost_full).1.allowed ≡ true) → Admits contact almost_full)
    × (Admits contact almost_full → ((execute_quota_check contact almost_full).1.allowed ≡ true))
execute_quota_check-allowed_iff_example = execute_quota_check-allowed_iff contact almost_full

abbrev contacts : List QuotaCheckJobData
contacts = contact ∷ contact ∷ []

almost_full_le : get_usage phone_day almost_full.counters ≤ daily_quota_limit
unfolding get_usage
almost_full_le = omega arith

run_checks-usage_example :
    let (after, results) = run_checks contacts almost_full in
    (get_usage phone_day after.counters
      ≡ get_usage phone_day almost_full.counters + admitted_contacts phone_day results)
    × (get_usage phone_day after.counters ≤ daily_quota_limit)
run_checks-usage_example = run_checks-usage contacts phone_day almost_full almost_full_le

abbrev increments : List (ℕ × QuotaIncrementJobData)
increments =
    (1, record { key = phone_day; cost = 1; tenant_id = 1 })
    ∷ (2, record { key = phone_day; cost = 0; tenant_id = 1 })
    ∷ []

get_next_business_slot-first_example :
    (slot : ℕ) × (get_next_business_slot hours 116 ≡ some slot)
    × (is_business_hours hours slot ≡ true)
    × IsFirstFree hours hours-Laws (first_day hours hours-Laws 116) (hours-Laws.day slot)
get_next_business_slot-first_example = get_next_business_slot-first hours hours-Laws 116

abbrev message : SchedulerJobData
message = record { target_queue = "q:wa"; job_name = none; enforce_business_hours = none }

-- A message of a Friday at 20:00.
schedule_job-Lands_example :
    (queued : Queued) × (result : SchedulerResult ℕ) × (schedule_job hours 116 116 116 message
      ≡ some (queued, result))
    × (queued.queue ≡ message.target_queue)
    × Lands hours hours-Laws 116 116 116 message queued result
schedule_job-Lands_example = schedule_job-Lands hours hours-Laws 116 116 116 message

abbrev limited : RetryJobData
limited = record {
  original_queue = "q:wa";
  error_type = rate_limited;
  status_code = some 429;
  attempts_made = 0;
}

orchestrate_retry-failed_iff_example : (orchestrate_retry limited ≡ failed) ↔ (
    (limited.error_type ≡ client_error)
    ⊎ ((code : ℕ) × (limited.status_code ≡ some code) × (400 ≤ code) × (code < 500)))
orchestrate_retry-failed_iff_example = orchestrate_retry-failed_iff limited

abbrev offline : RetryJobData
offline = record {
  original_queue = "q:wa";
  error_type = network;
  status_code = none;
  attempts_made = 1;
}

offline-retry : orchestrate_retry offline ≡ retry "q:wa" 2000 2 (some (exponential 1000))
unfolding orchestrate_retry
offline-retry = refl

orchestrate_retry-retry_example :
    (offline.original_queue ≡ offline.original_queue)
    × (0 < 2)
    × (1 + 2 ≡ (retry_policies network).attempts)
    × (1000 ≤ 2000)
    × (2000 ≤ 60000)
orchestrate_retry-retry_example =
    orchestrate_retry-retry offline "q:wa" 2000 2 (some (exponential 1000)) offline-retry

early-kept : (t : ℕ) → hours.hour t < 9 → hours.hour (hours.plus_day t) < 9
early-kept t early = omega arith

-- A delay that is over on a Friday at 20:00.
next_action_time-day_example :
    (free at : ℕ) × (next_action_time hours true 116 ≡ some at)
    × IsFirstFree hours hours-Laws (hours-Laws.day 116) free
    × (hours-Laws.day at ≡ (if leb 18 (hours.hour 116) then free + 1 else free))
    × (hours.hour at ≡ sent_hour (hours.hour 116))
next_action_time-day_example = next_action_time-day hours hours-Laws 116 early-kept

is-friday : hours-Laws.day 116 % 7 ≡ 4
is-friday = refl

friday-free : is_blocked_day hours hours-Laws (hours-Laws.day 116) ≡ false
friday-free = refl

-- A delay that is over on a Friday at 20:00.
next_action_time-saturday_example :
    (at : ℕ) × (next_action_time hours true 116 ≡ some at)
    × (hours-Laws.day at ≡ hours-Laws.day 116 + 1)
    × (hours.weekday at ≡ 6)
next_action_time-saturday_example =
    next_action_time-saturday hours hours-Laws 116 is-friday friday-free (omega arith)

abbrev enrolled : Enrollment ℕ
enrolled = record {
  id = 2;
  tenant_id = 1;
  journey_id = 3;
  sequence_id = 6;
  status = active;
  current_step = 0;
  stopped_reason = none;
  enrolled_at = 5;
  completed_at = none;
  last_step_executed_at = none;
}

abbrev paused_journey : Journey ℕ
paused_journey = record {
  id = 3;
  lead_id = 30;
  current_sequence_id = some 6;
  sequence_step = pos 0;
  sequence_paused = false;
  next_action_at = some 50;
  updated_at = 5;
}

abbrev sequences : Sequences.Store ℕ
sequences = record {
  sequences = [];
  steps = [];
  enrollments = enrolled ∷ [];
  journeys = paused_journey ∷ [];
  advance_queue = [];
  schedule_queue = [];
  route_queue = [];
}

abbrev stop : StopJob
stop = record { journey_id = 3; reason = none }

abbrev queued : AdvanceJob
queued = record {
  tenant_id = 1;
  journey_id = 3;
  sequence_enrollment_id = 2;
  completed_step = pos 0;
}

abbrev halted : Enrollment ℕ
halted = record enrolled {
  status = stopped;
  stopped_reason = some "LEAD_REPLIED";
  last_step_executed_at = some 40;
}

halted-found : find_by (λ e. e.id == 2) (stop_sequence 40 stop sequences).enrollments ≡ some halted
unfolding stop_sequence
halted-found = refl

stop_sequence-advance_example :
    NoneActive 3 (stop_sequence 40 stop sequences)
    × (advance queued (stop_sequence 40 stop sequences) ≡ stop_sequence 40 stop sequences)
stop_sequence-advance_example =
    stop_sequence-advance 40 stop sequences queued halted halted-found refl
