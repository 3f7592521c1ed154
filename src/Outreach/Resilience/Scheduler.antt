-- ===== src/Outreach/Resilience/Scheduler.antt =====
-- What the scheduler promises (workers/outreach/src/workers/resilience.ts,
-- createBusinessHoursSchedulerWorker).
use cerniq_app_v.Prelude.{
  ℕ, ◌+◌, ◌-◌, ◌≤◌, Bool, true, false, not, ◌&&◌, none, some, leb, ◌≡◌, refl, ◌⊎◌, inl, inr, arith,
  Bool-cases,
}
use cerniq_app_v.Outreach.Resilience.{Calendar, Laws, is_business_hours}
use cerniq_app_v.Outreach.Resilience.Skip.{IsFirstFree}
use cerniq_app_v.Outreach.Resilience.Slots.{
  SchedulerJobData, SchedulerResult, Queued, or_true, or_scheduled, schedule_job,
  get_next_business_slot-first, first_day,
}

abbrev queued_for : SchedulerJobData → ℕ → Queued
queued_for job delay = record {
  queue = job.target_queue;
  name = or_scheduled job.job_name;
  delay = delay;
}

abbrev sent : {T : Type 0} → SchedulerResult T
sent = record { scheduled = true; scheduled_at = none; reason = none }

abbrev moved_to : {T : Type 0} → T → SchedulerResult T
moved_to slot = record {
  scheduled = true;
  scheduled_at = some slot;
  reason = some "RESCHEDULED_OUTSIDE_BUSINESS_HOURS";
}

until-slot : (slot now : ℕ) → (now + (slot - now) ≡ slot) ⊎ (slot ≤ now) × (slot - now ≡ 0)
until-slot slot now = elim (Bool-cases (leb slot now)) [
  | inl past ↦ inr (ground arith, ground arith)
  | inr later ↦ inl (ground arith)
]

open-now : (asks hours : Bool) → (asks && not hours) ≡ false → (hours ≡ true) ⊎ (asks ≡ false)
open-now asks hours h = ground arith

module _ {T : Type 0} (calendar : Calendar T) (laws : Laws calendar) where
  -- Either the job is queued at once, which happens only in business hours or when it does not ask
  -- for them, or its delay ends exactly at the slot that is sought from now on and is reported,
  -- which lies in business hours on the first free day; a slot that is past has no delay.
  abbrev pub Lands : T → T → T → SchedulerJobData → Queued → SchedulerResult T → Type 0
  Lands test_now slot_now delay_now job queued result =
      (queued.delay ≡ 0)
        × (result.scheduled_at ≡ none)
        × ((is_business_hours calendar test_now ≡ true)
            ⊎ (or_true job.enforce_business_hours ≡ false))
      ⊎ ((slot : T) × (result.scheduled_at ≡ some slot)
          × (is_business_hours calendar slot ≡ true)
          × IsFirstFree calendar laws (first_day calendar laws slot_now) (laws.day slot)
          × ((calendar.to_millis delay_now + queued.delay ≡ calendar.to_millis slot)
              ⊎ (calendar.to_millis slot ≤ calendar.to_millis delay_now) × (queued.delay ≡ 0)))

  -- On a calendar with luxon's laws
  -- the scheduler always queues the job on its target queue: at once only in business hours or when
  -- the job does not ask for them, and else with a delay that ends exactly at the slot it reports,
  -- or with none if that is past when the delay is computed. The slot is in business hours, on the
  -- first free day from the day of the clock's second reading, or from the next one if that reading
  -- is at 18:00 or later.
  pub schedule_job-Lands :
      (test_now slot_now delay_now : T) (job : SchedulerJobData)
      → (queued : Queued) × (result : SchedulerResult T) × (schedule_job calendar test_now slot_now
            delay_now job
          ≡ some (queued, result))
        × (queued.queue ≡ job.target_queue)
        × Lands test_now slot_now delay_now job queued result
  unfolding schedule_job
  schedule_job-Lands test_now slot_now delay_now job =
      let (slot, is, hours, first) = get_next_business_slot-first calendar laws slot_now in
      elim (Bool-cases
        (or_true job.enforce_business_hours && not (is_business_hours calendar test_now))) [
          | inl later ↦
              let delay = calendar.to_millis slot - calendar.to_millis delay_now in
              (
                queued_for job delay,
                moved_to slot,
                rw (later, is) refl,
                refl,
                inr (
                  slot,
                  refl,
                  hours,
                  first,
                  until-slot (calendar.to_millis slot) (calendar.to_millis delay_now),
                ),
              )
          | inr at_once ↦ (
            queued_for job 0,
            sent,
            rw at_once refl,
            refl,
            inl (
              refl,
              refl,
              open-now (or_true job.enforce_business_hours) (is_business_hours calendar test_now)
                  at_once,
            ),
          )
        ]
