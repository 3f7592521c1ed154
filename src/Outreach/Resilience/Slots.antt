-- ===== src/Outreach/Resilience/Slots.antt =====
-- The slot that a message is moved to, and the scheduler that moves it
-- (workers/outreach/src/workers/resilience.ts, createBusinessHoursSchedulerWorker).
use cerniq_app_v.Prelude.{
  sym, ℕ, ◌+◌, ◌-◌, ◌%◌, ◌≤◌, ◌<◌, Bool, true, false, not, ◌&&◌, ◌||◌, Option, none, some, String,
  ltb, leb, includes, if◌then◌else◌, ◌≡◌, refl, inl, inr, arith, Bool-cases, subst,
}
use cerniq_app_v.Outreach.Resilience.{
  start_hour, end_hour, romanian_holidays_2026, Calendar, Laws, is_business_hours, first_candidate,
  get_next_business_slot,
}
use cerniq_app_v.Outreach.Resilience.Skip.{
  IsFirstFree, is_blocked_day, skip_blocked-first, hour-skip_blocked,
}

pub record SchedulerJobData : Type 0 where
  pub target_queue : String
  pub job_name : Option String
  pub enforce_business_hours : Option Bool

pub record Queued : Type 0 where
  pub queue : String
  pub name : String
  pub delay : ℕ

pub record SchedulerResult (T : Type 0) : Type 0 where
  pub scheduled : Bool
  pub scheduled_at : Option T
  pub reason : Option String

abbrev pub or_true : Option Bool → Bool
or_true none = true
or_true (some b) = b

abbrev pub or_scheduled : Option String → String
or_scheduled none = "scheduled"
or_scheduled (some name) = name

module _ {T : Type 0} (calendar : Calendar T) where
  -- The processor, with the three times that its calls of the clock give: the test's, the
  -- slot's and the delay's. None only if the loop of the slot runs out of fuel.
  unfoldable pub schedule_job : T → T → T → SchedulerJobData → Option (Queued × SchedulerResult T)
  unfolding is_business_hours get_next_business_slot
  schedule_job test_now slot_now delay_now job =
      if or_true job.enforce_business_hours && not (is_business_hours calendar test_now)
      then elim (get_next_business_slot calendar slot_now) [
        | none ↦ none
        | some next_slot ↦ some (
          record {
            queue = job.target_queue;
            name = or_scheduled job.job_name;
            -- Math.max(delayMs, 0)
            delay = calendar.to_millis next_slot - calendar.to_millis delay_now;
          },
          record {
            scheduled = true;
            scheduled_at = some next_slot;
            reason = some "RESCHEDULED_OUTSIDE_BUSINESS_HOURS";
          },
        )
      ]
      else some (
        record { queue = job.target_queue; name = or_scheduled job.job_name; delay = 0 },
        record { scheduled = true; scheduled_at = none; reason = none },
      )

in-hours :
    (weekday hour : ℕ) (holiday : Bool)
    → ltb 5 weekday || holiday ≡ false
    → 9 ≤ hour
    → hour < 18
    → leb weekday 5 && not holiday && leb start_hour hour && ltb hour end_hour ≡ true
in-hours weekday hour holiday free late early = ground arith

module _ {T : Type 0} (calendar : Calendar T) (laws : Laws calendar) where
  -- The day from which the slot is sought.
  abbrev pub first_day : T → ℕ
  first_day now = if leb end_hour (calendar.hour now) then laws.day now + 1 else laws.day now

  candidate-hour :
      (now : T)
      → (9 ≤ calendar.hour (first_candidate calendar now))
        × (calendar.hour (first_candidate calendar now) < 18)
  unfolding first_candidate
  candidate-hour now = elim (Bool-cases (leb end_hour (calendar.hour now))) [
    | inl past ↦ rw (past, laws.hour-set_start) (ground arith, ground arith)
    | inr day ↦ elim (Bool-cases (ltb (calendar.hour now) start_hour)) [
      | inl early ↦ rw (day, early, laws.hour-set_start) (ground arith, ground arith)
      | inr due ↦ rw (day, due) (ground arith, ground arith)
    ]
  ]

  candidate-day : (now : T) → laws.day (first_candidate calendar now) ≡ first_day now
  unfolding first_candidate
  candidate-day now = elim (Bool-cases (leb end_hour (calendar.hour now))) [
    | inl past ↦ rw (past, laws.day-set_start, laws.day-plus_day) refl
    | inr day ↦ elim (Bool-cases (ltb (calendar.hour now) start_hour)) [
      | inl early ↦ rw (day, early, laws.day-set_start) refl
      | inr due ↦ rw (day, due) refl
    ]
  ]

  open-slot :
      (s : T)
      → is_blocked_day calendar laws (laws.day s) ≡ false
      → 9 ≤ calendar.hour s
      → calendar.hour s < 18
      → is_business_hours calendar s ≡ true
  unfolding is_business_hours
  open-slot s free late early =
      rw (is_business_hours, laws.to_iso_date_lem s, laws.weekday_lem s)
        (in-hours (laws.day s % 7 + 1) (calendar.hour s)
          (includes (laws.iso_of (laws.day s)) romanian_holidays_2026) free late early)

  -- On a calendar with luxon's laws
  -- `getNextBusinessSlot` ends, whatever the time: its slot is in business hours, on the first day
  -- that is neither a weekend's nor a holiday, counted from today, or from tomorrow if it is 18:00
  -- or later.
  pub get_next_business_slot-first :
      (now : T)
      → (slot : T) × (get_next_business_slot calendar now ≡ some slot)
        × (is_business_hours calendar slot ≡ true)
        × IsFirstFree calendar laws (first_day now) (laws.day slot)
  unfolding get_next_business_slot
  get_next_business_slot-first now =
      let (late, early) = candidate-hour now in
      let (s, is, first) = skip_blocked-first calendar laws (first_candidate calendar now) in
      let same = hour-skip_blocked calendar laws (first_candidate calendar now) s is late in
      (
        s,
        is,
        open-slot s first.2 (subst (λ h. 9 ≤ h) (sym same) late)
            (subst (λ h. h < 18) (sym same) early),
        subst (λ d. IsFirstFree calendar laws d (laws.day s)) (candidate-day now) first,
      )
