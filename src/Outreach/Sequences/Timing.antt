-- ===== src/Outreach/Sequences/Timing.antt =====
-- When a follow-up goes out.
use mathlib.Core.Option.{some-injective}
use cerniq_app_v.Prelude.{
  inl, inr, ℕ, ◌+◌, ◌%◌, ◌≤◌, ◌<◌, true, false, some, leb, ltb, if◌then◌else◌, ◌≡◌, refl, ap, ◌∙◌,
  subst, zero, suc, ◌&&◌, arith, Bool-cases,
}
use cerniq_app_v.Outreach.Resilience.{
  start_hour, end_hour, Calendar, Laws, is_blocked, skip_blocked, skip_fuel,
}
use cerniq_app_v.Outreach.Resilience.Skip.{
  IsFirstFree, is_blocked_day, skip-stays, skip_blocked-first, hour-skip_blocked,
}
use cerniq_app_v.Outreach.Sequences.{into_hours, next_action_time}

before-test : (hour d : ℕ) → hour < 18 → d ≡ (if leb end_hour hour then d + 1 else d)
before-test hour d early = ground arith

late-tests : (hour : ℕ) → 18 ≤ hour → (ltb hour 9 ≡ false) × (leb 18 hour ≡ true)
late-tests hour late = (ground arith, ground arith)

saturday : (d : ℕ) → d % 7 ≡ 4 → (d + 1) % 7 + 1 ≡ 6
saturday d friday = ground arith

-- The hour itself in business hours, else 9.
abbrev pub sent_hour : ℕ → ℕ
sent_hour h = if leb 9 h && ltb h 18 then h else 9

module _ {T : Type 0} (calendar : Calendar T) (laws : Laws calendar) where
  into_hours-hour : (t : T) → calendar.hour (into_hours calendar t) ≡ sent_hour (calendar.hour t)
  unfolding into_hours
  into_hours-hour t = elim (Bool-cases (ltb (calendar.hour t) start_hour)) [
    | inl early ↦ rw (early, laws.hour-set_start_minute) (ground arith)
    | inr due ↦ elim (Bool-cases (leb end_hour (calendar.hour t))) [
      | inl late ↦ rw (due, late, laws.hour-set_start_minute) (ground arith)
      | inr day ↦ rw (due, day) (ground arith)
    ]
  ]

  before-end :
      (t : T) {d : ℕ}
      → calendar.hour t < 18
      → d ≡ laws.day t
      → d ≡ (if leb end_hour (calendar.hour t) then laws.day t + 1 else laws.day t)
  before-end t early is = is ∙ before-test (calendar.hour t) (laws.day t) early

  into_hours-day :
      (t : T)
      → laws.day (into_hours calendar t)
        ≡ (if leb end_hour (calendar.hour t) then laws.day t + 1 else laws.day t)
  unfolding into_hours
  into_hours-day t = elim (Bool-cases (ltb (calendar.hour t) start_hour)) [
    | inl early ↦ before-end t (ground arith) (rw (early, laws.day-set_start_minute) refl)
    | inr due ↦ elim (Bool-cases (leb end_hour (calendar.hour t))) [
      | inl late ↦ rw (due, late, laws.day-set_start_minute, laws.day-plus_day) refl
      | inr day ↦ rw (due, day) refl
    ]
  ]

  -- Before 9 a day more stays before 9.
  skip-early :
      (fuel : ℕ) (t s : T)
      → ((u : T) → calendar.hour u < 9 → calendar.hour (calendar.plus_day u) < 9)
      → skip_blocked calendar fuel t ≡ some s
      → calendar.hour t < 9
      → calendar.hour s < 9
  unfolding skip_blocked
  skip-early zero t s kept is early = absurd (ground arith)
  skip-early (suc fuel) t s kept is early = elim (Bool-cases (is_blocked calendar t)) [
    | inl blocked ↦ skip-early fuel (calendar.plus_day t) s kept (ground arith) (kept t early)
    | inr free ↦ let same = ap calendar.hour (some-injective s t (ground arith)) in ground arith
  ]

  -- The loop keeps what decides the hour and the day.
  skip-sent :
      (t s : T)
      → ((u : T) → calendar.hour u < 9 → calendar.hour (calendar.plus_day u) < 9)
      → skip_blocked calendar skip_fuel t ≡ some s
      → (sent_hour (calendar.hour s) ≡ sent_hour (calendar.hour t))
        × (leb end_hour (calendar.hour s) ≡ leb end_hour (calendar.hour t))
  skip-sent t s kept is = elim (Bool-cases (ltb (calendar.hour t) start_hour)) [
    | inl early ↦
        let before = skip-early skip_fuel t s kept is (ground arith) in (ground arith, ground arith)
    | inr due ↦
        let same = hour-skip_blocked calendar laws t s is (ground arith) in
        (ap sent_hour same, ap (leb end_hour) same)
  ]

  -- On a calendar with luxon's laws, where a day more from a time before 09:00 is before 09:00,
  -- a sequence that respects business hours always finds a time for its next action. With the first
  -- free day from the one on which the delay is over, it is on that day if the delay is over before
  -- 18:00, and else on the day after, which is not looked at again. It is in the hour in which the
  -- delay is over, if that is from 09:00 to 17:59, and else at 9.
  pub next_action_time-day :
      (due : T)
      → ((t : T) → calendar.hour t < 9 → calendar.hour (calendar.plus_day t) < 9)
      → (free : ℕ) × (at : T) × (next_action_time calendar true due ≡ some at)
        × IsFirstFree calendar laws (laws.day due) free
        × (laws.day at ≡ (if leb end_hour (calendar.hour due) then free + 1 else free))
        × (calendar.hour at ≡ sent_hour (calendar.hour due))
  unfolding next_action_time
  next_action_time-day due kept =
      let (s, is, first) = skip_blocked-first calendar laws due in
      let (hour, late) = skip-sent due s kept is in
      (
        laws.day s,
        into_hours calendar s,
        rw is refl,
        first,
        subst (λ b. laws.day (into_hours calendar s) ≡ (if b then laws.day s + 1 else laws.day s))
            late (into_hours-day s),
        into_hours-hour s ∙ hour,
      )

  into_hours-late :
      (t : T)
      → 18 ≤ calendar.hour t
      → into_hours calendar t ≡ calendar.set_start_minute (calendar.plus_day t)
  unfolding into_hours
  into_hours-late t late =
      rw ((late-tests (calendar.hour t) late).0, (late-tests (calendar.hour t) late).1) refl

  -- On a calendar with luxon's laws:
  -- if the delay is over on a Friday that is no holiday at 18:00 or later, a sequence that respects
  -- business hours sends its next message on the Saturday after it.
  pub next_action_time-saturday :
      (due : T)
      → laws.day due % 7 ≡ 4
      → is_blocked_day calendar laws (laws.day due) ≡ false
      → 18 ≤ calendar.hour due
      → (at : T) × (next_action_time calendar true due ≡ some at)
        × (laws.day at ≡ laws.day due + 1)
        × (calendar.weekday at ≡ 6)
  unfolding next_action_time
  next_action_time-saturday due friday free late =
      let at = calendar.set_start_minute (calendar.plus_day due) in
      let day = laws.day-set_start_minute (calendar.plus_day due) ∙ laws.day-plus_day due in
      (
        at,
        rw (skip-stays calendar laws 41 due free, into_hours-late due late) refl,
        day,
        laws.weekday_lem at ∙ (ap (λ d. d % 7 + 1) day ∙ saturday (laws.day due) friday),
      )
