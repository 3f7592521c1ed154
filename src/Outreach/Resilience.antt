-- ===== src/Outreach/Resilience.antt =====
-- workers/outreach/src/workers/resilience.ts: the retry policies and the business hours.
-- luxon's DateTime is a parameter, the record `Calendar`: a day is its number counted from a
-- Monday, and the laws are what luxon documents of days, of hours and of the local time that is
-- kept when days are added. They are stated for the hours of the day that no clock change skips.
pub mod Skip
pub mod Slots
pub mod Retry
pub mod Scheduler
use cerniq_app_v.Prelude.{
  ℕ, zero, suc, ◌+◌, ◌-◌, ◌%◌, ◌≤◌, ◌<◌, List, [], ◌∷◌, Bool, true, false, not, ◌&&◌, ◌||◌, Option,
  none, some, String, ltb, leb, includes, if◌then◌else◌, ◌≡◌,
}

-- `ROMANIAN_HOLIDAYS_2026`
abbrev pub romanian_holidays_2026 : List String
romanian_holidays_2026 =
    "2026-01-01" ∷ "2026-01-02" ∷ "2026-01-24" ∷ "2026-04-13" ∷ "2026-04-14" ∷ "2026-05-01"
    ∷ "2026-06-01" ∷ "2026-06-02" ∷ "2026-08-15" ∷ "2026-11-30" ∷ "2026-12-01" ∷ "2026-12-25"
    ∷ "2026-12-26" ∷ []

-- `BUSINESS_HOURS`
abbrev pub start_hour : ℕ
start_hour = 9

abbrev pub end_hour : ℕ
end_hour = 18

-- The operations of luxon that are used, on valid times in the zone Europe/Bucharest.
pub record Calendar (T : Type 0) : Type 0 where
  pub weekday : T → ℕ
  pub hour : T → ℕ
  pub to_iso_date : T → Option String
  pub plus_day : T → T
  -- set({ hour: 9, minute: 0, second: 0, millisecond: 0 })
  pub set_start : T → T
  -- set({ hour: 9, minute: 0 }), which keeps the second
  pub set_start_minute : T → T
  -- plus({ hours, minutes })
  pub plus_time : ℕ → ℕ → T → T
  pub to_millis : T → ℕ

-- What luxon documents of them. `day` is the number of the local day, `iso_of` its text, and
-- `day_of` reads the text back.
pub record Laws {T : Type 0} (calendar : Calendar T) : Type 0 where
  pub day : T → ℕ
  pub iso_of : ℕ → String
  pub day_of : String → ℕ
  pub day_of-iso_of : (n : ℕ) → day_of (iso_of n) ≡ n
  pub to_iso_date_lem : (t : T) → calendar.to_iso_date t ≡ some (iso_of (day t))
  pub weekday_lem : (t : T) → calendar.weekday t ≡ day t % 7 + 1
  pub day-plus_day : (t : T) → day (calendar.plus_day t) ≡ day t + 1
  pub hour-plus_day :
      (t : T) → 9 ≤ calendar.hour t → calendar.hour (calendar.plus_day t) ≡ calendar.hour t
  pub day-set_start : (t : T) → day (calendar.set_start t) ≡ day t
  pub hour-set_start : (t : T) → calendar.hour (calendar.set_start t) ≡ 9
  pub day-set_start_minute : (t : T) → day (calendar.set_start_minute t) ≡ day t
  pub hour-set_start_minute : (t : T) → calendar.hour (calendar.set_start_minute t) ≡ 9

-- Enough for three days of each holiday and a weekend (Skip.antt).
abbrev pub skip_fuel : ℕ
skip_fuel = 42

module _ {T : Type 0} (calendar : Calendar T) where
  -- ROMANIAN_HOLIDAYS_2026.includes(dateIso), false for a missing date
  abbrev pub is_holiday : T → Bool
  is_holiday t = elim (calendar.to_iso_date t) [
    | none ↦ false
    | some iso ↦ includes iso romanian_holidays_2026
  ]

  abbrev pub is_blocked : T → Bool
  is_blocked t = ltb 5 (calendar.weekday t) || is_holiday t

  -- `isBusinessHours`, at the time that is now
  unfoldable pub is_business_hours : T → Bool
  is_business_hours now = elim (calendar.to_iso_date now) [
    | none ↦ false
    | some iso ↦
        leb (calendar.weekday now) 5
        && not (includes iso romanian_holidays_2026)
        && leb start_hour (calendar.hour now)
        && ltb (calendar.hour now) end_hour
  ]

  -- The loop `while (true)` that skips weekends and holidays, with fuel.
  unfoldable pub skip_blocked : ℕ → T → Option T
  skip_blocked zero t = none
  skip_blocked (suc fuel) t =
      let later = skip_blocked fuel (calendar.plus_day t) in if is_blocked t then later else some t

  -- The first assignments of `getNextBusinessSlot`.
  unfoldable pub first_candidate : T → T
  first_candidate now =
      if leb end_hour (calendar.hour now)
      then calendar.set_start (calendar.plus_day now)
      else if ltb (calendar.hour now) start_hour
      then calendar.set_start now
      else now

  -- `getNextBusinessSlot`
  unfoldable pub get_next_business_slot : T → Option T
  unfolding first_candidate skip_blocked
  get_next_business_slot now = skip_blocked skip_fuel (first_candidate now)
