-- ===== src/Outreach/Clock.antt =====
-- A clock on which luxon's laws hold: a time is a number of hours counted from a Monday at 00:00,
-- and the text of a day is as long as the day's number.
use Prim.Native.Char.{nul}
use Prim.Native.String.{String, [], ◌∷◌}
use cerniq_app_v.Prelude.{ℕ, zero, suc, ◌+◌, ◌*◌, ◌%◌, ◌/◌, ◌≡◌, refl, ap, some, arith}
use cerniq_app_v.Outreach.Resilience.{Calendar, Laws}

abbrev pub strokes : ℕ → String
strokes zero = []
strokes (suc n) = nul ∷ strokes n

abbrev pub count_strokes : String → ℕ
count_strokes [] = zero
count_strokes (c ∷ s) = suc (count_strokes s)

pub count_strokes-strokes : (n : ℕ) → count_strokes (strokes n) ≡ n
count_strokes-strokes zero = refl
count_strokes-strokes (suc n) = ap suc (count_strokes-strokes n)

abbrev pub hours : Calendar ℕ
hours = record {
  weekday = λ t. t / 24 % 7 + 1;
  hour = λ t. t % 24;
  to_iso_date = λ t. some (strokes (t / 24));
  plus_day = λ t. t + 24;
  set_start = λ t. t / 24 * 24 + 9;
  set_start_minute = λ t. t / 24 * 24 + 9;
  to_millis = λ t. t * 3600000;
  plus_time = λ h m t. t + h;
}

pub next-day : (t : ℕ) → (t + 24) / 24 ≡ t / 24 + 1
next-day t = ground arith

pub next-hour : (t : ℕ) → (t + 24) % 24 ≡ t % 24
next-hour t = ground arith

pub start-day : (t : ℕ) → (t / 24 * 24 + 9) / 24 ≡ t / 24
start-day t = ground arith

pub start-hour : (t : ℕ) → (t / 24 * 24 + 9) % 24 ≡ 9
start-hour t = ground arith

abbrev pub hours-Laws : Laws hours
hours-Laws = record {
  day = λ t. t / 24;
  iso_of = strokes;
  day_of = count_strokes;
  day_of-iso_of = count_strokes-strokes;
  to_iso_date_lem = λ t. refl;
  weekday_lem = λ t. refl;
  day-plus_day = next-day;
  hour-plus_day = λ t late. next-hour t;
  day-set_start = start-day;
  hour-set_start = start-hour;
  day-set_start_minute = start-day;
  hour-set_start_minute = start-hour;
}
