-- ===== src/Outreach/Resilience/Skip.antt =====
-- The loop that skips weekends and holidays ends, on the first day that is free.
use cerniq_app_v.Prelude.{
  ap, every, ℕ, zero, suc, subst, ◌+◌, ◌*◌, ◌%◌, ◌≤◌, ◌<◌, List, [], ◌∷◌, Bool, true, false, ◌||◌,
  some, String, ltb, leb, includes, if◌then◌else◌, ◌≡◌, refl, inl, inr, arith, length, ◌==◌,
  Bool-cases, eq_iff,
}
use mathlib.Core.Option.{some-injective}
use cerniq_app_v.Outreach.Resilience.{
  romanian_holidays_2026, Calendar, Laws, is_blocked, skip_blocked, skip_fuel,
}

-- The holidays that are not over on a day.
ahead : (String → ℕ) → ℕ → List String → ℕ
ahead day_of d [] = 0
ahead day_of d (h ∷ hs) = (if leb d (day_of h) then 1 else 0) + ahead day_of d hs

ahead-next :
    (day_of : String → ℕ) (d : ℕ) (hs : List String) → ahead day_of (d + 1) hs ≤ ahead day_of d hs
unfolding ahead
ahead-next day_of d [] = ground arith
ahead-next day_of d (h ∷ hs) = ground (arith, ahead-next day_of d hs)

ahead-holiday :
    (day_of : String → ℕ) (iso : String) (hs : List String)
    → includes iso hs ≡ true
    → ahead day_of (day_of iso + 1) hs < ahead day_of (day_of iso) hs
unfolding ahead
ahead-holiday day_of iso [] h = absurd (ground arith)
ahead-holiday day_of iso (s ∷ hs) h =
    ground (arith, eq_iff s iso, ahead-holiday day_of iso hs, ahead-next day_of (day_of iso) hs)

ahead_le : (day_of : String → ℕ) (d : ℕ) (hs : List String) → ahead day_of d hs ≤ length hs
unfolding ahead
ahead_le day_of d [] = ground arith
ahead_le day_of d (h ∷ hs) = ground (arith, ahead_le day_of d hs)

-- The days until Monday, on a weekend.
abbrev rest : ℕ → ℕ
rest d = if d % 7 == 5 then 2 else if d % 7 == 6 then 1 else 0

module _ {T : Type 0} (calendar : Calendar T) (laws : Laws calendar) where
  -- Whether a day is a weekend's or a holiday.
  abbrev pub is_blocked_day : ℕ → Bool
  is_blocked_day d = ltb 5 (d % 7 + 1) || includes (laws.iso_of d) romanian_holidays_2026

  pub is_blocked-day : (t : T) → is_blocked calendar t ≡ is_blocked_day (laws.day t)
  is_blocked-day t = ground (arith, laws.to_iso_date_lem t, laws.weekday_lem t)

  measure : ℕ → ℕ
  measure d = 3 * ahead laws.day_of d romanian_holidays_2026 + rest d

  measure-next : (d : ℕ) → is_blocked_day d ≡ true → measure (d + 1) < measure d
  unfolding measure
  measure-next d blocked = elim (Bool-cases (includes (laws.iso_of d) romanian_holidays_2026)) [
    | inl holiday ↦
        let fewer = ahead-holiday laws.day_of (laws.iso_of d) romanian_holidays_2026 holiday in
        let is_day = laws.day_of-iso_of d in ground arith
    | inr weekday ↦ let fewer = ahead-next laws.day_of d romanian_holidays_2026 in ground arith
  ]

  measure_lt : (d : ℕ) → measure d < skip_fuel
  unfolding measure
  measure_lt d = ground (arith, ahead_le laws.day_of d romanian_holidays_2026)

  -- So many days from a day on.
  abbrev pub days : ℕ → ℕ → List ℕ
  days from zero = []
  days from (suc n) = from ∷ days (from + 1) n

  -- The first free day from a day on: it is free, and every day before it is blocked.
  abbrev pub IsFirstFree : ℕ → ℕ → Type 0
  IsFirstFree from d =
      (n : ℕ) × (d ≡ from + n)
      × (is_blocked_day d ≡ false)
      × (every is_blocked_day (days from n) ≡ true)

  IsFirstFree-next :
      (from d : ℕ) → is_blocked_day from ≡ true → IsFirstFree (from + 1) d → IsFirstFree from d
  IsFirstFree-next from d blocked (n, is, free, before) =
      (suc n, ground arith, free, ground (arith, blocked, before))

  -- The loop from any time on: it ends on the first free day.
  skip_ends :
      (fuel : ℕ) (t : T)
      → measure (laws.day t) < fuel
      → (s : T) × (skip_blocked calendar fuel t ≡ some s) × IsFirstFree (laws.day t) (laws.day s)
  unfolding skip_blocked
  skip_ends zero t enough = absurd (ground arith)
  skip_ends (suc fuel) t enough = elim (Bool-cases (is_blocked_day (laws.day t))) [
    | inl blocked ↦
        let (s, is, first) =
          skip_ends fuel (calendar.plus_day t)
            (rw (laws.day-plus_day t) (ground (arith, measure-next (laws.day t) blocked))) in
        (
          s,
          ground (arith, is_blocked-day t),
          IsFirstFree-next (laws.day t) (laws.day s) blocked
              (subst (λ d. IsFirstFree d (laws.day s)) (laws.day-plus_day t) first),
        )
    | inr free ↦ (t, ground (arith, is_blocked-day t), (0, ground arith, free, refl))
  ]

  pub skip-stays :
      (fuel : ℕ) (t : T)
      → is_blocked_day (laws.day t) ≡ false
      → skip_blocked calendar (suc fuel) t ≡ some t
  unfolding skip_blocked
  skip-stays fuel t free = ground (arith, is_blocked-day t)

  -- From 9 on the hour is kept.
  skip-hour :
      (fuel : ℕ) (t s : T)
      → skip_blocked calendar fuel t ≡ some s
      → 9 ≤ calendar.hour t
      → calendar.hour s ≡ calendar.hour t
  unfolding skip_blocked
  skip-hour zero t s is late = absurd (ground arith)
  skip-hour (suc fuel) t s is late = elim (Bool-cases (is_blocked calendar t)) [
    | inl blocked ↦
        let same = laws.hour-plus_day t late in
        let kept = skip-hour fuel (calendar.plus_day t) s (ground arith) (ground arith) in
        ground arith
    | inr free ↦ ap calendar.hour (some-injective s t (ground arith))
  ]

  -- 42 turns of the loop are enough, and it ends on the first free day.
  pub skip_blocked-first :
      (t : T)
      → (s : T) × (skip_blocked calendar skip_fuel t ≡ some s)
        × IsFirstFree (laws.day t) (laws.day s)
  skip_blocked-first t = skip_ends skip_fuel t (measure_lt (laws.day t))

  pub hour-skip_blocked :
      (t s : T)
      → skip_blocked calendar skip_fuel t ≡ some s
      → 9 ≤ calendar.hour t
      → calendar.hour s ≡ calendar.hour t
  hour-skip_blocked t s is late = skip-hour skip_fuel t s is late
