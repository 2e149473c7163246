-- ===== src/Shared/Windows.antt =====
-- shared/domain/timezones.py: the calendar days of a timezone.
-- A date is its number of days from `date.min`, before `date.max`.
pub mod Days
pub mod Examples
use mosemo.Prelude.{ℕ, suc, Option, none, some, and_then, ltb, if◌then◌else◌}
use mosemo.Shared.Time.{Instant, Timezone}

abbrev pub Date : Type 0
Date = ℕ

-- What the time zone database gives: the date of an instant (`astimezone(…).date()`), and the instant
-- at which a date begins (`datetime.combine(day, time.min, …).astimezone(UTC)`), or `OverflowError`
-- where that is before `datetime.min`.
pub record Zones : Type 0 where
  pub local_date : Timezone → Instant → Date
  pub midnight : Timezone → Date → Option Instant

abbrev pub or_today : Option Date → Date → Date
or_today none today = today
or_today (some requested) today = requested

-- `except OverflowError: start = datetime.min`
abbrev pub or_min : Option Instant → Instant
or_min none = 0
or_min (some start) = start

abbrev pub Window : Type 0
Window = Date × Instant × Instant

-- The window of a day, or nothing for one in the future; the outer `none` is a raise.
unfoldable pub timeline_date_window :
    Zones → Timezone → Option Date → Instant → Option (Option Window)
timeline_date_window zones timezone requested now =
    let today = zones.local_date timezone now in
    let selected = or_today requested today in
    if ltb today selected
    then some none
    else and_then (zones.midnight timezone (suc selected))
        λ end. some (some (selected, or_min (zones.midnight timezone selected), end))
