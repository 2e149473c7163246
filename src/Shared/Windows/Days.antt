-- ===== src/Shared/Windows/Days.antt =====
-- The window of a calendar day holds the instants of that day
-- (`timeline_date_window` of shared/domain/timezones.py).
use mosemo.Prelude.{
  suc, ◌≤◌, ◌<◌, ◌≡◌, ◌↔◌, ◌⊎◌, inl, inr, refl, Bool, true, false, ◌&&◌, Bool-cases, Option, none,
  some, and_then, ltb, leb, arith, if◌then◌else◌,
}
use mosemo.Shared.Time.{Instant, Timezone, minutes}
use mosemo.Shared.Windows.{Date, Zones, Window, or_today, or_min, timeline_date_window}

-- From this instant on, every timezone gives a date (`astimezone` raises where that is before `date.min`).
abbrev pub second_day : Instant
second_day = minutes 1440

-- A date begins with its midnight, and only the first one may begin before `datetime.min`.
pub record AreZones (zones : Zones) : Type 0 where
  pub since_midnight :
      (timezone : Timezone) (day : Date) (start at : Instant)
      → second_day ≤ at
      → zones.midnight timezone day ≡ some start
      → (start ≤ at) ↔ (day ≤ zones.local_date timezone at)
  pub overflow : (timezone : Timezone) (day : Date) → zones.midnight timezone day ≡ none → day ≡ 0

abbrev pub in_window : Instant → Instant → Instant → Bool
in_window start end at = leb start at && ltb at end

module _ (zones : Zones) (laws : AreZones zones) (timezone : Timezone) where
  -- The instants of the window are those of the day.
  abbrev pub Holds : Date → Instant → Instant → Type 0
  Holds day start end =
      (at : Instant)
      → second_day ≤ at
      → (in_window start end at ≡ true) ↔ (zones.local_date timezone at ≡ day)

  -- The answer for a day that is over or has begun, and for one in the future.
  abbrev pub Answers : Date → Instant → Option (Option Window) → Type 0
  Answers day now answer =
      ((zones.local_date timezone now < day) × (answer ≡ some none))
      ⊎ ((day ≤ zones.local_date timezone now)
          × ((start : Instant) × (end : Instant) × (answer ≡ some (some (day, start, end)))
              × Holds day start end))

  begins :
      (day : Date) (at : Instant) (o : Option Instant)
      → second_day ≤ at
      → zones.midnight timezone day ≡ o
      → (or_min o ≤ at) ↔ (day ≤ zones.local_date timezone at)
  begins day at none late e =
      let first = laws.overflow timezone day e in (λ h. omega arith, λ h. omega arith)
  begins day at (some start) late e = laws.since_midnight timezone day start at late e

  between :
      (day : Date) (start end at : Instant)
      → (start ≤ at) ↔ (day ≤ zones.local_date timezone at)
      → (end ≤ at) ↔ (suc day ≤ zones.local_date timezone at)
      → (in_window start end at ≡ true) ↔ (zones.local_date timezone at ≡ day)
  between day start end at first last = (
    λ h.
        let from = first.0 (ground arith) in
        elim (Bool-cases (leb (suc day) (zones.local_date timezone at))) [
          | inl after ↦ absurd (let past = last.1 (ground arith) in ground arith)
          | inr within ↦ ground arith
        ],
    λ h.
        let from = first.1 (omega arith) in
        elim (Bool-cases (leb end at)) [
          | inl after ↦ absurd (let past = last.0 (ground arith) in omega arith)
          | inr within ↦ ground arith
        ],
  )

  -- For an account's day, or today where none is requested: a day after today gets no window, and any
  -- other one gets, with no error, the window that holds exactly the instants whose date in the timezone
  -- is that day, among those from the second day of `datetime` on; given that for these instants a date
  -- begins with its midnight, which is before `datetime.min` for the first date at most.
  pub timeline_date_window-Answers :
      (requested : Option Date) (now : Instant)
      → Answers
          (or_today requested (zones.local_date timezone now))
          now
          (timeline_date_window zones timezone requested now)
  unfolding timeline_date_window
  timeline_date_window-Answers requested now =
      by_future (or_today requested (zones.local_date timezone now)) _ refl
    where
      by_end :
          (day : Date) (o : Option Instant)
          → zones.midnight timezone (suc day) ≡ o
          → day ≤ zones.local_date timezone now
          → Answers day now
              (and_then o λ end. some (some (day, or_min (zones.midnight timezone day), end)))
      by_end day none e h = absurd (let first = laws.overflow timezone (suc day) e in omega arith)
      by_end day (some end) e h = inr (
        h,
        (
          or_min (zones.midnight timezone day),
          end,
          refl,
          λ at late.
              between day (or_min (zones.midnight timezone day)) end at
                (begins day at (zones.midnight timezone day) late refl)
                (laws.since_midnight timezone (suc day) end at late e),
        ),
      )

      by_future :
          (day : Date) (future : Bool)
          → ltb (zones.local_date timezone now) day ≡ future
          → Answers day now (
              if future
              then some none
              else and_then
                  (zones.midnight timezone (suc day))
                  λ end. some (some (day, or_min (zones.midnight timezone day), end)))
      by_future day true e = inl (ground arith, refl)
      by_future day false e = by_end day (zones.midnight timezone (suc day)) refl (ground arith)
