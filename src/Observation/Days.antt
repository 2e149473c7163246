-- ===== src/Observation/Days.antt =====
-- Reading a calendar day of an account: `GetObservationTimeline` of
-- src/mosemo/observation/application/activities.py and `ListCompletedFocusSessions` of
-- src/mosemo/observation/application/focus_sessions.py.
pub mod Newest
pub mod Listing
mod Examples
use mosemo.Prelude.{
  String, ltb, leb, Bool, ◌&&◌, ◌||◌, Option, none, some, List, [], ◌∷◌, nat_eq, ◌==◌, find, keep,
  is_some, require, Result, ok, err, ◌>>=◌, if◌then◌else◌,
}
use mosemo.Shared.Time.{Instant, Uuid, Timezone}
use mosemo.Shared.Windows.{Date, Zones, Window, timeline_date_window}
use mosemo.Identity.{Account}
use mosemo.Observation.Activities.{ActivityRecord}
use mosemo.Observation.Segments.{Segment}
use mosemo.Observation.Observed.{VersionFields, ObservedSegment, list_window}
use mosemo.Observation.Focus.{FocusSession}

-- What reading a day raises: `AccountNotFoundError`, an `OverflowError` of the calendar, or a failed
-- assertion or `ValueError` of a segment.
pub data DayError : Type 0 where
  account_not_found calendar_overflow segment_error : DayError

abbrev pub timezone_of : Option Account → Option Timezone
timezone_of none = none
timezone_of (some a) = some a.timezone

-- `AccountQuery.find_timezone`
abbrev pub find_timezone : List Account → Uuid → Option Timezone
find_timezone accounts account = timezone_of (find (λ a. a.id == account) accounts)

-- `AccountDirectory.get_timezone`
abbrev pub get_timezone : List Account → Uuid → Result DayError Timezone
get_timezone accounts account = require (find_timezone accounts account) account_not_found

-- `started_at DESC, id DESC`
abbrev pub is_newer : FocusSession → FocusSession → Bool
is_newer a b = ltb b.started_at a.started_at || ((a.started_at == b.started_at) && ltb b.id a.id)

abbrev pub insert : FocusSession → List FocusSession → List FocusSession
insert s [] = s ∷ []
insert s (t ∷ sessions) =
    let rest = insert s sessions in if is_newer t s then t ∷ rest else s ∷ t ∷ sessions

abbrev pub newest_first : List FocusSession → List FocusSession
newest_first [] = []
newest_first (s ∷ sessions) = insert s (newest_first sessions)

abbrev pub is_completed_within : Uuid → Instant → Instant → FocusSession → Bool
is_completed_within account start end s =
    (s.account_id == account)
    && is_some s.ended_at
    && leb start s.started_at
    && ltb s.started_at end

-- `FocusSessionRepository.list_completed`
unfoldable pub list_completed : List FocusSession → Uuid → Instant → Instant → List FocusSession
list_completed sessions account start end =
    newest_first (keep (is_completed_within account start end) sessions)

-- The answer for the window of a day, which is empty for a day in the future.
abbrev pub within {ℓ} :
    {A : Type ℓ}
    → (Instant → Instant → Result DayError (List A))
    → Option (Option Window)
    → Result DayError (List A)
within read none = err calendar_overflow
within read (some none) = ok []
within read (some (some (day, start, end))) = read start end

-- `ListCompletedFocusSessions.execute`
unfoldable pub list_completed_focus_sessions :
    Zones
    → List Account
    → List FocusSession
    → Uuid
    → Date
    → Instant
    → Result DayError (List FocusSession)
unfolding timeline_date_window list_completed
list_completed_focus_sessions zones accounts sessions account day now =
    get_timezone accounts account >>= λ timezone.
    within (λ start end. ok (list_completed sessions account start end))
      (timeline_date_window zones timezone (some day) now)

-- `GetObservationTimeline.execute`
unfoldable pub get_observation_timeline :
    (VersionFields → String)
    → Zones
    → List Account
    → List ActivityRecord
    → List Segment
    → Uuid
    → Date
    → Instant
    → Result DayError (List ObservedSegment)
unfolding timeline_date_window list_window
get_observation_timeline digest zones accounts records rows account day now =
    get_timezone accounts account >>= λ timezone.
    within
      (λ start end. require (list_window digest records rows account start end now) segment_error)
      (timeline_date_window zones timezone (some day) now)
