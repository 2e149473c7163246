-- ===== src/Observation/Days/Examples.antt =====
-- The days of a concrete account.
use mosemo.Prelude.{◌+◌, ◌≡◌, refl, some, List, [], ◌∷◌, pos, ok, err}
use mosemo.Shared.Time.{Instant, Uuid, asia_seoul, minutes}
use mosemo.Shared.Windows.Examples.{fixed_zones, fixed_zones-AreZones}
use mosemo.Identity.{Account, kakao}
use mosemo.Observation.Focus.{FocusSession}
use mosemo.Observation.Days.{account_not_found, list_completed_focus_sessions}
use mosemo.Observation.Days.Listing.{Lists, list_completed_focus_sessions-Lists}

abbrev accounts : List Account
accounts =
    record {
      id = 2;
      provider = kakao;
      provider_subject = "s";
      timezone = asia_seoul;
      last_authenticated_at = 0;
    }
    ∷ []

-- A completed session of `account` that started at a minute.
abbrev session : Uuid → Uuid → Instant → FocusSession
session id account started = record {
  id = id;
  account_id = account;
  device_id = 3;
  started_at = started;
  ended_at = some (started + minutes 25);
  target_seconds = pos 1500;
  work_seconds = some (pos 1400);
  label_id = some 7;
  description = "";
}

-- Seoul's day 4 begins at minute 5220 and ends at minute 6660 in UTC.
abbrev sessions : List FocusSession
sessions =
    session 1 2 (minutes 5220)
    ∷ session 2 2 (minutes 5219)
    ∷ session 3 2 (minutes 6659)
    ∷ session 4 2 (minutes 6660)
    ∷ session 5 9 (minutes 6000)
    ∷ session 6 2 (minutes 5220)
    ∷ []

runs-list_completed :
    (list_completed_focus_sessions fixed_zones accounts sessions 2 4 (minutes 9000)
      ≡ ok (
          session 3 2 (minutes 6659)
          ∷ session 6 2 (minutes 5220)
          ∷ session 1 2 (minutes 5220)
          ∷ []))
    × (list_completed_focus_sessions fixed_zones accounts sessions 2 7 (minutes 9000) ≡ ok [])
    × (list_completed_focus_sessions fixed_zones accounts sessions 8 4 (minutes 9000)
        ≡ err account_not_found)
unfolding list_completed_focus_sessions
runs-list_completed = (refl, refl, refl)

list_completed_focus_sessions-Lists_example :
    Lists fixed_zones fixed_zones-AreZones accounts sessions 2 4
      (minutes 9000)
      (some asia_seoul)
      (list_completed_focus_sessions fixed_zones accounts sessions 2 4 (minutes 9000))
list_completed_focus_sessions-Lists_example =
    list_completed_focus_sessions-Lists fixed_zones fixed_zones-AreZones accounts sessions 2 4
      (minutes 9000)
