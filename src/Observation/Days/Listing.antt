-- ===== src/Observation/Days/Listing.antt =====
-- The completed focus sessions of a day (`ListCompletedFocusSessions` of
-- observation/application/focus_sessions.py).
use mosemo.Prelude.{
  ◌≤◌, ◌≡◌, ◌↔◌, inl, inr, refl, true, Option, none, some, List, [], nat_eq, ==_iff, arith, In,
  keep, is_some, ok, err, Result, ◌>>=◌, require,
}
use mosemo.Shared.Time.{Instant, Uuid, Timezone}
use mosemo.Shared.Windows.{Date, Zones, timeline_date_window}
use mosemo.Shared.Windows.Days.{
  second_day, AreZones, in_window, Holds, Answers, timeline_date_window-Answers,
}
use mosemo.Identity.{Account}
use mosemo.Observation.Focus.{FocusSession}
use mosemo.Observation.Days.{
  DayError, account_not_found, find_timezone, is_completed_within, list_completed, within,
  list_completed_focus_sessions,
}
use mosemo.Observation.Days.Newest.{
  IsNewestFirst, newest_first-IsNewestFirst, In-newest_first, In-keep,
}

module _ (zones : Zones) (laws : AreZones zones) (accounts : List Account)
    (sessions : List FocusSession) (account : Uuid) (day : Date) (now : Instant) where
  -- A completed session of the account that started on the day, which is over or has begun.
  abbrev pub IsListed : Timezone → FocusSession → Type 0
  IsListed timezone s =
      In s sessions
      × (s.account_id ≡ account)
      × (is_some s.ended_at ≡ true)
      × (zones.local_date timezone s.started_at ≡ day)
      × (day ≤ zones.local_date timezone now)

  abbrev pub ListsOf : Timezone → List FocusSession → Type 0
  ListsOf timezone listed =
      IsNewestFirst listed
      × ((s : FocusSession) → second_day ≤ s.started_at → In s listed ↔ IsListed timezone s)

  -- What is listed, by the timezone of the account.
  abbrev pub Lists : Option Timezone → Result DayError (List FocusSession) → Type 0
  Lists none answer = answer ≡ err account_not_found
  Lists (some timezone) answer =
      (listed : List FocusSession) × (answer ≡ ok listed) × ListsOf timezone listed

  is_completed_within_iff :
      (start end : Instant) (s : FocusSession)
      → (is_completed_within account start end s ≡ true) ↔ (
          (s.account_id ≡ account)
          × (is_some s.ended_at ≡ true)
          × (in_window start end s.started_at ≡ true))
  is_completed_within_iff start end s = (
    λ h. (ground (arith, ==_iff s.account_id account), ground arith, ground arith),
    λ h. ground (arith, ==_iff s.account_id account),
  )

  window-ListsOf :
      (timezone : Timezone) (start end : Instant)
      → day ≤ zones.local_date timezone now
      → Holds zones laws timezone day start end
      → ListsOf timezone (list_completed sessions account start end)
  unfolding list_completed
  window-ListsOf timezone start end begun holds = (
    newest_first-IsNewestFirst (keep (is_completed_within account start end) sessions),
    λ s late. (
      (λ i.
          let kept =
            (In-keep (is_completed_within account start end) s sessions).0
              ((In-newest_first s (keep (is_completed_within account start end) sessions)).0 i) in
          let (own, ended, inside) = (is_completed_within_iff start end s).0 kept.1 in
          (kept.0, own, ended, (holds s.started_at late).0 inside, begun)),
      (λ l.
          let (there, own, ended, on_day, over) = l in
          (In-newest_first s (keep (is_completed_within account start end) sessions)).1 (
            (In-keep (is_completed_within account start end) s sessions).1 (
              there,
              (is_completed_within_iff start end s).1
                  (own, ended, (holds s.started_at late).1 on_day),
            ))),
    ),
  )

  -- Listing the focus sessions of a day fails only for an account that does not exist. Otherwise it gives,
  -- newest first, exactly the account's completed sessions that started on that day in the account's
  -- timezone, among those that started from the second day of `datetime` on, and none for a day
  -- after today; given that the time zone database makes a date begin with its midnight.
  pub list_completed_focus_sessions-Lists :
      Lists
        (find_timezone accounts account)
        (list_completed_focus_sessions zones accounts sessions account day now)
  unfolding list_completed_focus_sessions
  list_completed_focus_sessions-Lists = by_account (find_timezone accounts account)
    where
      by_answer :
          (timezone : Timezone)
          → Answers zones laws timezone day now (timeline_date_window zones timezone (some day) now)
          → Lists (some timezone) (
              within
                (λ start end. ok (list_completed sessions account start end))
                (timeline_date_window zones timezone (some day) now))
      by_answer timezone (inl (future, e)) = rw e (
        [],
        refl,
        (
          tt,
          λ s late. (
            (λ i. absurd i),
            λ l. absurd (let (there, own, ended, on_day, over) = l in omega arith),
          ),
        ),
      )
      by_answer timezone (inr (begun, (start, end, e, holds))) = rw e (
        list_completed sessions account start end,
        refl,
        window-ListsOf timezone start end begun holds,
      )

      by_account :
          (o : Option Timezone)
          → Lists o (
              require o account_not_found >>= λ timezone.
              within
                (λ start end. ok (list_completed sessions account start end))
                (timeline_date_window zones timezone (some day) now))
      by_account none = refl
      by_account (some timezone) =
          by_answer timezone (timeline_date_window-Answers zones laws timezone (some day) now)
