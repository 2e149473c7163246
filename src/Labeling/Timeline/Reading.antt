-- ===== src/Labeling/Timeline/Reading.antt =====
-- Reading the label timeline of a day (`GetLabelTimeline` of labeling/application/timeline.py).
use mosemo.Prelude.{
  ◌≡◌, ◌<◌, ◌⊎◌, inl, inr, refl, String, true, Option, none, some, List, [], map, keep, nat_eq,
  is_some, All, ok, err, Result, ◌>>=◌, require,
}
use mosemo.Shared.Time.{Instant, Uuid, Timezone}
use mosemo.Shared.Windows.{Date, Zones, Window, or_today, timeline_date_window}
use mosemo.Shared.Windows.Days.{AreZones, Holds, Answers, timeline_date_window-Answers}
use mosemo.Identity.{Account}
use mosemo.Labels.{find_names}
use mosemo.Observation.Activities.{ActivityRecord}
use mosemo.Observation.Observed.{VersionFields, list_date_segments, list_window}
use mosemo.Observation.Observed.Total.{IsReadable, list_window-total}
use mosemo.Observation.Days.{DayError, account_not_found, segment_error, find_timezone, within}
use mosemo.Labeling.States.{Store, is_labelable}
use mosemo.Labeling.Timeline.{
  LabelTimelineItem, list_by_first_events, labels_of, group_items, list_label_window,
  get_label_timeline,
}
use mosemo.Labeling.Timeline.Items.{segments_of}
use mosemo.Labeling.Timeline.Groups.{group_items-segments}
use mosemo.Labeling.Timeline.Total.{group_items-total}

some-value {ℓ} : {A : Type ℓ} (o : Option A) → is_some o ≡ true → (a : A) × (o ≡ some a)
some-value none h = absurd (cc)
some-value (some a) h = (a, refl)

module _ (digest : VersionFields → String) (records : List ActivityRecord) (s : Store)
    (account : Uuid) (now : Instant) where
  -- The items hold the segments of the window, in order.
  abbrev pub Covers : Instant → Instant → List LabelTimelineItem → Type 0
  Covers start end items =
      list_window digest records s.segments account start end now ≡ some (segments_of items)

  list_label_window-Covers :
      (start end : Instant)
      → All IsReadable s.segments
      → (items : List LabelTimelineItem) × (list_label_window digest records s account start end now
          ≡ some items)
        × Covers start end items
  unfolding list_label_window list_window
  list_label_window-Covers start end readable =
      let (segments, listed) =
        some-value (list_window digest records s.segments account start end now)
          (list_window-total digest now start end records s.segments account readable) in
      let confirmations =
        list_by_first_events s.confirmations account
          (map (λ o. o.first_event_id) (keep (λ o. is_labelable o.kind) segments)) in
      let names = find_names s.labels account (labels_of confirmations) in
      let (items, grouped) = some-value (group_items confirmations names segments) (
        group_items-total confirmations names digest start end now
          (list_date_segments records s.segments account start end) segments listed) in
      (
        items,
        rw listed grouped,
        rw (group_items-segments confirmations names segments items grouped) listed,
      )

module _ (digest : VersionFields → String) (records : List ActivityRecord) (s : Store)
    (account : Uuid) (now : Instant) (zones : Zones) (laws : AreZones zones)
    (accounts : List Account) (day : Option Date) where
  -- Nothing for a day in the future, and the segments of its window for any other day.
  abbrev pub ReadsDay : Timezone → List LabelTimelineItem → Type 0
  ReadsDay timezone items =
      let selected = or_today day (zones.local_date timezone now) in
      ((zones.local_date timezone now < selected) × (items ≡ []))
      ⊎ ((start : Instant) × (end : Instant) × Holds zones laws timezone selected start end
          × Covers digest records s account now start end items)

  abbrev pub Reads : Option Timezone → Result DayError (List LabelTimelineItem) → Type 0
  Reads none answer = answer ≡ err account_not_found
  Reads (some timezone) answer =
      (items : List LabelTimelineItem) × (answer ≡ ok items) × ReadsDay timezone items

  -- Reading the label timeline of a day, or of today, fails only for an account that does not exist, if
  -- the rows satisfy their constraints, each context is detailed or opaque, and the time zone
  -- database makes a date begin with its midnight. It gives nothing for a day after today.
  -- For any other day its groups and other items hold exactly the segments that the observation
  -- timeline lists for the window of that day, none lost, repeated or moved.
  pub get_label_timeline-Reads :
      All IsReadable s.segments
      → Reads
          (find_timezone accounts account)
          (get_label_timeline digest zones accounts records s account day now)
  unfolding get_label_timeline
  get_label_timeline-Reads readable = by_account (find_timezone accounts account)
    where
      by_answer :
          (timezone : Timezone) (window : Option (Option Window))
          → Answers zones laws timezone (or_today day (zones.local_date timezone now)) now window
          → Reads (some timezone) (
              within
                (λ start end.
                  require (list_label_window digest records s account start end now) segment_error)
                window)
      by_answer timezone window (inl (future, e)) = rw e ([], refl, inl (future, refl))
      by_answer timezone window (inr (begun, (start, end, e, holds))) =
          let (items, listed, covered) =
            list_label_window-Covers digest records s account now start end readable in
          rw (e, listed) (items, refl, inr (start, end, holds, covered))

      by_account :
          (o : Option Timezone)
          → Reads o (
              require o account_not_found >>= λ timezone.
              within
                (λ start end.
                  require (list_label_window digest records s account start end now) segment_error)
                (timeline_date_window zones timezone day now))
      by_account none = refl
      by_account (some timezone) =
          by_answer timezone (timeline_date_window zones timezone day now)
            (timeline_date_window-Answers zones laws timezone day now)
