-- ===== src/Labeling/Timeline.antt =====
-- src/mosemo/labeling/application/timeline.py: the label timeline of a day, in groups. A failed
-- assertion is `none`.
pub mod Items
pub mod Groups
pub mod Total
pub mod Reading
mod Examples
use mosemo.Prelude.{
  ℕ, String, Bool, true, false, not, ◌&&◌, Option, none, some, List, [], ◌∷◌, ◌++◌, map, nat_eq,
  option_eq, ◌==◌, last?, find, keep, contains, and_then, is_some, require, Result, ◌>>=◌,
  if◌then◌else◌,
}
use mosemo.Shared.Time.{Instant, Uuid}
use mosemo.Shared.Windows.{Date, Zones, timeline_date_window}
use mosemo.Identity.{Account}
use mosemo.Labels.{find_names}
use mosemo.Observation.Activities.{ActivityRecord}
use mosemo.Observation.Observed.{VersionFields, ObservedSegment, list_window}
use mosemo.Observation.Days.{DayError, segment_error, get_timezone, within}
use mosemo.Labeling.Confirmations.{Confirmation, applies_to}
use mosemo.Labeling.States.{Store, applicable, is_labelable}

pub record LabelTimelineEntry : Type 0 where
  pub segment : ObservedSegment
  pub version : String
  pub ended_at : Instant
  pub confirmation : Option Confirmation
  pub display_name : Option String

-- A group of labelable segments, or another segment that stands alone.
pub data LabelTimelineItem : Type 0 where
  group : List LabelTimelineEntry → LabelTimelineItem
  alone : ObservedSegment → LabelTimelineItem

abbrev pub same_label : Option Confirmation → Option Confirmation → Bool
same_label none none = true
same_label (some c) (some d) = c.label_id == d.label_id
same_label _ _ = false

unfoldable pub joins : LabelTimelineEntry → LabelTimelineEntry → Bool
joins entry previous =
    if not (previous.ended_at == entry.segment.started_at)
    then false
    else same_label previous.confirmation entry.confirmation

-- A dict by first event, and one by label: of equal keys the later value stays.
abbrev pub confirmation_for : List Confirmation → Uuid → Option Confirmation
confirmation_for [] event = none
confirmation_for (c ∷ cs) event =
    let rest = confirmation_for cs event in
    if is_some rest then rest else if c.first_event_id == event then some c else none

abbrev pub name_of : List (Uuid × String) → Uuid → Option String
name_of [] label = none
name_of (n ∷ ns) label =
    let rest = name_of ns label in
    if is_some rest then rest else if n.0 == label then some n.1 else none

abbrev pub display_name : List (Uuid × String) → Option Confirmation → Option String
display_name names none = none
display_name names (some c) = and_then c.label_id (name_of names)

-- `if group: items.append(LabelTimelineGroup(group))`
abbrev pub flush : List LabelTimelineEntry → List LabelTimelineItem
flush [] = []
flush (e ∷ es) = group (e ∷ es) ∷ []

-- `group and not entry.joins(group[-1])`
abbrev pub breaks : LabelTimelineEntry → List LabelTimelineEntry → Bool
breaks entry es = elim (last? es) [ none ↦ false | some previous ↦ not (joins entry previous) ]

module _ (confirmations : List Confirmation) (names : List (Uuid × String)) where
  unfoldable pub timeline_entry : ObservedSegment → Option LabelTimelineEntry
  timeline_entry segment = and_then segment.ended_at λ ended. and_then segment.version λ version.
      let confirmation =
        applicable (confirmation_for confirmations segment.first_event_id) version in
      some (record {
        segment = segment;
        version = version;
        ended_at = ended;
        confirmation = confirmation;
        display_name = display_name names confirmation;
      })

  -- The loop of `_group_items` with its open group; the items it appends from there on.
  unfoldable pub group_from :
      List LabelTimelineEntry → List ObservedSegment → Option (List LabelTimelineItem)
  unfolding timeline_entry joins
  group_from es [] = some (flush es)
  group_from es (s ∷ segments) =
      let alone_next = group_from [] segments in
      if not (is_labelable s.kind)
      then and_then alone_next (λ items. some (flush es ++ alone s ∷ items))
      else and_then (timeline_entry s) (λ entry.
        let new_next = group_from (entry ∷ []) segments in
        let same_next = group_from (es ++ entry ∷ []) segments in
        if breaks entry es
        then and_then new_next (λ items. some (flush es ++ items))
        else same_next)

  -- `_group_items`
  unfoldable pub group_items : List ObservedSegment → Option (List LabelTimelineItem)
  unfolding group_from
  group_items segments = group_from [] segments

abbrev pub labels_of : List Confirmation → List Uuid
labels_of [] = []
labels_of (c ∷ cs) = elim c.label_id [ none ↦ labels_of cs | some label ↦ label ∷ labels_of cs ]

-- `ConfirmationRepository.list_by_first_events`
abbrev pub list_by_first_events : List Confirmation → Uuid → List Uuid → List Confirmation
list_by_first_events rows account events =
    keep (λ c. (c.account_id == account) && contains events c.first_event_id) rows

-- What the transaction of `GetLabelTimeline.execute` reads for a window, in groups.
unfoldable pub list_label_window :
    (VersionFields → String)
    → List ActivityRecord
    → Store
    → Uuid
    → Instant
    → Instant
    → Instant
    → Option (List LabelTimelineItem)
unfolding group_items
list_label_window digest records s account start end now =
    and_then (list_window digest records s.segments account start end now) λ segments.
      let confirmations =
        list_by_first_events s.confirmations account
          (map (λ o. o.first_event_id) (keep (λ o. is_labelable o.kind) segments)) in
      group_items confirmations (find_names s.labels account (labels_of confirmations)) segments

-- `GetLabelTimeline.execute`, of a day or of today.
unfoldable pub get_label_timeline :
    (VersionFields → String)
    → Zones
    → List Account
    → List ActivityRecord
    → Store
    → Uuid
    → Option Date
    → Instant
    → Result DayError (List LabelTimelineItem)
unfolding timeline_date_window list_label_window
get_label_timeline digest zones accounts records s account day now =
    get_timezone accounts account >>= λ timezone.
    within
      (λ start end.
        require (list_label_window digest records s account start end now) segment_error)
      (timeline_date_window zones timezone day now)
