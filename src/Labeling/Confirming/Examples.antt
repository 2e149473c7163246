-- ===== src/Labeling/Confirming/Examples.antt =====
-- The theorems on confirming, at a concrete store.
use mosemo.Prelude.{inl, inr, ap, sym, ◌∙◌, ◌≡◌, refl, true, ok, none, some, [], ◌∷◌, String}
use mosemo.Shared.Time.{seconds}
use mosemo.Labels.{Label, is_active}
use mosemo.Observation.Segments.{
  Segment, SegmentType, effective_ended_at, timeline_kind_at, closed_detailed_activity,
}
use mosemo.Observation.Observed.{VersionFields, ObservedSegment, observed, find_segment}
use mosemo.Labeling.States.{Store, SegmentLabelState, find_labelable_segment}
use mosemo.Labeling.Confirming.{LabelSelection, confirm_segment_label, confirm_segment_labels}
use mosemo.Labeling.Confirming.Stored.{StartApart}
use mosemo.Labeling.Confirming.Batches.{ConfirmsAll, confirm_segment_labels-ConfirmsAll}
use mosemo.Labeling.Confirming.Succeeds.{confirm_segment_label-succeeds}
use mosemo.Labeling.Confirming.Single.{IsConfirmable, Confirms, confirm_segment_label-Confirms}

abbrev editing : Segment
editing = record {
  id = 1;
  account_id = 2;
  segment_type = SegmentType.activity;
  started_at = seconds 10;
  ended_at = some (seconds 50);
  first_event_id = 3;
  last_event_id = some 4;
  last_observed_at = some (seconds 40);
  context = some (record { kind = some "detailed"; body = "editor" });
  reason = none;
}

abbrev coding : Label
coding = record { id = 7; account_id = 2; display_name = "코딩"; archived_at = none }

abbrev store : Store
store = record { segments = editing ∷ []; confirmations = []; proposals = []; labels = coding ∷ [] }

abbrev body : VersionFields → String
body f = f.context.body

abbrev select_coding : LabelSelection
select_coding = record { segment_id = 1; segment_version = "editor"; label_id = some 7 }

confirm_segment_label-Confirms_example :
    Confirms body 2 select_coding
      (seconds 60)
      store
      (confirm_segment_label body true 11 2 select_coding (seconds 60) store)
confirm_segment_label-Confirms_example =
    confirm_segment_label-Confirms body true 11 2 select_coding (seconds 60) store tt

only_one : StartApart body 2 (seconds 60) store
only_one a b (inl e) (inl f) own own' same = ap (λ r. r.id) e ∙ sym (ap (λ r. r.id) f)
only_one a b (inl e) (inr f) own own' same = absurd f
only_one a b (inr e) f own own' same = absurd e

confirm_segment_labels-ConfirmsAll_example :
    ConfirmsAll body 2
      (seconds 60)
      store
      (select_coding ∷ [])
      (confirm_segment_labels body true (λ n. n) 2 (select_coding ∷ []) (seconds 60) store)
confirm_segment_labels-ConfirmsAll_example =
    confirm_segment_labels-ConfirmsAll body true (λ n. n) 2 (select_coding ∷ []) (seconds 60) store
      only_one (tt, (λ n. tt), λ m n e. e)

-- Both succeed here.
run-confirms :
    (confirm_segment_label body true 11 2 select_coding (seconds 60) store).1.confirmations
    ≡ record {
      id = 11;
      account_id = 2;
      first_event_id = 3;
      segment_version = "editor";
      label_id = some 7;
      confirmed_at = seconds 60;
      updated_at = seconds 60;
    }
      ∷ []
unfolding confirm_segment_label find_segment observed effective_ended_at timeline_kind_at is_active
run-confirms = refl

run-confirms_all :
    (confirm_segment_labels body true
      (λ n. n)
      2
      (select_coding ∷ [])
      (seconds 60)
      store).1.confirmations
    ≡ record {
      id = 0;
      account_id = 2;
      first_event_id = 3;
      segment_version = "editor";
      label_id = some 7;
      confirmed_at = seconds 60;
      updated_at = seconds 60;
    }
      ∷ []
unfolding confirm_segment_labels find_segment observed effective_ended_at timeline_kind_at is_active
run-confirms_all = refl

abbrev labelable : ObservedSegment
labelable = record {
  id = 1;
  account_id = 2;
  first_event_id = 3;
  started_at = seconds 10;
  last_observed_at = some (seconds 40);
  reason = none;
  context = some (record { kind = some "detailed"; body = "editor" });
  ended_at = some (seconds 50);
  kind = closed_detailed_activity;
  version = some "editor";
}

run-find_labelable_segment : IsConfirmable body 2 select_coding (seconds 60) store labelable
unfolding find_labelable_segment find_segment observed effective_ended_at timeline_kind_at is_active
run-find_labelable_segment = (refl, refl, refl)

confirm_segment_label-succeeds_example :
    (state : SegmentLabelState) × ((confirm_segment_label body true 11 2 select_coding
        (seconds 60)
        store).0
      ≡ ok state)
confirm_segment_label-succeeds_example =
    confirm_segment_label-succeeds body 11 2 select_coding (seconds 60) store labelable
      run-find_labelable_segment (λ p e. absurd (cc))
