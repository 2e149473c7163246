-- ===== src/Labeling/Confirmations.antt =====
-- src/mosemo/labeling/domain/confirmations.py: the confirmed label of a segment.
pub mod Selections
use Prim.Native.Nat.{max}
use mosemo.Prelude.{
  ℕ, ◌+◌, String, Bool, true, false, not, ◌&&◌, ◌||◌, Option, Eq, nat_eq, string_eq, option_eq,
  ◌==◌, if◌then◌else◌,
}
use mosemo.Shared.Time.{Instant, Uuid}

pub data LabelError : Type 0 where
  segment_not_found segment_not_labelable segment_changed label_unavailable : LabelError
  confirmation_conflict segment_duplicate timeline_busy assertion_failed : LabelError

-- `label_id` `none` is unclassified.
pub record Confirmation : Type 0 where
  pub id : Uuid
  pub account_id : Uuid
  pub first_event_id : Uuid
  pub segment_version : String
  pub label_id : Option Uuid
  pub confirmed_at : Instant
  pub updated_at : Instant

unfoldable pub applies_to : Confirmation → String → Bool
applies_to c version = c.segment_version == version

unfoldable pub matches_batch_selection : Confirmation → String → Option Uuid → Bool
matches_batch_selection c version label = (c.segment_version == version) && (c.label_id == label)

unfoldable pub accepts_batch_selection : Confirmation → String → Option Uuid → Bool
unfolding matches_batch_selection
accepts_batch_selection c version label =
    not (c.segment_version == version) || matches_batch_selection c version label

unfoldable pub apply_selection : String → Option Uuid → Instant → Confirmation → Confirmation
apply_selection version label now c =
    if (c.segment_version == version) && (c.label_id == label)
    then c
    else let changed_at = max now (c.updated_at + 1) in
      if not (c.segment_version == version)
      then record c {
        segment_version = version;
        label_id = label;
        confirmed_at = changed_at;
        updated_at = changed_at;
      }
      else record c { label_id = label; updated_at = changed_at }
