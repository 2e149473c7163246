-- ===== src/Labeling/Confirmations/Selections.antt =====
-- What a selection does to a confirmation (labeling/domain/confirmations.py).
use mosemo.Prelude.{
  ◌≡◌, ◌≢◌, ◌≤◌, ◌<◌, ◌↔◌, ◌⊎◌, String, true, false, Option, nat_eq, string_eq, option_eq, ==_iff,
  arith,
}
use mosemo.Shared.Time.{Instant, Uuid}
use mosemo.Labeling.Confirmations.{
  Confirmation, applies_to, matches_batch_selection, accepts_batch_selection, apply_selection,
}

-- After a selection the confirmation applies to the selected version with the selected label; it
-- belongs to the same segment; and it was updated later than before, unless it already said so, in
-- which case nothing changed at all.
pub apply_selection_lem :
    (version : String) (label : Option Uuid) (now : Instant) (c : Confirmation)
    → let d = apply_selection version label now c in
      (matches_batch_selection d version label ≡ true)
      × (d.id ≡ c.id)
      × (d.account_id ≡ c.account_id)
      × (d.first_event_id ≡ c.first_event_id)
      × (((matches_batch_selection c version label ≡ true) × (d ≡ c))
          ⊎ ((matches_batch_selection c version label ≡ false)
              × (c.updated_at < d.updated_at)
              × (now ≤ d.updated_at)))
unfolding apply_selection matches_batch_selection
apply_selection_lem version label now c = ground (
  arith,
  ==_iff c.segment_version version,
  ==_iff c.label_id label,
  ==_iff version version,
  ==_iff label label,
)

-- A repeated selection changes nothing, at whatever time it comes.
pub apply_selection-twice :
    (version : String) (label : Option Uuid) (now later : Instant) (c : Confirmation)
    → apply_selection version label later (apply_selection version label now c)
      ≡ apply_selection version label now c
unfolding apply_selection
apply_selection-twice version label now later c = ground (
  arith,
  ==_iff c.segment_version version,
  ==_iff c.label_id label,
  ==_iff version version,
  ==_iff label label,
)

-- A batch refuses a selection exactly when the confirmation already applies to the version with
-- another label.
pub accepts_batch_selection_iff :
    (version : String) (label : Option Uuid) (c : Confirmation)
    → (accepts_batch_selection c version label ≡ false)
      ↔ ((applies_to c version ≡ true) × (c.label_id ≢ label))
unfolding accepts_batch_selection applies_to
accepts_batch_selection_iff version label c = (
  λ h. ground (arith, ==_iff c.segment_version version, ==_iff c.label_id label),
  λ h. ground (arith, ==_iff c.segment_version version, ==_iff c.label_id label),
)
