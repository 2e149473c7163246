-- ===== src/Observation/Activities.antt =====
-- src/mosemo/observation/domain/activities.py: the records that a device sends.
-- A context is a JSON object: its `kind`, and the canonical text of its other fields. A payload is
-- a dict of which the program reads three keys; a missing key is `none`.
use mosemo.Prelude.{
  ℕ, ◌≡◌, ◌↔◌, String, Bool, true, false, ◌&&◌, Option, none, some, Eq, ℤ, int_eq, nat_eq,
  string_eq, option_eq, ◌==◌, ==_iff, leb, if◌then◌else◌, arith,
}
use mosemo.Shared.Time.{Instant, Span, Uuid, seconds, Timezone, timezone_eq}

abbrev pub max_observation_gap : Span
max_observation_gap = seconds 60

pub data RecordType : Type 0 where
  activity_observation collection_state_changed : RecordType

pub data CollectionState : Type 0 where
  active suspended : CollectionState

pub record Context : Type 0 where
  pub kind : Option String
  pub body : String

abbrev pub context_beq : Context → Context → Bool
context_beq a b = (a.kind == b.kind) && (a.body == b.body)

pub context_beq_iff : (a b : Context) → (context_beq a b ≡ true) ↔ (a ≡ b)
context_beq_iff a b = (
  λ h. ground (arith, ==_iff a.kind b.kind, ==_iff a.body b.body),
  λ h. ground (arith, ==_iff a.kind b.kind, ==_iff a.body b.body),
)

instance abbrev pub context_eq : Eq Context
context_eq = record { equals = context_beq; equals_iff = context_beq_iff }

pub record Payload : Type 0 where
  pub context : Option Context
  pub state : Option String
  pub reason : Option String

abbrev pub record_type_beq : RecordType → RecordType → Bool
record_type_beq activity_observation activity_observation = true
record_type_beq collection_state_changed collection_state_changed = true
record_type_beq _ _ = false

-- `received_at`, which the database sets, is left out.
pub record ActivityRecord : Type 0 where
  pub event_id : Uuid
  pub device_id : Uuid
  pub focus_session_id : Option Uuid
  pub sequence : ℕ
  pub record_type : RecordType
  pub observed_at : Instant
  pub timezone_id : Timezone
  pub utc_offset_minutes : ℤ
  pub payload : Payload

unfoldable pub has_same_content : ActivityRecord → ActivityRecord → Bool
has_same_content a b =
    (a.event_id == b.event_id)
    && (a.device_id == b.device_id)
    && (a.focus_session_id == b.focus_session_id)
    && (a.sequence == b.sequence)
    && record_type_beq a.record_type b.record_type
    && (a.observed_at == b.observed_at)
    && (a.timezone_id == b.timezone_id)
    && (a.utc_offset_minutes == b.utc_offset_minutes)
    && (a.payload.context == b.payload.context)
    && (a.payload.state == b.payload.state)
    && (a.payload.reason == b.payload.reason)

-- `previous is None or previous <= at`, and `following is None or at <= following`.
abbrev pub no_later : Option Instant → Instant → Bool
no_later none at = true
no_later (some t) at = leb t at

abbrev pub no_earlier : Option Instant → Instant → Bool
no_earlier none at = true
no_earlier (some t) at = leb at t

unfoldable pub is_in_device_order : ActivityRecord → Option Instant → Option Instant → Bool
is_in_device_order r previous following =
    no_later previous r.observed_at && no_earlier following r.observed_at

-- `CollectionState(value)`, which raises a `ValueError` on any other text.
abbrev pub collection_state : String → Option CollectionState
collection_state s =
    if s == "active" then some active else if s == "suspended" then some suspended else none
