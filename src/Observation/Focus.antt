-- ===== src/Observation/Focus.antt =====
-- src/mosemo/observation: focus sessions (domain/focus_sessions.py, application/focus_sessions.py and
-- infrastructure/focus_sessions.py).
pub mod Sessions
pub mod Links
mod Examples
use Prim.Native.Nat.{max}
use mosemo.Prelude.{
  ℕ, ◌-◌, String, Bool, true, false, not, ◌&&◌, ◌||◌, Option, none, some, List, [], ◌∷◌, ◌++◌, ℤ,
  pos, negsuc, int_eq, Eq, nat_eq, string_eq, option_eq, ◌==◌, ltb, leb, find, replace, is_some,
  Result, ok, err, ◌>>=◌, ◌>>◌, guard, require, unit_of_work, if◌then◌else◌,
}
use mosemo.Shared.Time.{Instant, Span, Uuid, seconds}
use mosemo.Labels.{Label, is_active}
use mosemo.Identity.{Device, find_owned_device}
use mosemo.Observation.Activities.{ActivityRecord}

pub data FocusError : Type 0 where
  focus_session_not_found focus_session_conflict focus_session_invalid_time : FocusError
  activity_device_not_found label_not_available : FocusError

pub record FocusSession : Type 0 where
  pub id : Uuid
  pub account_id : Uuid
  pub device_id : Uuid
  pub started_at : Instant
  pub ended_at : Option Instant
  pub target_seconds : ℤ
  pub work_seconds : Option ℤ
  pub label_id : Option Uuid
  pub description : String

pub record FocusSessionCompletion : Type 0 where
  pub ended_at : Instant
  pub work_seconds : ℤ
  pub label_id : Uuid
  pub description : String

abbrev pub is_negative : ℤ → Bool
is_negative (pos n) = false
is_negative (negsuc n) = true

-- `seconds > span.total_seconds()`
abbrev pub exceeds : ℤ → Span → Bool
exceeds (pos n) span = ltb span (seconds n)
exceeds (negsuc n) span = false

-- `target > 0 and work > target`
abbrev pub over_target : ℤ → ℤ → Bool
over_target (pos target) (pos work) = ltb 0 target && ltb target work
over_target _ _ = false

unfoldable pub has_same_start : FocusSession → FocusSession → Bool
has_same_start a b =
    (a.device_id == b.device_id)
    && (a.started_at == b.started_at)
    && (a.target_seconds == b.target_seconds)

abbrev pub is_before : Instant → Option Instant → Bool
is_before t none = false
is_before t (some u) = ltb t u

abbrev pub is_completed_as : FocusSessionCompletion → FocusSession → Bool
is_completed_as c s =
    (s.ended_at == some c.ended_at)
    && (s.work_seconds == some c.work_seconds)
    && (s.label_id == some c.label_id)
    && (s.description == c.description)

abbrev pub has_invalid_time : FocusSessionCompletion → Option Instant → FocusSession → Bool
has_invalid_time c last s =
    is_negative c.work_seconds
    || ltb c.ended_at s.started_at
    || is_before c.ended_at last
    || exceeds c.work_seconds (c.ended_at - s.started_at)

unfoldable pub complete :
    FocusSessionCompletion → Option Instant → FocusSession → Result FocusError FocusSession
complete c last s =
    if is_some s.ended_at
    then guard (is_completed_as c s) focus_session_conflict >> ok s
    else if has_invalid_time c last s
    then err focus_session_invalid_time
    else if over_target s.target_seconds c.work_seconds
    then err focus_session_invalid_time
    else ok (record s {
      ended_at = some c.ended_at;
      work_seconds = some c.work_seconds;
      label_id = some c.label_id;
      description = c.description;
    })

unfoldable pub validate_activity :
    Uuid → Uuid → Instant → FocusSession → Result FocusError (Unit {0})
validate_activity account device observed s =
    if not (s.account_id == account) || not (s.device_id == device)
    then err focus_session_not_found
    else if ltb observed s.started_at
        || (elim s.ended_at [ none ↦ false | some ended ↦ ltb ended observed ])
    then err focus_session_invalid_time
    else ok tt

-- The tables that the use cases of focus sessions read and write.
pub record FocusStore : Type 0 where
  pub sessions : List FocusSession
  pub records : List ActivityRecord
  pub devices : List Device
  pub labels : List Label

-- `FocusSessionRepository.find_owned`
abbrev pub find_owned : List FocusSession → Uuid → Uuid → Option FocusSession
find_owned sessions account id = find (λ s. (s.account_id == account) && (s.id == id)) sessions

-- The row that starting a session inserts.
abbrev pub inserted : FocusSession → FocusSession
inserted s = record s { ended_at = none; work_seconds = none; label_id = none; description = "" }

-- `FocusSessionRepository.get_or_create`: the stored session and whether this call created it.
abbrev pub get_or_create :
    FocusSession → List FocusSession → FocusSession × Bool × List FocusSession
get_or_create s sessions = elim (find (λ t. t.id == s.id) sessions) [
  | none ↦ (inserted s, true, sessions ++ inserted s ∷ [])
  | some stored ↦ (stored, false, sessions)
]

abbrev pub later : Instant → Option Instant → Option Instant
later t none = some t
later t (some u) = some (max t u)

-- `ActivityRecordRepository.find_last_observed_at`
unfoldable pub find_last_observed_at : List ActivityRecord → Uuid → Option Instant
find_last_observed_at [] focus = none
find_last_observed_at (r ∷ records) focus =
    let rest = find_last_observed_at records focus in
    if r.focus_session_id == some focus then later r.observed_at rest else rest

-- `FocusSessionLinks.validate`
unfoldable pub validate_link :
    Uuid → ActivityRecord → List FocusSession → Result FocusError (Unit {0})
unfolding validate_activity
validate_link account r sessions = elim r.focus_session_id [
  | none ↦ ok tt
  | some focus ↦ require (find_owned sessions account focus) focus_session_not_found >>= λ s.
      validate_activity account r.device_id r.observed_at s
]

abbrev pub started :
    FocusSession
    → FocusSession × Bool × List FocusSession
    → FocusStore
    → Result FocusError (FocusSession × FocusStore)
started s (stored, created, sessions) store =
    if not created && (not (stored.account_id == s.account_id) || not (has_same_start stored s))
    then err focus_session_conflict
    else ok (stored, record store { sessions = sessions })

-- The transaction of `StartFocusSession.execute`.
abbrev pub start : FocusSession → FocusStore → Result FocusError (FocusSession × FocusStore)
start s store = do
  owned ←
      require (find_owned_device store.devices s.account_id s.device_id) activity_device_not_found
  started s (get_or_create s store.sessions) store

-- `StartFocusSession.execute`
unfoldable pub start_focus_session :
    FocusSession → FocusStore → Result FocusError FocusSession × FocusStore
unfolding find_owned_device has_same_start
start_focus_session s store = unit_of_work (start s) store

-- `stored.complete(…)`, flushed to the session's row.
abbrev pub update : FocusSession → List FocusSession → List FocusSession
update s sessions = replace (λ t. t.id == s.id) (λ t. s) sessions

abbrev pub complete_session :
    Uuid
    → Uuid
    → FocusSessionCompletion
    → FocusStore
    → Result FocusError (FocusSession × FocusStore)
complete_session account focus c store = do
  stored ← require (find_owned store.sessions account focus) focus_session_not_found
  guard (is_some stored.ended_at || is_active store.labels account c.label_id) label_not_available
  done ← complete c (find_last_observed_at store.records focus) stored
  ok (done, record store { sessions = update done store.sessions })

-- `CompleteFocusSession.execute`
unfoldable pub complete_focus_session :
    Uuid → Uuid → FocusSessionCompletion → FocusStore → Result FocusError FocusSession × FocusStore
unfolding complete find_last_observed_at
complete_focus_session account focus c store = unit_of_work (complete_session account focus c) store

-- The CHECK constraints of the table `focus_sessions`.
abbrev pub work_checks : FocusSession → Instant → ℤ → Bool
work_checks s ended work =
    not (is_negative work)
    && leb s.started_at ended
    && is_some s.label_id
    && not (exceeds work (ended - s.started_at))
    && not (over_target s.target_seconds work)

abbrev pub completion_checks : FocusSession → Option Instant → Option ℤ → Bool
completion_checks s none none = true
completion_checks s (some ended) (some work) = work_checks s ended work
completion_checks s none (some work) = false
completion_checks s (some ended) none = false

unfoldable pub satisfies_checks : FocusSession → Bool
satisfies_checks s =
    not (is_negative s.target_seconds) && completion_checks s s.ended_at s.work_seconds
