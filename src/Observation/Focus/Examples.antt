-- ===== src/Observation/Focus/Examples.antt =====
-- The theorems on focus sessions, at a concrete session.
use mosemo.Prelude.{◌≡◌, refl, none, some, [], ◌∷◌, pos, ok}
use mosemo.Shared.Time.{minutes}
use mosemo.Labels.{is_active}
use mosemo.Observation.Focus.{
  FocusSession, FocusSessionCompletion, FocusStore, complete, complete_focus_session,
}
use mosemo.Observation.Focus.Sessions.{completed}
use mosemo.Observation.Focus.Links.{Completes, complete_focus_session-Completes}

abbrev begun : FocusSession
begun = record {
  id = 1;
  account_id = 2;
  device_id = 3;
  started_at = minutes 100;
  ended_at = none;
  target_seconds = pos 1500;
  work_seconds = none;
  label_id = none;
  description = "";
}

abbrev work : FocusSessionCompletion
work = record {
  ended_at = minutes 125;
  work_seconds = pos 1400;
  label_id = 7;
  description = "done";
}

abbrev more : FocusSessionCompletion
more = record {
  ended_at = minutes 125;
  work_seconds = pos 1500;
  label_id = 7;
  description = "done";
}

run-complete : complete work (some (minutes 110)) begun ≡ ok (completed work begun)
unfolding complete
run-complete = refl

abbrev store : FocusStore
store = record {
  sessions = begun ∷ [];
  records = [];
  devices = [];
  labels = record { id = 7; account_id = 2; display_name = "코딩"; archived_at = none } ∷ [];
}

complete_focus_session-Completes_example :
    Completes 2 1 work store (complete_focus_session 2 1 work store)
complete_focus_session-Completes_example = complete_focus_session-Completes 2 1 work store

run-complete_focus_session : (complete_focus_session 2 1 work store).0 ≡ ok (completed work begun)
unfolding complete_focus_session is_active
run-complete_focus_session = refl
