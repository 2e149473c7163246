-- ===== src/Hooks/StopGate.antt =====
-- src/.codex/hooks/stop_gate.py: whether an agent may stop. The state file is what the hook itself
-- wrote, where it could be read and written, and git and the commands that it runs are arguments.
pub mod Capped
pub mod Passing
mod Examples
use mosemo.Prelude.{
  ℕ, zero, suc, String, ltb, Bool, true, false, not, ◌||◌, Option, none, some, List, [], ◌∷◌, ◌++◌,
  map, string_eq, option_eq, ◌==◌, any, find, if◌then◌else◌,
}

-- `Failure`, without its command and output.
pub record Failure : Type 0 where
  pub name : String
  pub items : List String
  pub broken : Bool

pub record Outcome : Type 0 where
  pub code : ℕ
  pub result : String
  pub failures : List Failure

-- `record["blocked"]`
pub record Blocked : Type 0 where
  pub failure : String
  pub change : Option String
  pub count : ℕ

-- What the state file keeps of a session; a missing `blocks` is 0.
pub record SessionRecord : Type 0 where
  pub passed : Option String
  pub blocked : Option Blocked
  pub blocks : ℕ

abbrev pub State : Type 0
State = List (String × SessionRecord)

abbrev pub max_blocks : ℕ
max_blocks = 3

-- The names of `STYLE_CHECKS`.
abbrev pub style_checks : List String
style_checks =
    "ruff check" ∷ "complexipy" ∷ "validate_conventions" ∷ "validate_architecture" ∷ "ty check"
    ∷ "lint-imports" ∷ []

abbrev pub session_record : State → String → SessionRecord
session_record [] session = record { passed = none; blocked = none; blocks = 0 }
session_record (entry ∷ state) session =
    let rest = session_record state session in if entry.0 == session then entry.1 else rest

-- `state[session] = record`
abbrev pub set_record : State → String → SessionRecord → State
set_record [] session r = (session, r) ∷ []
set_record (entry ∷ state) session r =
    let rest = set_record state session r in
    if entry.0 == session then (session, r) ∷ state else entry ∷ rest

abbrev pub passed_or : Option String → Option String → Option String
passed_or none old = old
passed_or (some new) old = some new

-- `allow`, which returns 0: the state that it saves.
unfoldable pub allow : State → String → Option String → State
allow state session passed_change =
    let r = session_record state session in
    set_record state session
      (record r { blocked = none; passed = passed_or passed_change r.passed })

-- A stop as the hook sees it: the changed Python paths, whether one still is a file, the fingerprint
-- of the change after formatting and after the checks, and how each check ends.
pub record Stop : Type 0 where
  pub python_paths : List String
  pub some_exist : Bool
  pub formatted : String
  pub checked : String
  pub run_check : String → Option Failure

abbrev pub is_empty {ℓ} : {A : Type ℓ} → List A → Bool
is_empty [] = true
is_empty (x ∷ xs) = false

abbrev pub failure_list : Option Failure → List Failure
failure_list none = []
failure_list (some f) = f ∷ []

abbrev pub add_failure : Option Failure → List Failure → List Failure
add_failure none rest = rest
add_failure (some f) rest = if f.broken then f ∷ [] else f ∷ rest

-- The loop of `style_failures` over the checks.
abbrev pub run_checks : (String → Option Failure) → List String → List Failure
run_checks run_check [] = []
run_checks run_check (name ∷ names) = add_failure (run_check name) (run_checks run_check names)

abbrev pub or_tests : (String → Option Failure) → List Failure → List Failure
or_tests run_check [] = failure_list (run_check "pytest")
or_tests run_check (f ∷ failures) = f ∷ failures

unfoldable pub style_failures : (String → Option Failure) → List Failure
style_failures run_check = or_tests run_check (run_checks run_check style_checks)

abbrev pub change_of : Option Blocked → Option String
change_of none = none
change_of (some b) = b.change

-- `fingerprint in known`
abbrev pub is_known : SessionRecord → String → Bool
is_known r fingerprint = (r.passed == some fingerprint) || (change_of r.blocked == some fingerprint)

-- `digest` is SHA-256 of the JSON of the sorted names and items.
module _ (digest : List (String × List String) → String) where
  abbrev pub failure_fingerprint : List Failure → String
  failure_fingerprint failures = digest (map (λ f. (f.name, f.items)) failures)

  abbrev pub block_count : Option Blocked → String → ℕ
  block_count none fingerprint = 1
  block_count (some previous) fingerprint =
      if previous.failure == fingerprint then suc previous.count else 1

  -- `block`: the exit code, and the state that it saves.
  unfoldable pub block : State → String → List Failure → Option String → ℕ × State
  unfolding allow
  block state session failures change =
      let r = session_record state session in
      let fingerprint = failure_fingerprint failures in
      let count = block_count r.blocked fingerprint in
      if ltb max_blocks count then (0, allow state session none) else (
        2,
        set_record state session (record r {
          blocked = some (record { failure = fingerprint; change = change; count = count });
          blocks = suc r.blocks;
        }),
      )

  abbrev pub block_result : ℕ → List Failure → String
  block_result zero failures = "capped"
  block_result (suc code) failures = if any (λ f. f.broken) failures then "error" else "block"

  unfoldable pub block_outcome : State → String → List Failure → Option String → Outcome × State
  unfolding block
  block_outcome state session failures change =
      let (code, saved) = block state session failures change in
      (record { code = code; result = block_result code failures; failures = failures }, saved)

  abbrev pub passes : String → Outcome
  passes result = record { code = 0; result = result; failures = [] }

  abbrev pub conclude : State → String → List Failure → String → Outcome × State
  conclude state session [] change = (passes "allow", allow state session (some change))
  conclude state session (f ∷ failures) change =
      block_outcome state session (f ∷ failures) (some change)

  abbrev pub checked_failures : Stop → List Failure → List Failure
  checked_failures stop failures =
      if any (λ f. f.broken) failures then failures else failures ++ style_failures stop.run_check

  unfoldable pub gate : State → String → Stop → Outcome × State
  unfolding allow block_outcome style_failures
  gate state session stop =
      let formatting = if stop.some_exist then stop.run_check "ruff format" else none in
      if is_empty stop.python_paths
      then (passes "skip", allow state session none)
      else if is_known (session_record state session) stop.formatted
      then (passes "cached", allow state session none)
      else conclude state session (checked_failures stop (failure_list formatting)) stop.checked

  -- The stops of several sessions, one after another: the outcome of each.
  unfoldable pub gates : State → List (String × Stop) → List (String × Outcome)
  unfolding gate
  gates state [] = []
  gates state ((session, stop) ∷ stops) =
      let (outcome, saved) = gate state session stop in (session, outcome) ∷ gates saved stops
