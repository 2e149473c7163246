-- ===== src/Labeling/Proposals.antt =====
-- src/mosemo/labeling/domain/proposals.py: the state machine of a label proposal.
-- A method that mutates the object returns the new object beside its result.
pub mod Invariant
pub mod Leases
pub mod Retries
pub mod Claims
mod Examples
use mosemo.Prelude.{
  ℕ, zero, suc, ◌+◌, String, Bool, true, false, not, ◌&&◌, ◌||◌, Option, none, some, List, [], ◌∷◌,
  ltb, leb, length, get_or, last?, Eq, nat_eq, option_eq, ◌==◌, if◌then◌else◌,
}
use mosemo.Shared.Time.{Instant, Span, Uuid, minutes}

abbrev pub proposal_retry_delays : List Span
proposal_retry_delays = minutes 1 ∷ minutes 5 ∷ []

abbrev pub max_proposal_attempts : ℕ
max_proposal_attempts = length proposal_retry_delays + 1

abbrev pub proposal_lease_duration : Span
proposal_lease_duration = minutes 2

pub data Status : Type 0 where
  processing failed ready superseded : Status

pub data ClaimResult : Type 0 where
  claimed waiting terminal : ClaimResult

pub record Completion : Type 0 where
  pub label_id : Option Uuid
  pub provider : String
  pub model : String
  pub prompt_version : String
  pub retrieved_example_ids : List String
  pub latency_ms : ℕ
  pub input_tokens : Option ℕ
  pub output_tokens : Option ℕ

-- `created_at` and `updated_at`, which the database sets, are left out.
pub record Proposal : Type 0 where
  pub id : Uuid
  pub account_id : Uuid
  pub first_event_id : Uuid
  pub segment_version : String
  pub status : Status
  pub suggested_label_id : Option Uuid
  pub attempt_count : ℕ
  pub lease_token : Option Uuid
  pub lease_expires_at : Option Instant
  pub next_attempt_at : Option Instant
  pub provider : Option String
  pub model : Option String
  pub prompt_version : Option String
  pub retrieved_example_ids : Option (List String)
  pub latency_ms : Option ℕ
  pub input_tokens : Option ℕ
  pub output_tokens : Option ℕ
  pub suggested_at : Option Instant

abbrev pub is_processing : Status → Bool
is_processing processing = true
is_processing _ = false

abbrev pub is_failed : Status → Bool
is_failed failed = true
is_failed _ = false

abbrev pub is_finished : Status → Bool
is_finished ready = true
is_finished superseded = true
is_finished _ = false

-- `at is not None and at > now`
abbrev pub is_after : Option Instant → Instant → Bool
is_after none now = false
is_after (some at) now = ltb now at

-- `at is not None and at <= now`
abbrev pub has_passed : Option Instant → Instant → Bool
has_passed none now = false
has_passed (some at) now = leb at now

-- `PROPOSAL_RETRY_DELAYS[attempt_count - 1]`; at 0 this reads the last entry, as Python's -1 does.
-- Past the end Python raises: the caller tests for that first, and the 0 here is never read.
abbrev pub retry_delay : ℕ → Span
retry_delay zero = elim (last? proposal_retry_delays) [ none ↦ 0 | some d ↦ d ]
retry_delay (suc n) = get_or proposal_retry_delays n 0

abbrev pub clear_lease : Proposal → Proposal
clear_lease p = record p { lease_token = none; lease_expires_at = none }

unfoldable pub record_failure : Instant → Proposal → Proposal
record_failure now p = clear_lease (record p {
  status = failed;
  next_attempt_at =
      if ltb p.attempt_count max_proposal_attempts
      then some (now + retry_delay p.attempt_count)
      else none;
})

unfoldable pub has_active_lease : Proposal → Instant → Bool
has_active_lease p now = is_processing p.status && is_after p.lease_expires_at now

unfoldable pub has_expired_lease : Proposal → Instant → Bool
has_expired_lease p now = is_processing p.status && has_passed p.lease_expires_at now

unfoldable pub is_owned_by : Proposal → Uuid → Bool
is_owned_by p token = is_processing p.status && (p.lease_token == some token)

abbrev pub owns_attempt : Proposal → Uuid → Bool
owns_attempt = is_owned_by

-- `self.status is FAILED and self.next_attempt_at is not None and self.next_attempt_at > now`
abbrev pub backs_off : Proposal → Instant → Bool
backs_off p now = is_failed p.status && is_after p.next_attempt_at now

unfoldable pub try_start_attempt : Instant → Uuid → Proposal → Proposal × ClaimResult
unfolding has_active_lease record_failure
try_start_attempt now token p =
    if is_finished p.status
    then (p, terminal)
    else if leb max_proposal_attempts p.attempt_count
    then (if has_active_lease p now
        then (p, waiting)
        else if is_processing p.status
        then (record_failure now p, terminal)
        else (p, terminal))
    else if has_active_lease p now || backs_off p now
    then (p, waiting)
    else (
      record p {
        status = processing;
        attempt_count = p.attempt_count + 1;
        lease_token = some token;
        lease_expires_at = some (now + proposal_lease_duration);
        next_attempt_at = none;
      },
      claimed,
    )

unfoldable pub needs_worker_attention : Proposal → Instant → Bool
unfolding has_active_lease
needs_worker_attention p now =
    if is_finished p.status
    then false
    else if is_processing p.status
    then not (has_active_lease p now)
    else ltb p.attempt_count max_proposal_attempts && not (is_after p.next_attempt_at now)

unfoldable pub fail_attempt : Uuid → Instant → Proposal → Proposal × Bool
unfolding is_owned_by record_failure
fail_attempt token now p = if is_owned_by p token then (record_failure now p, true) else (p, false)

unfoldable pub supersede_attempt : Uuid → Proposal → Proposal × Bool
unfolding is_owned_by
supersede_attempt token p =
    if is_owned_by p token
    then (clear_lease (record p { status = superseded }), true)
    else (p, false)

unfoldable pub complete_attempt : Uuid → Completion → Instant → Proposal → Proposal × Bool
unfolding is_owned_by
complete_attempt token completion now p =
    if is_owned_by p token
    then (
      clear_lease (record p {
        status = ready;
        suggested_label_id = completion.label_id;
        provider = some completion.provider;
        model = some completion.model;
        prompt_version = some completion.prompt_version;
        retrieved_example_ids = some completion.retrieved_example_ids;
        latency_ms = some completion.latency_ms;
        input_tokens = completion.input_tokens;
        output_tokens = completion.output_tokens;
        suggested_at = some now;
      }),
      true,
    )
    else (p, false)

-- The object as `ProposalAttempts.claim` constructs it for a version without one.
abbrev pub fresh : Uuid → Uuid → Uuid → String → Proposal
fresh id account_id first_event_id version = record {
  id = id;
  account_id = account_id;
  first_event_id = first_event_id;
  segment_version = version;
  status = processing;
  suggested_label_id = none;
  attempt_count = 0;
  lease_token = none;
  lease_expires_at = none;
  next_attempt_at = none;
  provider = none;
  model = none;
  prompt_version = none;
  retrieved_example_ids = none;
  latency_ms = none;
  input_tokens = none;
  output_tokens = none;
  suggested_at = none;
}
