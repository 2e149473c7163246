-- ===== src/Labeling/Proposals/Invariant.antt =====
-- The invariant of a stored proposal (labeling/domain/proposals.py), and that no history breaks it.
use mosemo.Prelude.{◌≤◌, ◌≡◌, true, none, arith, is_some, ltb, String}
use mosemo.Shared.Time.{Instant, Uuid}
use mosemo.Labeling.Proposals.{
  Status, processing, failed, ready, superseded, Proposal, Completion, claimed,
  max_proposal_attempts, try_start_attempt, fail_attempt, supersede_attempt, complete_attempt,
  fresh,
}

-- What the columns hold in each status.
abbrev pub Columns : Status → Proposal → Type 0
Columns processing p =
    (is_some p.lease_token ≡ true)
    × (is_some p.lease_expires_at ≡ true)
    × (p.next_attempt_at ≡ none)
Columns failed p =
    (p.lease_token ≡ none)
    × (p.lease_expires_at ≡ none)
    × (is_some p.next_attempt_at ≡ ltb p.attempt_count max_proposal_attempts)
Columns ready p =
    (p.lease_token ≡ none)
    × (p.lease_expires_at ≡ none)
    × (p.next_attempt_at ≡ none)
    × (is_some p.suggested_at ≡ true)
Columns superseded p =
    (p.lease_token ≡ none) × (p.lease_expires_at ≡ none) × (p.next_attempt_at ≡ none)

pub record IsValid (p : Proposal) : Type 0 where
  pub started : 1 ≤ p.attempt_count
  pub bounded : p.attempt_count ≤ max_proposal_attempts
  pub columns : Columns p.status p

-- The calls that the program makes on a stored proposal.
pub data Step : Proposal → Proposal → Type 0 where
  start : {p : Proposal} (now : Instant) (token : Uuid) → Step p (try_start_attempt now token p).0
  fail : {p : Proposal} (token : Uuid) (now : Instant) → Step p (fail_attempt token now p).0
  supersede : {p : Proposal} (token : Uuid) → Step p (supersede_attempt token p).0
  complete :
      {p : Proposal} (token : Uuid) (completion : Completion) (now : Instant)
      → Step p (complete_attempt token completion now p).0

pub data Reach (p : Proposal) : Proposal → Type 0 where
  here : Reach p p
  next : {q r : Proposal} → Reach p q → Step q r → Reach p r

try_start_attempt-IsValid :
    (now : Instant) (token : Uuid) (p : Proposal)
    → IsValid p
    → IsValid (try_start_attempt now token p).0
unfolding try_start_attempt
try_start_attempt-IsValid now token p v = ground arith

fail_attempt-IsValid :
    (token : Uuid) (now : Instant) (p : Proposal) → IsValid p → IsValid (fail_attempt token now p).0
unfolding fail_attempt
fail_attempt-IsValid token now p v = ground arith

supersede_attempt-IsValid :
    (token : Uuid) (p : Proposal) → IsValid p → IsValid (supersede_attempt token p).0
unfolding supersede_attempt
supersede_attempt-IsValid token p v = ground arith

complete_attempt-IsValid :
    (token : Uuid) (completion : Completion) (now : Instant) (p : Proposal)
    → IsValid p
    → IsValid (complete_attempt token completion now p).0
unfolding complete_attempt
complete_attempt-IsValid token completion now p v = ground arith

-- Every call keeps the invariant.
pub Step-IsValid : {p q : Proposal} → Step p q → IsValid p → IsValid q
Step-IsValid {p} (start now token) v = try_start_attempt-IsValid now token p v
Step-IsValid {p} (fail token now) v = fail_attempt-IsValid token now p v
Step-IsValid {p} (supersede token) v = supersede_attempt-IsValid token p v
Step-IsValid {p} (complete token completion now) v =
    complete_attempt-IsValid token completion now p v

pub Reach-IsValid : {p q : Proposal} → Reach p q → IsValid p → IsValid q
Reach-IsValid here v = v
Reach-IsValid (next r s) v = Step-IsValid s (Reach-IsValid r v)

-- The first claim of a new proposal succeeds.
pub try_start_attempt-fresh :
    (id account event : Uuid) (version : String) (now : Instant) (token : Uuid)
    → let (p, result) = try_start_attempt now token (fresh id account event version) in
      (result ≡ claimed) × IsValid p × (p.attempt_count ≡ 1)
unfolding try_start_attempt
try_start_attempt-fresh id account event version now token = ground arith

-- A proposal is stored only after the first claim of a fresh one. From there, in whatever order the
-- four calls come and whatever their tokens and times are, the columns agree with the status: a
-- lease exactly while processing, a time for the next attempt exactly after a failure that is not
-- the last, a suggestion time when ready, and one to three attempts.
pub history-IsValid :
    (id account event : Uuid) (version : String) (now : Instant) (token : Uuid) {q : Proposal}
    → Reach (try_start_attempt now token (fresh id account event version)).0 q
    → IsValid q
history-IsValid id account event version now token r =
    Reach-IsValid r (try_start_attempt-fresh id account event version now token).1
