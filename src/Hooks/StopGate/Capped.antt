-- ===== src/Hooks/StopGate/Capped.antt =====
-- How often the hook blocks for the same failures (`block` and `gate` of .codex/hooks/stop_gate.py).
use mosemo.Prelude.{
  ℕ, suc, ◌+◌, ◌≤◌, ◌≡◌, ◌⊎◌, inl, inr, refl, ap, sym, ◌∙◌, subst, String, ltb, Bool, true, false,
  Bool-cases, Option, none, some, List, [], ◌∷◌, string_eq, ◌==◌, ==_iff, ==_refl, arith, All, keep,
  length, if◌then◌else◌,
}
use mosemo.Hooks.StopGate.{
  Failure, Outcome, Blocked, SessionRecord, State, max_blocks, session_record, set_record, allow,
  Stop, is_empty, failure_list, is_known, failure_fingerprint, block_count, block, block_outcome,
  passes, conclude, checked_failures, gate, gates,
}

session_record-set_record :
    (state : State) (session : String) (r : SessionRecord)
    → session_record (set_record state session r) session ≡ r
session_record-set_record [] session r = rw (==_refl session) refl
session_record-set_record (entry ∷ state) session r = elim (Bool-cases (entry.0 == session)) [
  | inl e ↦ rw (e, ==_refl session) refl
  | inr e ↦ rw (e, e) (session_record-set_record state session r)
]

session_record-others :
    (state : State) (session other : String) (r : SessionRecord)
    → (other == session) ≡ false
    → session_record (set_record state other r) session ≡ session_record state session
session_record-others [] session other r h = rw h refl
session_record-others (entry ∷ state) session other r h = elim (Bool-cases (entry.0 == other)) [
  | inl e ↦
      let same : entry.0 ≡ other = (==_iff entry.0 other).0 e in
      let differs : (entry.0 == session) ≡ false = rw same h in rw (e, h, differs) refl
  | inr e ↦ rw e (
      ap (λ rest. if entry.0 == session then entry.1 else rest)
        (session_record-others state session other r h))
]

-- How often the last stops in a row of a session were blocked for these failures.
abbrev level : String → SessionRecord → ℕ
level fingerprint r = elim r.blocked [
  | none ↦ 0
  | some b ↦ if b.failure == fingerprint then b.count else 0
]

module _ (digest : List (String × List String) → String) where
  -- A stop saves the record of its session only, and a blocked one counts for its failures.
  abbrev Saves : State → String → Outcome × State → Type 0
  Saves state session (outcome, saved) =
      (r : SessionRecord) × (saved ≡ set_record state session r)
      × (outcome.code ≡ 2
          → (level (failure_fingerprint digest outcome.failures) r
              ≡ suc (
                  level (failure_fingerprint digest outcome.failures)
                    (session_record state session)))
            × (level (failure_fingerprint digest outcome.failures) r ≤ max_blocks))

  block_count-level :
      (r : SessionRecord) (fingerprint : String)
      → block_count digest r.blocked fingerprint ≡ suc (level fingerprint r)
  block_count-level r fingerprint = by_blocked r.blocked
    where
      by_blocked :
          (o : Option Blocked)
          → block_count digest o fingerprint
            ≡ suc (elim o [ none ↦ 0 | some b ↦ if b.failure == fingerprint then b.count else 0 ])
      by_blocked none = refl
      by_blocked (some b) = ground arith

  allow-Saves :
      (state : State) (session : String) (outcome : Outcome) (change : Option String)
      → outcome.code ≡ 0
      → Saves state session (outcome, allow state session change)
  unfolding allow
  allow-Saves state session outcome change h = (_, refl, λ e. absurd (omega arith))

  block_outcome-Saves :
      (state : State) (session : String) (failures : List Failure) (change : Option String)
      → Saves state session (block_outcome digest state session failures change)
  unfolding block_outcome block
  block_outcome-Saves state session failures change =
      let r = session_record state session in
      let fingerprint = failure_fingerprint digest failures in
      elim (Bool-cases (ltb max_blocks (block_count digest r.blocked fingerprint))) [
        | inl e ↦ rw e (
            allow-Saves state session (record { code = 0; result = "capped"; failures = failures })
              none refl)
        | inr e ↦ rw e (
          _,
          refl,
          λ code.
              let count = block_count-level r fingerprint in
              (rw (==_refl fingerprint) count, rw (==_refl fingerprint) (ground arith)),
        )
      ]

  gate-Saves :
      (state : State) (session : String) (stop : Stop)
      → Saves state session (gate digest state session stop)
  unfolding gate
  gate-Saves state session stop =
      by_tests (is_empty stop.python_paths) (is_known (session_record state session) stop.formatted)
        (checked_failures digest stop
          (failure_list (if stop.some_exist then stop.run_check "ruff format" else none)))
    where
      by_tests :
          (unchanged known : Bool) (failures : List Failure)
          → Saves state session (
              if unchanged
              then (record { code = 0; result = "skip"; failures = [] }, allow state session none)
              else if known
              then (record { code = 0; result = "cached"; failures = [] }, allow state session none)
              else conclude digest state session failures stop.checked)
      by_tests true known failures = allow-Saves state session (passes digest "skip") none refl
      by_tests false true failures = allow-Saves state session (passes digest "cached") none refl
      by_tests false false [] =
          allow-Saves state session (passes digest "allow") (some stop.checked) refl
      by_tests false false (f ∷ failures) =
          block_outcome-Saves state session (f ∷ failures) (some stop.checked)

  -- The stops of a session among those of all sessions.
  abbrev pub outcomes_of : String → List (String × Outcome) → List (String × Outcome)
  outcomes_of session outcomes = keep (λ o. o.0 == session) outcomes

  -- The stop was blocked for failures with the fingerprint.
  abbrev pub IsBlocked : String → Outcome → Type 0
  IsBlocked fingerprint outcome =
      (outcome.code ≡ 2) × (failure_fingerprint digest outcome.failures ≡ fingerprint)

  -- Every stop of the session was blocked, for failures with the fingerprint.
  abbrev pub AllBlocked : String → String → List (String × Outcome) → Type 0
  AllBlocked session fingerprint outcomes =
      All (λ o. (o.0 ≡ session) → IsBlocked fingerprint o.1) outcomes

  gate-others :
      (state : State) (session other : String) (stop : Stop)
      → (other == session) ≡ false
      → session_record (gate digest state other stop).1 session ≡ session_record state session
  gate-others state session other stop e =
      let (r, saved, counted) = gate-Saves state other stop in
      ap (λ t. session_record t session) saved ∙ session_record-others state session other r e

  gate-level :
      (state : State) (session fingerprint : String) (stop : Stop)
      → IsBlocked fingerprint (gate digest state session stop).0
      → (level fingerprint (session_record (gate digest state session stop).1 session)
          ≡ suc (level fingerprint (session_record state session)))
        × (level fingerprint (session_record (gate digest state session stop).1 session)
            ≤ max_blocks)
  gate-level state session fingerprint stop (blocked, print) =
      let (r, saved, counted) = gate-Saves state session stop in
      let now =
        ap (λ t. session_record t session) saved ∙ session_record-set_record state session r in
      let (raised, capped) = counted blocked in
      (
        ap (level fingerprint) now
            ∙ subst (λ f. level f r ≡ suc (level f (session_record state session))) print raised,
        subst (λ q. level fingerprint q ≤ max_blocks) (sym now)
            (subst (λ f. level f r ≤ max_blocks) print capped),
      )

  -- No outcome of the session yet, or few enough on top of those that its record counts.
  abbrev IsWithin : ℕ → ℕ → Type 0
  IsWithin n counted = (n ≡ 0) ⊎ (n + counted ≤ max_blocks)

  raise :
      (n new old : ℕ) → new ≡ suc old → new ≤ max_blocks → IsWithin n new → suc n + old ≤ max_blocks
  raise n new old e k (inl z) = omega arith
  raise n new old e k (inr l) = omega arith

  gates-level :
      (state : State) (stops : List (String × Stop)) (session fingerprint : String)
      → AllBlocked session fingerprint (gates digest state stops)
      → IsWithin
          (length (outcomes_of session (gates digest state stops)))
          (level fingerprint (session_record state session))
  unfolding gates
  gates-level state [] session fingerprint h = inl refl
  gates-level state ((other, stop) ∷ stops) session fingerprint h =
      by_session (other == session) refl
        (gates-level (gate digest state other stop).1 stops session fingerprint h.1)
    where
      later : List (String × Outcome)
      later = outcomes_of session (gates digest (gate digest state other stop).1 stops)

      by_session :
          (b : Bool)
          → (other == session) ≡ b
          → IsWithin
              (length later)
              (level fingerprint (session_record (gate digest state other stop).1 session))
          → IsWithin
              (length (if b then (other, (gate digest state other stop).0) ∷ later else later))
              (level fingerprint (session_record state session))
      by_session false e rest =
          subst (λ q. IsWithin (length later) (level fingerprint q))
            (gate-others state session other stop e) rest
      by_session true e rest =
          let same : other ≡ session = (==_iff other session).0 e in
          let (raised, capped) =
            subst
              (λ o.
                (level fingerprint (session_record (gate digest state other stop).1 o)
                  ≡ suc (level fingerprint (session_record state o)))
                × (level fingerprint (session_record (gate digest state other stop).1 o)
                    ≤ max_blocks))
              same (gate-level state other fingerprint stop (h.0 same)) in
          inr (raise (length later) _ _ raised capped rest)

  -- Whatever the state file holds, and whatever other sessions do in between, a session is not blocked
  -- for failures of one fingerprint more than three times in a row: if all of its stops are, there
  -- are at most three.
  pub gates-capped :
      (state : State) (stops : List (String × Stop)) (session fingerprint : String)
      → AllBlocked session fingerprint (gates digest state stops)
      → length (outcomes_of session (gates digest state stops)) ≤ max_blocks
  gates-capped state stops session fingerprint h =
      elim (gates-level state stops session fingerprint h) [
        | inl none_of ↦ omega arith
        | inr some_of ↦ omega arith
      ]
