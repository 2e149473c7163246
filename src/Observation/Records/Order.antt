-- ===== src/Observation/Records/Order.antt =====
-- The order of a device's records (observation/application/batches.py, `_ensure_device_order`).
use mosemo.Prelude.{
  ℕ, suc, zero, ◌+◌, ◌-◌, ◌≤◌, ◌≡◌, inl, inr, true, false, Bool-cases, Option, none, some, List, [],
  ◌∷◌, ◌++◌, nat_eq, ltb, arith, All, ok, guard, >>=-ok, guard-ok,
}
use mosemo.Observation.Activities.{ActivityRecord, is_in_device_order}
use mosemo.Observation.Records.{
  projection_time_regression, is_before, previous_record, next_record, observed_of,
  find_previous_device_observed_at, find_next_device_observed_at, ensure_device_order,
}
use mosemo.Observation.Records.Keys.{shares_key, UniqueKeys}
use mosemo.Observation.Records.Nearest.{In, In-append, All-In, IsNearest, nearest-IsNearest}

-- Each device's clock never goes back along its sequence.
abbrev pub IsClockMonotone : List ActivityRecord → Type 0
IsClockMonotone records =
    (a b : ActivityRecord)
    → In a records
    → In b records
    → is_before a b ≡ true
    → a.observed_at ≤ b.observed_at

same_key :
    (records : List ActivityRecord) (a p : ActivityRecord)
    → UniqueKeys records
    → In a records
    → In p records
    → a.device_id ≡ p.device_id
    → a.sequence ≡ p.sequence
    → a.observed_at ≡ p.observed_at
same_key [] a p u i j d q = absurd i
same_key (r ∷ records) a p u (inl e) (inl e') d q = cc
same_key (r ∷ records) a p u (inl e) (inr j) d q =
    absurd (ground (arith, All-In (λ x. shares_key r x ≡ false) records p u.0 j))
same_key (r ∷ records) a p u (inr i) (inl e) d q =
    absurd (ground (arith, All-In (λ x. shares_key r x ≡ false) records a u.0 i))
same_key (r ∷ records) a p u (inr i) (inr j) d q = same_key records a p u.1 i j d q

-- The test of a record against its neighbors.
abbrev IsChecked : List ActivityRecord → ActivityRecord → Type 0
IsChecked records r =
    is_in_device_order r (find_previous_device_observed_at records r)
      (find_next_device_observed_at records r)
    ≡ true

ensure_device_order-IsChecked :
    (records adopted : List ActivityRecord) (u : Unit {0})
    → ensure_device_order records adopted ≡ ok u
    → All (IsChecked records) adopted
unfolding ensure_device_order
ensure_device_order-IsChecked records [] u h = tt
ensure_device_order-IsChecked records (r ∷ adopted) u h =
    let (_, checked, h1) =
      >>=-ok
        (guard
          (is_in_device_order r (find_previous_device_observed_at records r)
            (find_next_device_observed_at records r))
          projection_time_regression)
        _ h in
    (
      guard-ok _ projection_time_regression checked,
      ensure_device_order-IsChecked records adopted u h1,
    )

module _ (records : List ActivityRecord) where
  -- A checked record has a predecessor, if any record is before it, that was observed no later.
  before_checked :
      (a b : ActivityRecord)
      → IsChecked records b
      → In a records
      → is_before a b ≡ true
      → (p : ActivityRecord) × In p records
        × (is_before p b ≡ true)
        × (a.sequence ≤ p.sequence)
        × (p.observed_at ≤ b.observed_at)
  unfolding is_in_device_order
  before_checked a b c i k =
      by_previous (previous_record records b)
        (nearest-IsNearest (λ d. is_before d b) (λ d. b.sequence - d.sequence) records) c
    where
      by_previous :
          (o : Option ActivityRecord)
          → IsNearest (λ d. is_before d b) (λ d. b.sequence - d.sequence) records o
          → is_in_device_order b (observed_of o) (find_next_device_observed_at records b) ≡ true
          → (p : ActivityRecord) × In p records
            × (is_before p b ≡ true)
            × (a.sequence ≤ p.sequence)
            × (p.observed_at ≤ b.observed_at)
      by_previous none n c = absurd (ground (arith, n a i))
      by_previous (some p) n c = (p, n.0, n.1, ground (arith, n.2 a i k), ground arith)

  after_checked :
      (a b : ActivityRecord)
      → IsChecked records a
      → In b records
      → is_before a b ≡ true
      → (q : ActivityRecord) × In q records
        × (is_before a q ≡ true)
        × (q.sequence ≤ b.sequence)
        × (a.observed_at ≤ q.observed_at)
  unfolding is_in_device_order
  after_checked a b c i k =
      by_next (next_record records a)
        (nearest-IsNearest (λ d. is_before a d) (λ d. d.sequence - a.sequence) records) c
    where
      by_next :
          (o : Option ActivityRecord)
          → IsNearest (λ d. is_before a d) (λ d. d.sequence - a.sequence) records o
          → is_in_device_order a (find_previous_device_observed_at records a) (observed_of o) ≡ true
          → (q : ActivityRecord) × In q records
            × (is_before a q ≡ true)
            × (q.sequence ≤ b.sequence)
            × (a.observed_at ≤ q.observed_at)
      by_next none n c = absurd (ground (arith, n b i))
      by_next (some q) n c = (q, n.0, n.1, ground (arith, n.2 b i k), ground arith)

module _ (earlier adopted : List ActivityRecord) (u : UniqueKeys (earlier ++ adopted))
    (before : IsClockMonotone earlier)
    (checked : All (IsChecked (earlier ++ adopted)) adopted) where
  -- By induction on how far apart in the sequence the two records may be.
  ordered_within :
      (n : ℕ) (a b : ActivityRecord)
      → In a (earlier ++ adopted)
      → In b (earlier ++ adopted)
      → is_before a b ≡ true
      → b.sequence ≤ a.sequence + n
      → a.observed_at ≤ b.observed_at
  ordered_within zero a b i j k near = absurd (ground arith)
  ordered_within (suc n) a b i j k near = elim (In-append b earlier adopted j) [
    | inr new ↦
        let (p, there, p_before, nearer, no_later) =
          before_checked (earlier ++ adopted) a b
            (All-In (IsChecked (earlier ++ adopted)) adopted b checked new) i k in
        up_to p there p_before nearer no_later (ordered_within n a p i there)
    | inl old ↦ elim (In-append a earlier adopted i) [
      | inr new ↦
          let (q, there, q_after, nearer, no_earlier) =
            after_checked (earlier ++ adopted) a b
              (All-In (IsChecked (earlier ++ adopted)) adopted a checked new) j k in
          from q there q_after nearer no_earlier (ordered_within n q b there j)
      | inl older ↦ before a b older old k
    ]
  ]
    where
      up_to :
          (p : ActivityRecord)
          → In p (earlier ++ adopted)
          → is_before p b ≡ true
          → a.sequence ≤ p.sequence
          → p.observed_at ≤ b.observed_at
          → (is_before a p ≡ true → p.sequence ≤ a.sequence + n → a.observed_at ≤ p.observed_at)
          → a.observed_at ≤ b.observed_at
      up_to p there p_before nearer no_later ih = elim (Bool-cases (ltb a.sequence p.sequence)) [
        | inl apart ↦ ground (arith, ih)
        | inr same ↦ ground (arith, same_key (earlier ++ adopted) a p u i there)
      ]

      from :
          (q : ActivityRecord)
          → In q (earlier ++ adopted)
          → is_before a q ≡ true
          → q.sequence ≤ b.sequence
          → a.observed_at ≤ q.observed_at
          → (is_before q b ≡ true → b.sequence ≤ q.sequence + n → q.observed_at ≤ b.observed_at)
          → a.observed_at ≤ b.observed_at
      from q there q_after nearer no_earlier ih = elim (Bool-cases (ltb q.sequence b.sequence)) [
        | inl apart ↦ ground (arith, ih)
        | inr same ↦ ground (arith, same_key (earlier ++ adopted) q b u there j)
      ]

-- Checking the adopted records against their neighbors only is enough: if no two rows share a key and
-- each device's clock never went back along its sequence before, then it does not after a batch that
-- passes the check.
pub ensure_device_order-IsClockMonotone :
    (earlier adopted : List ActivityRecord)
    → UniqueKeys (earlier ++ adopted)
    → IsClockMonotone earlier
    → ensure_device_order (earlier ++ adopted) adopted ≡ ok tt
    → IsClockMonotone (earlier ++ adopted)
ensure_device_order-IsClockMonotone earlier adopted u before h a b i j k =
    ordered_within earlier adopted u before
      (ensure_device_order-IsChecked (earlier ++ adopted) adopted tt h) b.sequence a b i j k
      (omega arith)
