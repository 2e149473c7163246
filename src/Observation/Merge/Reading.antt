-- ===== src/Observation/Merge/Reading.antt =====
-- What the queries read (`list_segment_range` and `find_last_account_segment` of
-- observation/infrastructure/timeline_segments.py): stored rows of the account.
use mosemo.Prelude.{
  map, ℕ, zero, suc, ◌≡◌, inl, inr, refl, subst, Bool, true, false, ◌&&◌, Bool-cases, Option, none,
  some, List, [], ◌∷◌, nat_eq, ◌==◌, leb, arith, All, All-append, keep, take, length, last?, ok,
  ◌>>=◌, >>=-ok, ok-injective,
}
use mosemo.Shared.Time.{Instant, Uuid}
use mosemo.Observation.Activities.{ActivityRecord}
use mosemo.Observation.Segments.{Segment}
use mosemo.Observation.Records.{find_by_event_id}
use mosemo.Observation.Replacing.Reuse.{InRows}
use mosemo.Observation.Merge.{
  Key, after_cursor, page, cursor_of, Visit, visit, visit_pages, Joined, joined_to, join,
  segment_key, sort, is_through, segment_rows, collect, list_segment_range,
  find_last_account_segment,
}
use mosemo.Observation.Merge.Sorting.{All-sort}

module _ {ℓ κ} {A : Type ℓ} (Holds : A → Type κ) where
  pub keep-All : (test : A → Bool) (xs : List A) → All Holds xs → All Holds (keep test xs)
  keep-All test [] h = tt
  keep-All test (x ∷ xs) h = elim (Bool-cases (test x)) [
    | inl e ↦ rw e (h.0, keep-All test xs h.1)
    | inr e ↦ rw e (keep-All test xs h.1)
  ]

  pub take-All : (n : ℕ) (xs : List A) → All Holds xs → All Holds (take n xs)
  take-All zero xs h = tt
  take-All (suc n) [] h = tt
  take-All (suc n) (x ∷ xs) h = (h.0, take-All n xs h.1)

  pub last?-All : (xs : List A) (x : A) → All Holds xs → last? xs ≡ some x → Holds x
  last?-All [] x h e = absurd (cc)
  last?-All (y ∷ []) x h e = let same : y ≡ x = cc in subst Holds same h.0
  last?-All (y ∷ z ∷ xs) x h e = last?-All (z ∷ xs) x h.1 e

-- An invariant of a loop's step is one of the loop over pages.
module _ {ℓ κ μ ν ρ} {E : Type ℓ} {A : Type κ} {S : Type μ} (Holds : A → Type ν)
    (Keeps : S → Type ρ) (key : A → Key) (step : Visit E A S)
    (kept : (x : A) (s : S) (u : S × Bool) → Holds x → Keeps s → step x s ≡ ok u → Keeps u.0) where
  visit-Keeps :
      (xs : List A) (s : S) (u : S × Bool)
      → All Holds xs
      → Keeps s
      → visit step xs s ≡ ok u
      → Keeps u.0
  unfolding visit
  visit-Keeps [] s u h k e = subst (λ v. Keeps v.0) (ok-injective e) k
  visit-Keeps (x ∷ xs) s u h k e =
      let (v, one, rest) = >>=-ok (step x s) _ e in
      by_stop v (kept x s v h.0 k one) rest (visit-Keeps xs v.0 u h.1)
    where
      by_stop :
          (v : S × Bool)
          → Keeps v.0
          → (elim v.1 [ true ↦ ok v | false ↦ visit step xs v.0 ]) ≡ ok u
          → (Keeps v.0 → visit step xs v.0 ≡ ok u → Keeps u.0)
          → Keeps u.0
      by_stop (t, true) k e f = subst (λ v. Keeps v.0) (ok-injective e) k
      by_stop (t, false) k e f = f k e

  pub visit_pages-Keeps :
      (limit : ℕ) (rows : List A) (fuel : ℕ) (after : Option Key) (s t : S)
      → All Holds rows
      → Keeps s
      → visit_pages key step limit rows fuel after s ≡ ok t
      → Keeps t
  unfolding visit_pages
  visit_pages-Keeps limit rows zero after s t h k e = subst Keeps (ok-injective e) k
  visit_pages-Keeps limit rows (suc fuel) after s t h k e =
      by_page (page key limit after rows)
        (take-All Holds limit (keep (after_cursor key after) rows)
          (keep-All Holds (after_cursor key after) rows h))
        e (λ c u. visit_pages-Keeps limit rows fuel c u t h)
    where
      by_page :
          (xs : List A)
          → All Holds xs
          → (elim xs [
            | [] ↦ ok s
            | x ∷ xs ↦ visit step (x ∷ xs) s >>= λ u. elim u.1 [
              | true ↦ ok u.0
              | false ↦ visit_pages key step limit rows fuel (cursor_of key (last? (x ∷ xs))) u.0
            ]
          ])
            ≡ ok t
          → ((c : Option Key) (u : S)
              → Keeps u
              → visit_pages key step limit rows fuel c u ≡ ok t
              → Keeps t)
          → Keeps t
      by_page [] all e f = subst Keeps (ok-injective e) k
      by_page (x ∷ xs) all e f =
          let (u, read, rest) = >>=-ok (visit step (x ∷ xs) s) _ e in
          by_stop u (visit-Keeps (x ∷ xs) s u all k read) rest
        where
          by_stop :
              (u : S × Bool)
              → Keeps u.0
              → (elim u.1 [
                | true ↦ ok u.0
                | false ↦ visit_pages key step limit rows fuel (cursor_of key (last? (x ∷ xs))) u.0
              ])
                ≡ ok t
              → Keeps t
          by_stop (v, true) kv e = subst Keeps (ok-injective e) kv
          by_stop (v, false) kv e = f (cursor_of key (last? (x ∷ xs))) v kv e

-- A stored row of the account.
abbrev pub IsOwn : List Segment → Uuid → Segment → Type 0
IsOwn rows account s = InRows s rows × (s.account_id ≡ account)

keep-IsOwn :
    (test : Segment → Bool) (rows : List Segment) (account : Uuid)
    → ((s : Segment) → test s ≡ true → s.account_id ≡ account)
    → All (IsOwn rows account) (keep test rows)
keep-IsOwn test rows account own = among rows (λ s i. i)
  where
    among :
        (part : List Segment)
        → ((s : Segment) → InRows s part → InRows s rows)
        → All (IsOwn rows account) (keep test part)
    among [] f = tt
    among (s ∷ part) f = elim (Bool-cases (test s)) [
      | inl e ↦ rw e ((f s (inl refl), own s e), among part (λ r i. f r (inr i)))
      | inr e ↦ rw e (among part (λ r i. f r (inr i)))
    ]

pub join-All :
    (P : Segment → Type 0) (records : List ActivityRecord) (segments : List Segment)
    → All P segments
    → All (λ (row : Joined). P row.0) (join records segments)
join-All P records [] h = tt
join-All P records (s ∷ segments) h =
    with_first (find_by_event_id records s.first_event_id) (join-All P records segments h.1)
  where
    with_first :
        (o : Option ActivityRecord)
        → All (λ (row : Joined). P row.0) (join records segments)
        → All (λ (row : Joined). P row.0) (joined_to s o (join records segments))
    with_first none k = k
    with_first (some r) k = (h.0, k)

-- A predicate of the segments of joined rows.
pub firsts-All {κ} :
    (P : Segment → Type κ) (rows : List Joined)
    → All (λ (row : Joined). P row.0) rows
    → All P (map (λ (row : Joined). row.0) rows)
firsts-All P [] h = tt
firsts-All P (row ∷ rows) h = (h.0, firsts-All P rows h.1)

-- The rows of a range are stored rows of the account.
pub segment_rows-IsOwn :
    (records : List ActivityRecord) (rows : List Segment) (account : Uuid) (start : Instant)
    (through : Option Instant)
    → All
        (λ (row : Joined). IsOwn rows account row.0)
        (segment_rows records rows account start through)
unfolding segment_rows
segment_rows-IsOwn records rows account start through =
    All-sort segment_key (λ (row : Joined). IsOwn rows account row.0)
      (join records (keep in_range rows))
      (join-All (IsOwn rows account) records (keep in_range rows)
        (keep-IsOwn in_range rows account (λ s e. ground arith)))
  where
    in_range : Segment → Bool
    in_range s =
        (s.account_id == account) && leb start s.started_at && is_through through s.started_at

-- Reading a range finds stored rows of the account only.
pub list_segment_range-IsOwn {ℓ} :
    {E : Type ℓ} (records : List ActivityRecord) (rows : List Segment) (account : Uuid)
    (start : Instant) (through : Option Instant) (found : List Segment)
    → list_segment_range {E = E} records rows account start through ≡ ok found
    → All (IsOwn rows account) found
unfolding list_segment_range
list_segment_range-IsOwn {E = E} records rows account start through found h =
    visit_pages-Keeps (λ (row : Joined). IsOwn rows account row.0) (All (IsOwn rows account))
      segment_key (collect {E = E})
      (λ row s u own k e.
        subst (λ v. All (IsOwn rows account) v.0) (ok-injective e)
          (All-append (IsOwn rows account) s (row.0 ∷ []) k (own, tt)))
      128 (segment_rows records rows account start through)
      (suc (length (segment_rows records rows account start through))) none [] found
      (segment_rows-IsOwn records rows account start through) tt h

-- The last segment of an account is one of its rows.
pub find_last_account_segment-IsOwn :
    (records : List ActivityRecord) (rows : List Segment) (account : Uuid) (s : Segment)
    → find_last_account_segment records rows account ≡ some s
    → IsOwn rows account s
unfolding find_last_account_segment
find_last_account_segment-IsOwn records rows account s h =
    by_last (last? (sort segment_key (join records (keep (λ r. r.account_id == account) rows))))
      refl h
  where
    by_last :
        (o : Option Joined)
        → last? (sort segment_key (join records (keep (λ r. r.account_id == account) rows))) ≡ o
        → (elim o [ none ↦ none | some row ↦ some row.0 ]) ≡ some s
        → IsOwn rows account s
    by_last none e k = absurd (cc)
    by_last (some row) e k =
        let same : row.0 ≡ s = cc in
        subst (IsOwn rows account) same (
          last?-All (λ (r : Joined). IsOwn rows account r.0)
            (sort segment_key (join records (keep (λ r. r.account_id == account) rows))) row
            (All-sort segment_key (λ (r : Joined). IsOwn rows account r.0)
              (join records (keep (λ r. r.account_id == account) rows))
              (join-All (IsOwn rows account) records (keep (λ r. r.account_id == account) rows)
                (keep-IsOwn (λ r. r.account_id == account) rows account (λ r e. ground arith))))
            e)
