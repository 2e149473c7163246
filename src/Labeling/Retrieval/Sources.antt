-- ===== src/Labeling/Retrieval/Sources.antt =====
-- Where the examples for a suggestion come from (`RecentConfirmedExampleRetriever` of
-- labeling/application/proposals.py).
use mosemo.Prelude.{
  ℕ, String, In, keep-In, zero, suc, ◌≡◌, refl, subst, Bool, true, false, not, ◌&&◌, Option, none,
  some, List, [], ◌∷◌, nat_eq, string_eq, ◌==◌, arith, All, and_then-some, some-injective, contains,
  keep, take, if◌then◌else◌,
}
use mosemo.Shared.Time.{Instant, Uuid}
use mosemo.Observation.Segments.{Segment}
use mosemo.Observation.Observed.{
  VersionFields, ObservedSegment, observed, observed_all, find_by_first_events, later_or,
  get_by_first_event,
}
use mosemo.Labeling.Confirmations.{Confirmation}
use mosemo.Labeling.Retrieval.{
  is_newer, insert_newer, newest_first, example_rows, skip, list_example_page,
}

-- A segment of the account, as it is observed.
module _ (digest : VersionFields → String) (rows : List Segment) (account : Uuid)
    (now : Instant) where
  abbrev pub IsSeen : ObservedSegment → Type 0
  IsSeen o = (s : Segment) × In s rows × (s.account_id ≡ account) × (observed digest s now ≡ some o)

  observed_all-IsSeen :
      (part : List Segment) (os : List ObservedSegment)
      → All (λ s. In s rows × (s.account_id ≡ account)) part
      → observed_all digest now part ≡ some os
      → All IsSeen os
  unfolding observed_all
  observed_all-IsSeen [] os own e = subst (All IsSeen) (some-injective e) tt
  observed_all-IsSeen (s ∷ part) os own e =
      let (o, seen, e1) = and_then-some (observed digest s now) _ e in
      let (rest, others, e2) = and_then-some (observed_all digest now part) _ e1 in
      subst (All IsSeen) (some-injective e2)
        ((s, own.0.0, own.0.1, seen), observed_all-IsSeen part rest own.1 others)

  of_account :
      (events : List Uuid) (part : List Segment)
      → All
          (λ s.
            In s rows × (((s.account_id == account) && contains events s.first_event_id) ≡ true))
          part
      → All (λ s. In s rows × (s.account_id ≡ account)) part
  of_account events [] h = tt
  of_account events (s ∷ part) h = ((h.0.0, ground arith), of_account events part h.1)

  pub find_by_first_events-IsSeen :
      (events : List Uuid) (os : List ObservedSegment)
      → find_by_first_events digest rows account events now ≡ some os
      → All IsSeen os
  unfolding find_by_first_events
  find_by_first_events-IsSeen events os e =
      let test = λ (s : Segment). (s.account_id == account) && contains events s.first_event_id in
      observed_all-IsSeen (keep test rows) os
        (of_account events (keep test rows) (keep-In test rows)) e

  pub get_by_first_event-IsSeen :
      (os : List ObservedSegment) (event : Uuid) (o : ObservedSegment)
      → All IsSeen os
      → get_by_first_event os event ≡ some o
      → IsSeen o × (o.first_event_id ≡ event)
  get_by_first_event-IsSeen [] event o h e = absurd (cc)
  get_by_first_event-IsSeen (p ∷ os) event o h e =
      pick (get_by_first_event os event) (p.first_event_id == event) refl
        (get_by_first_event-IsSeen os event o h.1) e
    where
      pick :
          (later : Option ObservedSegment) (found : Bool)
          → (p.first_event_id == event) ≡ found
          → (later ≡ some o → IsSeen o × (o.first_event_id ≡ event))
          → later_or later found p ≡ some o
          → IsSeen o × (o.first_event_id ≡ event)
      pick (some later) found t f e = f e
      pick none true t f e =
          let same : p ≡ o = cc in
          subst (λ x. IsSeen x × (x.first_event_id ≡ event)) same (h.0, ground arith)
      pick none false t f e = absurd (cc)

-- A confirmation that may be an example: one of the account, of another segment.
abbrev pub IsCandidate : List Confirmation → Uuid → Uuid → Confirmation → Type 0
IsCandidate confirmations account exclude c =
    In c confirmations × (c.account_id ≡ account) × ((c.first_event_id == exclude) ≡ false)

insert_newer-All :
    (P : Confirmation → Type 0) (c : Confirmation) (rows : List Confirmation)
    → P c
    → All P rows
    → All P (insert_newer c rows)
insert_newer-All P c [] h k = (h, tt)
insert_newer-All P c (d ∷ rows) h k = by_order (is_newer d c) (insert_newer-All P c rows h k.1)
  where
    by_order :
        (b : Bool)
        → All P (insert_newer c rows)
        → All P (if b then d ∷ insert_newer c rows else c ∷ d ∷ rows)
    by_order true r = (k.0, r)
    by_order false r = (h, k)

newest_first-All :
    (P : Confirmation → Type 0) (rows : List Confirmation) → All P rows → All P (newest_first rows)
newest_first-All P [] h = tt
newest_first-All P (c ∷ rows) h =
    insert_newer-All P c (newest_first rows) h.0 (newest_first-All P rows h.1)

take-All {ℓ} : {A : Type ℓ} (P : A → Type 0) (n : ℕ) (xs : List A) → All P xs → All P (take n xs)
take-All P zero xs h = tt
take-All P (suc n) [] h = tt
take-All P (suc n) (x ∷ xs) h = (h.0, take-All P n xs h.1)

skip-All {ℓ} : {A : Type ℓ} (P : A → Type 0) (n : ℕ) (xs : List A) → All P xs → All P (skip n xs)
skip-All P zero xs h = h
skip-All P (suc n) [] h = tt
skip-All P (suc n) (x ∷ xs) h = skip-All P n xs h.1

pub list_example_page-IsCandidate :
    (confirmations : List Confirmation) (account exclude : Uuid) (limit offset : ℕ)
    → All
        (IsCandidate confirmations account exclude)
        (list_example_page confirmations account exclude limit offset)
list_example_page-IsCandidate confirmations account exclude limit offset =
    let test =
      λ (c : Confirmation). (c.account_id == account) && not (c.first_event_id == exclude) in
    let P = IsCandidate confirmations account exclude in
    take-All P limit (skip offset (example_rows confirmations account exclude)) (
      skip-All P offset (example_rows confirmations account exclude) (
        newest_first-All P (keep test confirmations)
          (candidates (keep test confirmations) (keep-In test confirmations))))
  where
    candidates :
        (part : List Confirmation)
        → All
            (λ c.
              In c confirmations
              × (((c.account_id == account) && not (c.first_event_id == exclude)) ≡ true))
            part
        → All (IsCandidate confirmations account exclude) part
    candidates [] h = tt
    candidates (c ∷ part) h = ((h.0.0, ground arith, ground arith), candidates part h.1)
