-- ===== src/Labeling/Proposing/Paged.antt =====
-- The scan over the stored segments is bounded and its sweep ends (`_find_page` of
-- labeling/application/proposals.py over `list_closed_detailed_segments`).
use mosemo.Prelude.{
  ℕ, suc, ◌≡◌, refl, ap, sym, ◌∙◌, subst, true, ◌&&◌, Option, none, some, List, [], ◌∷◌, nat_eq,
  arith, All, In, keep-In, and_then-some, some-injective, keep, length, map, take, String, ok,
  require, >>=-ok, require-ok, ok-injective,
}
use mosemo.Shared.Time.{Instant, Uuid}
use mosemo.Observation.Activities.{Context}
use mosemo.Observation.Segments.{
  Segment, effective_ended_at, timeline_kind_at, is_closed_detailed_row,
}
use mosemo.Observation.Observed.{
  VersionFields, ObservedSegment, observed, observed_all, is_past, list_closed_page, version_of,
}
use mosemo.Labeling.Confirmations.{Confirmation, assertion_failed}
use mosemo.Labeling.States.{Store}
use mosemo.Labeling.Retrieval.{SuggestionInput}
use mosemo.Labeling.Scanning.{ScannedSegment, Segments}
use mosemo.Labeling.Proposals.{Proposal}
use mosemo.Labeling.Attempts.{current_version}
use mosemo.Labeling.Proposing.Rows.{propose_label-segments}
use mosemo.Labeling.Scanning.Bounds.{IsPaged}
use mosemo.Labeling.Scanning.Cursor.{Advances, IsStatic}
use mosemo.Labeling.Proposing.{
  Round, SuggestionResult, confirmations_by_keys, proposals_by_keys, is_current, scanned_as,
  find_page, World, scanned_segments,
}
use mosemo.Labeling.Proposing.Cursors.{
  IsAscending, past_count, ScannedFrom, Advances-rows, length-take, All-take, keep-IsAscending,
  take-IsAscending,
}

observed-id :
    (digest : VersionFields → String) (s : Segment) (now : Instant) (o : ObservedSegment)
    → observed digest s now ≡ some o
    → o.id ≡ s.id
unfolding observed
observed-id digest s now o h =
    let (ended, h0, h1) = and_then-some (effective_ended_at s now) _ h in
    let (kind, h2, h3) = and_then-some (timeline_kind_at s now) _ h1 in
    let (version, h4, h5) = and_then-some (version_of digest s ended kind) _ h3 in
    ap (λ x. x.id) (sym (some-injective h5))

scanned_as-id :
    (confirmations : List Confirmation) (proposals : List Proposal) (now : Instant)
    (o : ObservedSegment) (version : Option String)
    → (scanned_as confirmations proposals now o version).segment_id ≡ o.id
scanned_as-id confirmations proposals now o none = refl
scanned_as-id confirmations proposals now o (some version) = refl

observed_all-ScannedFrom :
    (digest : VersionFields → String) (now : Instant) (confirmations : List Confirmation)
    (proposals : List Proposal) (rows : List Segment) (segments : List ObservedSegment)
    → observed_all digest now rows ≡ some segments
    → ScannedFrom rows
        (map (λ o. scanned_as confirmations proposals now o (current_version (some o))) segments)
unfolding observed_all
observed_all-ScannedFrom digest now confirmations proposals [] segments h =
    subst
      (λ l.
        ScannedFrom []
          (map (λ o. scanned_as confirmations proposals now o (current_version (some o))) l))
      (some-injective h) tt
observed_all-ScannedFrom digest now confirmations proposals (r ∷ rows) segments h =
    let (o, h0, h1) = and_then-some (observed digest r now) _ h in
    let (rest, h2, h3) = and_then-some (observed_all digest now rows) _ h1 in
    subst
      (λ l.
        ScannedFrom (r ∷ rows)
          (map (λ o. scanned_as confirmations proposals now o (current_version (some o))) l))
      (some-injective h3)
      (
        scanned_as-id confirmations proposals now o (current_version (some o))
            ∙ observed-id digest r now o h0,
        observed_all-ScannedFrom digest now confirmations proposals rows rest h2,
      )

-- The rows of a page.
abbrev page_rows : List Segment → Option Uuid → Instant → ℕ → List Segment
page_rows rows cursor now limit =
    take limit (keep (λ s. is_closed_detailed_row s now && is_past cursor s.id) rows)

find_page-ScannedFrom :
    (digest : VersionFields → String) (s : Store) (cursor : Option Uuid) (now : Instant) (limit : ℕ)
    (page : List ScannedSegment)
    → find_page digest s cursor now limit ≡ ok page
    → ScannedFrom (page_rows s.segments cursor now limit) page
unfolding find_page list_closed_page
find_page-ScannedFrom digest s cursor now limit page h =
    let (segments, h0, h1) =
      >>=-ok (require (list_closed_page digest s.segments cursor now limit) assertion_failed) _ h in
    subst (ScannedFrom (page_rows s.segments cursor now limit)) (ok-injective h1) (
      observed_all-ScannedFrom digest now
        (confirmations_by_keys (keep is_current segments) s.confirmations)
        (proposals_by_keys (keep is_current segments) s.proposals)
        (page_rows s.segments cursor now limit) segments
        (require-ok (list_closed_page digest s.segments cursor now limit) assertion_failed h0))

length-ScannedFrom :
    (rows : List Segment) (page : List ScannedSegment)
    → ScannedFrom rows page
    → length page ≡ length rows
length-ScannedFrom [] [] f = refl
length-ScannedFrom [] (s ∷ page) f = absurd f
length-ScannedFrom (r ∷ rows) [] f = absurd f
length-ScannedFrom (r ∷ rows) (s ∷ page) f = ap suc (length-ScannedFrom rows page f.1)

module _ (digest : VersionFields → String) (summarize : Context → Option String)
    (suggest : SuggestionInput → Option SuggestionResult) (uuid_text : Uuid → String)
    (clock : ℕ → Instant) (rounds : ℕ → Round) where
  abbrev pub stored : Segments World
  stored = scanned_segments digest summarize suggest uuid_text clock rounds

  page-ScannedFrom :
      (w w' : World) (cursor : Option Uuid) (limit : ℕ) (page : List ScannedSegment)
      → stored.find_page w cursor limit ≡ ok (page, w')
      → ScannedFrom (page_rows w.store.segments cursor (clock w.pages) limit) page
        × (w'.store.segments ≡ w.store.segments)
  page-ScannedFrom w w' cursor limit page h =
      let (read, h0, h1) = >>=-ok (find_page digest w.store cursor (clock w.pages) limit) _ h in
      subst
        (λ u.
          ScannedFrom (page_rows w.store.segments cursor (clock w.pages) limit) u.0
          × (u.1.store.segments ≡ w.store.segments))
        (ok-injective h1)
        (find_page-ScannedFrom digest w.store cursor (clock w.pages) limit read h0, refl)

  -- A page of stored segments has no more than its limit.
  pub stored-IsPaged : IsPaged stored
  stored-IsPaged w w' cursor limit page h =
      let (from, kept) = page-ScannedFrom w w' cursor limit page h in
      omega (
        arith,
        length-ScannedFrom (page_rows w.store.segments cursor (clock w.pages) limit) page from,
        length-take limit (
            keep (λ s. is_closed_detailed_row s (clock w.pages) && is_past cursor s.id)
              w.store.segments),
      )

  stored-Advances :
      (w w' : World) (cursor : Option Uuid) (limit : ℕ) (page : List ScannedSegment)
      → IsAscending w.store.segments
      → stored.find_page w cursor limit ≡ ok (page, w')
      → Advances (past_count w.store.segments) (past_count w.store.segments cursor) page
  stored-Advances w w' cursor limit page asc h =
      let (from, kept) = page-ScannedFrom w w' cursor limit page h in
      let test = λ (s : Segment). is_closed_detailed_row s (clock w.pages) && is_past cursor s.id in
      let there =
        All-take (λ s. In s w.store.segments × (test s ≡ true)) limit (keep test w.store.segments)
          (keep-In test w.store.segments) in
      let rows = page_rows w.store.segments cursor (clock w.pages) limit in
      Advances-rows w.store.segments rows page cursor (elements rows there) (pasts rows there)
        (take-IsAscending limit (keep test w.store.segments)
          (keep-IsAscending test w.store.segments asc))
        from
    where
      elements :
          (rows : List Segment)
          → All
              (λ s.
                In s w.store.segments
                × ((is_closed_detailed_row s (clock w.pages) && is_past cursor s.id) ≡ true))
              rows
          → All (λ s. In s w.store.segments) rows
      elements [] k = tt
      elements (s ∷ rows) k = (k.0.0, elements rows k.1)

      pasts :
          (rows : List Segment)
          → All
              (λ s.
                In s w.store.segments
                × ((is_closed_detailed_row s (clock w.pages) && is_past cursor s.id) ≡ true))
              rows
          → All (λ s. is_past cursor s.id ≡ true) rows
      pasts [] k = tt
      pasts (s ∷ rows) k = (ground arith, pasts rows k.1)

module _ (digest : VersionFields → String) (summarize : Context → Option String)
    (suggest : SuggestionInput → Option SuggestionResult) (uuid_text : Uuid → String)
    (clock : ℕ → Instant) (rounds : ℕ → Round)
    (meanwhile : (n : ℕ) (d : Store) → ((rounds n).meanwhile d).segments ≡ d.segments)
    (afterwards : (n : ℕ) (d : Store) → ((rounds n).afterwards d).segments ≡ d.segments) where
  stored-IsStatic : IsStatic (stored digest summarize suggest uuid_text clock rounds)
  stored-IsStatic = record {
    IsGood = λ w. IsAscending w.store.segments;
    remaining = λ w. past_count w.store.segments;
    advances = λ w w' cursor limit page good h.
        stored-Advances digest summarize suggest uuid_text clock rounds w w' cursor limit page good
          h;
    reads = λ w w' cursor limit page good h.
        let kept =
          (page-ScannedFrom digest summarize suggest uuid_text clock rounds w w' cursor limit page
            h).1 in
        (subst IsAscending (sym kept) good, ap past_count kept);
    proposes = λ w account event good.
        let kept =
          propose_label-segments digest summarize suggest uuid_text (rounds w.attempts)
            (meanwhile w.attempts) (afterwards w.attempts) account event w.store in
        (subst IsAscending (sym kept) good, ap past_count kept);
  }
