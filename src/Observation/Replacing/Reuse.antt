-- ===== src/Observation/Replacing/Reuse.antt =====
-- The identifiers that computed segments reuse (`_reusable_id` of
-- observation/infrastructure/timeline_segments.py).
use mosemo.Prelude.{
  ◌≡◌, ◌⊎◌, inl, inr, refl, sym, subst, Bool, true, false, not, ◌&&◌, Option, none, some, List, [],
  ◌∷◌, nat_eq, ◌==◌, arith, contains, if◌then◌else◌,
}
use mosemo.Shared.Time.{Uuid}
use mosemo.Observation.Segments.{Segment}
use mosemo.Observation.Projected.{ProjectedSegment, first_event_id, continues, can_inherit}
use mosemo.Observation.Replacing.{
  ids, later_or, by_first_event, continued, unless_reused, inherited, reusable_id,
}

abbrev pub InRows : Segment → List Segment → Type 0
InRows s [] = ⊥
InRows s (r ∷ rows) = (s ≡ r) ⊎ InRows s rows

abbrev pub Distinct : List Uuid → Type 0
Distinct [] = Unit
Distinct (x ∷ xs) = (contains xs x ≡ false) × Distinct xs

InRows-contains :
    (s : Segment) (rows : List Segment) → InRows s rows → contains (ids rows) s.id ≡ true
InRows-contains s [] i = absurd i
InRows-contains s (r ∷ rows) (inl e) = rw e (ground arith)
InRows-contains s (r ∷ rows) (inr i) = ground (arith, InRows-contains s rows i)

by_first_event-InRows :
    (rows : List Segment) (event : Uuid) (s : Segment)
    → by_first_event rows event ≡ some s
    → InRows s rows
by_first_event-InRows [] event s h = absurd (cc)
by_first_event-InRows (r ∷ rows) event s h =
    pick (by_first_event rows event) (r.first_event_id == event)
      (by_first_event-InRows rows event s) h
  where
    pick :
        (later : Option Segment) (found : Bool)
        → (later ≡ some s → InRows s rows)
        → later_or later found r ≡ some s
        → InRows s (r ∷ rows)
    pick none true k e = inl (cc)
    pick none false k e = absurd (cc)
    pick (some later) found k e = inr (k e)

continued-InRows :
    (rows : List Segment) (reused : List Uuid) (p : ProjectedSegment) (s : Segment)
    → continued rows reused p ≡ some s
    → InRows s rows × (contains reused s.id ≡ false)
continued-InRows [] reused p s h = absurd (cc)
continued-InRows (r ∷ rows) reused p s h =
    pick (contains reused r.id) (continues p r) refl (continued-InRows rows reused p s) h
  where
    pick :
        (seen fits : Bool)
        → contains reused r.id ≡ seen
        → (continued rows reused p ≡ some s → InRows s rows × (contains reused s.id ≡ false))
        → (if not seen && fits then some r else continued rows reused p) ≡ some s
        → InRows s (r ∷ rows) × (contains reused s.id ≡ false)
    pick true fits e k h = (inr (k h).0, (k h).1)
    pick false true e k h =
        let same : r ≡ s = cc in (inl (sym same), subst (λ x. contains reused x.id ≡ false) same e)
    pick false false e k h = (inr (k h).0, (k h).1)

-- A reused identifier is that of a candidate of the same kind, and was not reused before.
abbrev pub Reuses : ProjectedSegment → List Segment → List Uuid → Uuid → Type 0
Reuses p candidates reused id =
    (c : Segment) × InRows c candidates
    × (contains reused id ≡ false)
    × (id ≡ c.id)
    × (can_inherit p c ≡ true)

abbrev Available : List Segment → List Uuid → Option Segment → Type 0
Available candidates reused o =
    (s : Segment) → o ≡ some s → InRows s candidates × (contains reused s.id ≡ false)

pub reusable_id-Reuses :
    (p : ProjectedSegment) (candidates : List Segment) (reused : List Uuid) (id : Uuid)
    → reusable_id p candidates reused ≡ some id
    → Reuses p candidates reused id
unfolding reusable_id
reusable_id-Reuses p candidates reused id h =
    first (by_first_event candidates (first_event_id p)) refl h
  where
    give :
        (o : Option Segment)
        → Available candidates reused o
        → inherited p o ≡ some id
        → Reuses p candidates reused id
    give none a e = absurd (cc)
    give (some c) a e = by_kind (can_inherit p c) refl e
      where
        by_kind :
            (b : Bool)
            → can_inherit p c ≡ b
            → (if b then some c.id else none) ≡ some id
            → Reuses p candidates reused id
        by_kind true k e =
            let (there, free) = a c refl in
            let same : c.id ≡ id = cc in
            (c, there, subst (λ x. contains reused x ≡ false) same free, sym same, k)
        by_kind false k e = absurd (cc)

    first :
        (o : Option Segment)
        → by_first_event candidates (first_event_id p) ≡ o
        → inherited p (unless_reused o reused (continued candidates reused p)) ≡ some id
        → Reuses p candidates reused id
    first none e k = give (continued candidates reused p) (continued-InRows candidates reused p) k
    first (some old) e k = by_reuse (contains reused old.id) refl k
      where
        by_reuse :
            (b : Bool)
            → contains reused old.id ≡ b
            → inherited p (if b then continued candidates reused p else some old) ≡ some id
            → Reuses p candidates reused id
        by_reuse true f k =
            give (continued candidates reused p) (continued-InRows candidates reused p) k
        by_reuse false f k =
            give (some old)
              (λ s q.
                let same : old ≡ s = cc in
                subst (λ x. InRows x candidates × (contains reused x.id ≡ false)) same
                  (by_first_event-InRows candidates (first_event_id p) old e, f))
              k
