-- ===== src/Labeling/Timeline/Groups.antt =====
-- The groups of the label timeline (labeling/application/timeline.py, `_group_items`).
use mosemo.Prelude.{
  ◌≡◌, ◌⊎◌, inl, inr, refl, ap, sym, ◌∙◌, subst, String, Bool, true, false, Bool-cases, some, List,
  [], ◌∷◌, ◌++◌, map, append-nil, arith, All, and_then, and_then-some, some-injective,
  if◌then◌else◌,
}
use mosemo.Shared.Time.{Uuid}
use mosemo.Observation.Observed.{ObservedSegment}
use mosemo.Labeling.Confirmations.{Confirmation}
use mosemo.Labeling.States.{is_labelable}
use mosemo.Labeling.Timeline.{
  LabelTimelineEntry, LabelTimelineItem, group, alone, timeline_entry, flush, breaks, group_from,
  group_items,
}
use mosemo.Labeling.Timeline.Items.{
  segments_of, segments_of-flush, map-append_one, Linked, IsGroup, Separated, Separated-alone,
  Linked-append_one, flush-IsGroup, flush-Separated, break-Separated,
}

module _ (confirmations : List Confirmation) (names : List (Uuid × String)) where
  timeline_entry-segment :
      (s : ObservedSegment) (e : LabelTimelineEntry)
      → timeline_entry confirmations names s ≡ some e
      → e.segment ≡ s
  unfolding timeline_entry
  timeline_entry-segment s e h = ground arith

  -- What a segment does to the open group and the items after it.
  abbrev Step :
      List LabelTimelineEntry
      → ObservedSegment
      → List ObservedSegment
      → List LabelTimelineItem
      → Type 0
  Step es s segments items =
      ((rest : List LabelTimelineItem) × (group_from confirmations names [] segments ≡ some rest)
        × (flush es ++ alone s ∷ rest ≡ items))
      ⊎ ((entry : LabelTimelineEntry) × (entry.segment ≡ s)
          × (((breaks entry es ≡ true)
                × ((rest : List LabelTimelineItem) × (group_from confirmations names (entry ∷ [])
                        segments
                      ≡ some rest)
                    × (flush es ++ rest ≡ items)))
              ⊎ ((breaks entry es ≡ false)
                  × (group_from confirmations names (es ++ entry ∷ []) segments ≡ some items))))

  group_from-Step :
      (es : List LabelTimelineEntry) (s : ObservedSegment) (segments : List ObservedSegment)
      (items : List LabelTimelineItem)
      → group_from confirmations names es (s ∷ segments) ≡ some items
      → Step es s segments items
  unfolding group_from
  group_from-Step es s segments items h = elim (Bool-cases (is_labelable s.kind)) [
    | inr other ↦
        let (rest, e, made) =
          and_then-some (group_from confirmations names [] segments) _ (rw other at h) in
        inl (rest, e, some-injective made)
    | inl closed ↦
        let (entry, e, next) =
          and_then-some (timeline_entry confirmations names s) _ (rw closed at h) in
        inr (entry, timeline_entry-segment s entry e, by_break (breaks entry es) entry refl next)
  ]
    where
      by_break :
          (b : Bool) (entry : LabelTimelineEntry)
          → breaks entry es ≡ b
          → (if b
              then and_then
                  (group_from confirmations names (entry ∷ []) segments)
                  (λ items. some (flush es ++ items))
              else group_from confirmations names (es ++ entry ∷ []) segments)
            ≡ some items
          → ((breaks entry es ≡ true)
              × ((rest : List LabelTimelineItem) × (group_from confirmations names
                      (entry ∷ [])
                      segments
                    ≡ some rest)
                  × (flush es ++ rest ≡ items)))
            ⊎ ((breaks entry es ≡ false)
                × (group_from confirmations names (es ++ entry ∷ []) segments ≡ some items))
      by_break true entry b next =
          let (rest, e, made) =
            and_then-some (group_from confirmations names (entry ∷ []) segments) _ next in
          inl (b, (rest, e, some-injective made))
      by_break false entry b next = inr (b, next)

  group_from-segments :
      (es : List LabelTimelineEntry) (segments : List ObservedSegment)
      (items : List LabelTimelineItem)
      → group_from confirmations names es segments ≡ some items
      → segments_of items ≡ map (λ e. e.segment) es ++ segments
  unfolding group_from
  group_from-segments es [] items h =
      subst (λ l. segments_of l ≡ map (λ e. e.segment) es ++ []) (flush-only h)
        (segments_of-flush es [])
    where
      flush-only : some (flush es) ≡ some items → flush es ++ [] ≡ items
      flush-only q = append-nil (flush es) ∙ cc
  group_from-segments es (s ∷ segments) items h = elim (group_from-Step es s segments items h) [
    | inl (rest, e, made) ↦
        ap segments_of (sym made)
        ∙ segments_of-flush es (alone s ∷ rest)
        ∙ ap (λ l. map (λ d. d.segment) es ++ s ∷ l) (group_from-segments [] segments rest e)
    | inr (entry, same, inl (broken, (rest, e, made))) ↦
        ap segments_of (sym made)
        ∙ segments_of-flush es rest
        ∙ ap (λ l. map (λ d. d.segment) es ++ l) (group_from-segments (entry ∷ []) segments rest e)
        ∙ ap (λ x. map (λ d. d.segment) es ++ x ∷ segments) same
    | inr (entry, same, inr (joined, e)) ↦
        group_from-segments (es ++ entry ∷ []) segments items e
        ∙ map-append_one es entry segments
        ∙ ap (λ x. map (λ d. d.segment) es ++ x ∷ segments) same
  ]

  -- The items that follow an open group start with it.
  group_from-head :
      (e : LabelTimelineEntry) (es : List LabelTimelineEntry) (segments : List ObservedSegment)
      (items : List LabelTimelineItem)
      → group_from confirmations names (e ∷ es) segments ≡ some items
      → (ds : List LabelTimelineEntry) × (rest : List LabelTimelineItem) × (group (e ∷ ds) ∷ rest
          ≡ items)
  unfolding group_from
  group_from-head e es [] items h = (es, [], only h)
    where
      only : some (group (e ∷ es) ∷ []) ≡ some items → group (e ∷ es) ∷ [] ≡ items
      only q = cc
  group_from-head e es (s ∷ segments) items h = elim (group_from-Step (e ∷ es) s segments items h) [
    | inl (rest, e', made) ↦ (es, alone s ∷ rest, made)
    | inr (entry, same, inl (broken, (rest, e', made))) ↦ (es, rest, made)
    | inr (entry, same, inr (joined, e')) ↦ group_from-head e (es ++ entry ∷ []) segments items e'
  ]

  group_from-groups :
      (es : List LabelTimelineEntry) (segments : List ObservedSegment)
      (items : List LabelTimelineItem)
      → Linked es
      → group_from confirmations names es segments ≡ some items
      → All IsGroup items × Separated items
  unfolding group_from
  group_from-groups es [] items l h =
      subst (λ r. All IsGroup r × Separated r) (flush-all h) (last_group es l)
    where
      flush-all : some (flush es) ≡ some items → flush es ≡ items
      flush-all q = cc

      last_group :
          (ds : List LabelTimelineEntry) → Linked ds → All IsGroup (flush ds) × Separated (flush ds)
      last_group [] l = (tt, tt)
      last_group (d ∷ ds) l = ((l, tt), tt)
  group_from-groups es (s ∷ segments) items l h = elim (group_from-Step es s segments items h) [
    | inl (rest, e, made) ↦
        let (each, apart) = group_from-groups [] segments rest tt e in
        subst (λ r. All IsGroup r × Separated r) made
          (
            flush-IsGroup es (alone s ∷ rest) l (tt, each),
            flush-Separated es s rest (Separated-alone s rest apart),
          )
    | inr (entry, same, inl (broken, (rest, e, made))) ↦
        let (each, apart) = group_from-groups (entry ∷ []) segments rest tt e in
        let (ds, more, starts) = group_from-head entry [] segments rest e in
        subst (λ r. All IsGroup r × Separated r) made
          (
            flush-IsGroup es rest l each,
            subst (λ r. Separated (flush es ++ r)) starts
                (break-Separated es entry ds more broken (subst Separated (sym starts) apart)),
          )
    | inr (entry, same, inr (joined, e)) ↦
        group_from-groups (es ++ entry ∷ []) segments items (Linked-append_one es entry l joined) e
  ]

  -- Grouping neither loses, repeats nor reorders a segment.
  pub group_items-segments :
      (segments : List ObservedSegment) (items : List LabelTimelineItem)
      → group_items confirmations names segments ≡ some items
      → segments_of items ≡ segments
  unfolding group_items
  group_items-segments segments items h = group_from-segments [] segments items h

  -- The groups are those of adjacent segments with the same label state, as long as can be: the
  -- entries of a group join, and of two groups in a row the second does not join the first.
  pub group_items-groups :
      (segments : List ObservedSegment) (items : List LabelTimelineItem)
      → group_items confirmations names segments ≡ some items
      → All IsGroup items × Separated items
  unfolding group_items
  group_items-groups segments items h = group_from-groups [] segments items tt h
