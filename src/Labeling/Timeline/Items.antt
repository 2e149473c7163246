-- ===== src/Labeling/Timeline/Items.antt =====
-- Items and groups of the label timeline (labeling/application/timeline.py).
use mosemo.Prelude.{◌≡◌, refl, ap, true, false, List, [], ◌∷◌, ◌++◌, map, arith, All}
use mosemo.Observation.Observed.{ObservedSegment}
use mosemo.Labeling.Timeline.{
  LabelTimelineEntry, LabelTimelineItem, group, alone, joins, flush, breaks,
}

abbrev pub segments_in : LabelTimelineItem → List ObservedSegment
segments_in (group es) = map (λ e. e.segment) es
segments_in (alone s) = s ∷ []

-- The segments of the items, in order.
abbrev pub segments_of : List LabelTimelineItem → List ObservedSegment
segments_of [] = []
segments_of (i ∷ items) = segments_in i ++ segments_of items

pub segments_of-flush :
    (es : List LabelTimelineEntry) (items : List LabelTimelineItem)
    → segments_of (flush es ++ items) ≡ map (λ e. e.segment) es ++ segments_of items
segments_of-flush [] items = refl
segments_of-flush (e ∷ es) items = refl

pub map-append_one :
    (es : List LabelTimelineEntry) (e : LabelTimelineEntry) (segments : List ObservedSegment)
    → map (λ d. d.segment) (es ++ e ∷ []) ++ segments
      ≡ map (λ d. d.segment) es ++ e.segment ∷ segments
map-append_one [] e segments = refl
map-append_one (d ∷ es) e segments = ap (λ l. d.segment ∷ l) (map-append_one es e segments)

-- Every entry joins the one before it.
abbrev pub Linked : List LabelTimelineEntry → Type 0
Linked [] = Unit
Linked (e ∷ []) = Unit
Linked (e ∷ d ∷ es) = (joins d e ≡ true) × Linked (d ∷ es)

-- A group has entries, and they join.
abbrev pub IsGroup : LabelTimelineItem → Type 0
IsGroup (group []) = ⊥
IsGroup (group (e ∷ es)) = Linked (e ∷ es)
IsGroup (alone s) = Unit

-- Of two groups in a row, the second starts with an entry that does not join the first.
abbrev pub Apart : LabelTimelineItem → LabelTimelineItem → Type 0
Apart (group es) (group (d ∷ ds)) = breaks d es ≡ true
Apart (group es) (group []) = Unit
Apart (group es) (alone s) = Unit
Apart (alone s) i = Unit

abbrev pub Separated : List LabelTimelineItem → Type 0
Separated [] = Unit
Separated (i ∷ []) = Unit
Separated (i ∷ j ∷ items) = Apart i j × Separated (j ∷ items)

pub Separated-alone :
    (s : ObservedSegment) (items : List LabelTimelineItem)
    → Separated items
    → Separated (alone s ∷ items)
Separated-alone s [] h = tt
Separated-alone s (i ∷ items) h = (tt, h)

pub Linked-append_one :
    (es : List LabelTimelineEntry) (e : LabelTimelineEntry)
    → Linked es
    → breaks e es ≡ false
    → Linked (es ++ e ∷ [])
Linked-append_one [] e l h = tt
Linked-append_one (d ∷ []) e l h = (ground arith, tt)
Linked-append_one (d ∷ c ∷ es) e l h = (l.0, Linked-append_one (c ∷ es) e l.1 h)

-- The open group, closed before the items that follow it.
pub flush-IsGroup :
    (es : List LabelTimelineEntry) (items : List LabelTimelineItem)
    → Linked es
    → All IsGroup items
    → All IsGroup (flush es ++ items)
flush-IsGroup [] items l h = h
flush-IsGroup (e ∷ es) items l h = (l, h)

pub flush-Separated :
    (es : List LabelTimelineEntry) (s : ObservedSegment) (items : List LabelTimelineItem)
    → Separated (alone s ∷ items)
    → Separated (flush es ++ alone s ∷ items)
flush-Separated [] s items h = h
flush-Separated (e ∷ es) s items h = (tt, h)

pub break-Separated :
    (es : List LabelTimelineEntry) (d : LabelTimelineEntry) (ds : List LabelTimelineEntry)
    (items : List LabelTimelineItem)
    → breaks d es ≡ true
    → Separated (group (d ∷ ds) ∷ items)
    → Separated (flush es ++ group (d ∷ ds) ∷ items)
break-Separated [] d ds items b h = h
break-Separated (e ∷ es) d ds items b h = (b, h)
