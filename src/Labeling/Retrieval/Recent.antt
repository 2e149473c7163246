-- ===== src/Labeling/Retrieval/Recent.antt =====
-- The examples that are retrieved (`RecentConfirmedExampleRetriever.find` of
-- labeling/application/proposals.py).
use mosemo.Prelude.{
  ℕ, String, zero, suc, ◌+◌, ◌≤◌, ◌<◌, ◌≡◌, refl, ap, sym, ◌∙◌, subst, Bool, true, false, ◌&&◌,
  Option, none, some, List, [], ◌∷◌, ◌++◌, nat_eq, string_eq, ◌==◌, ==_iff, ltb, arith, All,
  All-append, and_then, and_then-some, some-injective, length, length-append, map, if◌then◌else◌,
}
use mosemo.Shared.Time.{Instant, Uuid}
use mosemo.Observation.Activities.{Context}
use mosemo.Observation.Observed.{
  VersionFields, ObservedSegment, find_by_first_events, get_by_first_event,
}
use mosemo.Labeling.Confirmations.{Confirmation, applies_to}
use mosemo.Labeling.Attempts.{current_version}
use mosemo.Labeling.States.{Store}
use mosemo.Labeling.Retrieval.{
  ConfirmedExample, max_examples, example_page_size, example_rows, list_example_page, is_offered,
  is_current, is_usable_as_suggestion_example, example_of, example_if_usable, add_examples,
  find_from, find_recent_examples,
}
use mosemo.Labeling.Retrieval.Sources.{
  IsSeen, find_by_first_events-IsSeen, get_by_first_event-IsSeen, IsCandidate,
  list_example_page-IsCandidate,
}

module _ (digest : VersionFields → String) (summarize : Context → Option String) (s : Store)
    (account exclude : Uuid) (active : List Uuid) (now : Instant) where
  -- Why an example may be shown: a confirmation of the account, of another segment, whose version is
  -- the current one of the segment, and whose label is offered; the text is that of the segment.
  abbrev pub IsJustified : ConfirmedExample → Type 0
  IsJustified e =
      (c : Confirmation) × IsCandidate s.confirmations account exclude c
      × (e.confirmation_id ≡ c.id)
      × (e.label_id ≡ c.label_id)
      × (is_offered active c.label_id ≡ true)
      × ((o : ObservedSegment) × IsSeen digest s.segments account now o
          × (o.first_event_id ≡ c.first_event_id)
          × (current_version (some o) ≡ some c.segment_version)
          × ((context : Context) × (o.context ≡ some context)
              × (summarize context ≡ some e.activity)))

  example_if_usable-IsJustified :
      (c : Confirmation) (o : Option ObservedSegment) (e : ConfirmedExample)
      → IsCandidate s.confirmations account exclude c
      → ((p : ObservedSegment)
          → o ≡ some p
          → IsSeen digest s.segments account now p × (p.first_event_id ≡ c.first_event_id))
      → example_if_usable summarize c o active ≡ some (some e)
      → IsJustified e
  unfolding example_if_usable is_usable_as_suggestion_example applies_to
  example_if_usable-IsJustified c none e own seen h = absurd (cc)
  example_if_usable-IsJustified c (some o) e own seen h =
      by_test (is_current c (current_version (some o))) (is_offered active c.label_id) refl refl h
    where
      version : (v : Option String) → is_current c v ≡ true → v ≡ some c.segment_version
      version none k = absurd (cc)
      version (some x) k = ap some (sym ((==_iff c.segment_version x).0 k))

      by_test :
          (current offered : Bool)
          → is_current c (current_version (some o)) ≡ current
          → is_offered active c.label_id ≡ offered
          → (if current && offered
              then and_then (example_of summarize c o) (λ x. some (some x))
              else some none)
            ≡ some (some e)
          → IsJustified e
      by_test true true k l h =
          let (made, e0, e1) = and_then-some (example_of summarize c o) _ h in
          let (context, e2, e3) = and_then-some o.context _ e0 in
          let (activity, e4, e5) = and_then-some (summarize context) _ e3 in
          let same : ◌≡◌ {A = ConfirmedExample}
              (record { confirmation_id = c.id; activity = activity; label_id = c.label_id }) e =
            some-injective e5 ∙ some-injective (some-injective e1) in
          let (there, starts) = seen o refl in
          subst IsJustified same (
            c,
            own,
            refl,
            refl,
            l,
            (o, there, starts, version (current_version (some o)) k, (context, e2, e4)),
          )
      by_test true false k l h = absurd (cc)
      by_test false true k l h = absurd (cc)
      by_test false false k l h = absurd (cc)

  -- Examples that are justified and few.
  abbrev pub AreExamples : List ConfirmedExample → Type 0
  AreExamples examples = All IsJustified examples × (length examples ≤ max_examples)

  add_examples-AreExamples :
      (segments : List ObservedSegment) (rows : List Confirmation)
      (examples found : List ConfirmedExample)
      → All (IsSeen digest s.segments account now) segments
      → All (IsCandidate s.confirmations account exclude) rows
      → All IsJustified examples
      → length examples < max_examples
      → add_examples summarize active segments rows examples ≡ some found
      → AreExamples found
  unfolding add_examples
  add_examples-AreExamples segments [] examples found seen own h room e =
      subst AreExamples (some-injective e) (h, omega arith)
  add_examples-AreExamples segments (c ∷ rows) examples found seen own h room e =
      let (made, e0, rest) =
        and_then-some
          (example_if_usable summarize c (get_by_first_event segments c.first_event_id) active) _
          e in
      by_made made e0 (λ xs k r q. add_examples-AreExamples segments rows xs found seen own.1 k r q)
        rest
    where
      Later : Type 0
      Later =
          (xs : List ConfirmedExample)
          → All IsJustified xs
          → length xs < max_examples
          → add_examples summarize active segments rows xs ≡ some found
          → AreExamples found

      by_made :
          (made : Option ConfirmedExample)
          → example_if_usable summarize c (get_by_first_event segments c.first_event_id) active
            ≡ some made
          → Later
          → (elim made [
            | none ↦ add_examples summarize active segments rows examples
            | some x ↦ elim (length (examples ++ x ∷ []) == max_examples) [
              | true ↦ some (examples ++ x ∷ [])
              | false ↦ add_examples summarize active segments rows (examples ++ x ∷ [])
            ]
          ])
            ≡ some found
          → AreExamples found
      by_made none e0 f k = f examples h room k
      by_made (some x) e0 f k =
          by_full (length (examples ++ x ∷ []) == max_examples) refl
            (All-append IsJustified examples (x ∷ []) h (justified, tt)) k
        where
          justified : IsJustified x
          justified =
              example_if_usable-IsJustified c (get_by_first_event segments c.first_event_id) x own.0
                (λ p q.
                  get_by_first_event-IsSeen digest s.segments account now segments c.first_event_id
                    p seen q)
                e0

          by_full :
              (full : Bool)
              → (length (examples ++ x ∷ []) == max_examples) ≡ full
              → All IsJustified (examples ++ x ∷ [])
              → (elim full [
                | true ↦ some (examples ++ x ∷ [])
                | false ↦ add_examples summarize active segments rows (examples ++ x ∷ [])
              ])
                ≡ some found
              → AreExamples found
          by_full true t j k =
              subst AreExamples (some-injective k)
                (j, omega (arith, length-append examples (x ∷ [])))
          by_full false t j k =
              f (examples ++ x ∷ []) j (ground (arith, length-append examples (x ∷ []))) k

  find_from-AreExamples :
      (fuel offset : ℕ) (examples found : List ConfirmedExample)
      → AreExamples examples
      → find_from summarize digest fuel s account exclude active now offset examples ≡ some found
      → AreExamples found
  unfolding find_from
  find_from-AreExamples zero offset examples found h e = subst AreExamples (some-injective e) h
  find_from-AreExamples (suc fuel) offset examples found h e =
      by_room (ltb (length examples) max_examples) refl
        (λ next xs k q. find_from-AreExamples fuel next xs found k q) e
    where
      Later : Type 0
      Later =
          (next : ℕ) (xs : List ConfirmedExample)
          → AreExamples xs
          → find_from summarize digest fuel s account exclude active now next xs ≡ some found
          → AreExamples found

      by_size :
          (short : Bool) (next : ℕ) (more : List ConfirmedExample)
          → Later
          → AreExamples more
          → (elim short [
            | true ↦ some more
            | false ↦ find_from summarize digest fuel s account exclude active now next more
          ])
            ≡ some found
          → AreExamples found
      by_size true next more f k q = subst AreExamples (some-injective q) k
      by_size false next more f k q = f next more k q

      by_page :
          (page : List Confirmation)
          → All (IsCandidate s.confirmations account exclude) page
          → length examples < max_examples
          → Later
          → (elim page [
            | [] ↦ some examples
            | c ∷ rows ↦
                and_then
                  (find_by_first_events digest s.segments account
                    (map (λ r. r.first_event_id) (c ∷ rows))
                    now)
                  λ segments.
                    and_then (add_examples summarize active segments (c ∷ rows) examples) λ more.
                      elim (ltb (length (c ∷ rows)) example_page_size) [
                        | true ↦ some more
                        | false ↦
                            find_from summarize digest fuel s account exclude active now
                              (offset + length (c ∷ rows))
                              more
                      ]
          ])
            ≡ some found
          → AreExamples found
      by_page [] own room f q = subst AreExamples (some-injective q) h
      by_page (c ∷ rows) own room f q =
          let (segments, read, q1) =
            and_then-some
              (find_by_first_events digest s.segments account
                (map (λ r. r.first_event_id) (c ∷ rows)) now)
              _ q in
          let (more, added, q2) =
            and_then-some (add_examples summarize active segments (c ∷ rows) examples) _ q1 in
          by_size (ltb (length (c ∷ rows)) example_page_size) (offset + length (c ∷ rows)) more f
            (add_examples-AreExamples segments (c ∷ rows) examples more
              (find_by_first_events-IsSeen digest s.segments account now
                (map (λ r. r.first_event_id) (c ∷ rows)) segments read)
              own h.0 room added)
            q2

      by_room :
          (room : Bool)
          → ltb (length examples) max_examples ≡ room
          → Later
          → (elim room [
            | false ↦ some examples
            | true ↦
                elim (list_example_page s.confirmations account exclude example_page_size offset) [
                  | [] ↦ some examples
                  | c ∷ rows ↦
                      and_then
                        (find_by_first_events digest s.segments account
                          (map (λ r. r.first_event_id) (c ∷ rows))
                          now)
                        λ segments.
                          and_then
                            (add_examples summarize active segments (c ∷ rows) examples)
                            λ more. elim (ltb (length (c ∷ rows)) example_page_size) [
                              | true ↦ some more
                              | false ↦
                                  find_from summarize digest fuel s account exclude active now
                                    (offset + length (c ∷ rows))
                                    more
                            ]
                ]
          ])
            ≡ some found
          → AreExamples found
      by_room false t f q = subst AreExamples (some-injective q) h
      by_room true t f q =
          by_page (list_example_page s.confirmations account exclude example_page_size offset)
            (list_example_page-IsCandidate s.confirmations account exclude example_page_size offset)
            (ground arith) f q

  -- The examples shown to the model are few and justified: at most eight, each made of a confirmation of
  -- this account, of another segment than the one that is proposed for, whose version is still the
  -- current one of the closed segment it stands for, with its text, and whose label is none or offered.
  pub find_recent_examples-AreExamples :
      (found : List ConfirmedExample)
      → find_recent_examples summarize digest s account exclude active now ≡ some found
      → AreExamples found
  unfolding find_recent_examples
  find_recent_examples-AreExamples found e =
      find_from-AreExamples (suc (length (example_rows s.confirmations account exclude))) 0 [] found
        (tt, omega arith) e
