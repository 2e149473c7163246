-- ===== src/Labeling/Confirming/Batches.antt =====
-- Confirming a batch of labels (labeling/application/confirmations.py, `ConfirmSegmentLabels`).
use mosemo.Prelude.{
  ℕ, ◌+◌, ◌≡◌, refl, ◌∙◌, ap, subst, String, Bool, true, List, [], ◌∷◌, nat_eq, string_eq,
  option_eq, Result, ok, err, ◌>>◌, guard, >>=-ok, ok-injective, unit_of_work,
}
use mosemo.Shared.Time.{Instant, Uuid}
use mosemo.Observation.Observed.{VersionFields}
use mosemo.Labeling.Confirmations.{LabelError, timeline_busy, matches_batch_selection}
use mosemo.Labeling.States.{Store, SegmentLabelState, find_confirmation}
use mosemo.Labeling.Confirming.{
  LabelSelection, Target, BatchError, whole, save, saved_confirmation, as_whole, validate_all,
  save_all, reject_duplicate_segments, confirm_labels, confirm_segment_labels,
}
use mosemo.Labeling.Confirming.Saving.{saved_confirmation-IsSaved}
use mosemo.Labeling.Confirming.Single.{save_lem}
use mosemo.Labeling.Confirming.Targets.{
  IsAnswer, Answers, IsTarget, AreTargets, validate_all-AreTargets,
}
use mosemo.Labeling.Confirming.Persisting.{IsReady, save_all-ArePersisted}
use mosemo.Observation.Segments.{Segment}
use mosemo.Labeling.Confirming.Stored.{
  Distinct, reject_duplicate_segments-Distinct, AreStored, KeepsOthers, StartApart,
  targets-AreApart, ArePersisted-AreStored, NamesOther-IsApart,
}

-- Saving touches no other table than the confirmations.
abbrev pub SameOthers : Store → Store → Type 0
SameOthers s t = (t.segments ≡ s.segments) × (t.proposals ≡ s.proposals) × (t.labels ≡ s.labels)

save-IsAnswer :
    (digest : VersionFields → String) (segments : List Segment) (id account : Uuid)
    (choice : LabelSelection) (target : Target) (now : Instant) (s t : Store)
    (state : SegmentLabelState)
    → IsTarget digest now segments account choice target
    → save id account target now s ≡ ok (state, t)
    → IsAnswer choice state × SameOthers s t
save-IsAnswer digest segments id account choice target now s t state
      (same_id, same_version, same_label, there) h =
    let saved =
      saved_confirmation id account target now
        (find_confirmation s.confirmations account target.segment.first_event_id) in
    let (i, v, c, e) = save_lem id account target now s t state h in
    let k = (saved_confirmation-IsSaved id account target now s.confirmations).1 in
    (
      (
        i ∙ same_id,
        v ∙ same_version,
        (
          saved,
          c,
          subst (λ version. matches_batch_selection saved version choice.label_id ≡ true)
              same_version
              (subst (λ label. matches_batch_selection saved target.version label ≡ true) same_label
                k),
        ),
      ),
      (ap (λ r. r.segments) e, ap (λ r. r.proposals) e, ap (λ r. r.labels) e),
    )

save_all-Answers :
    (digest : VersionFields → String) (segments : List Segment) (uuid7 : ℕ → Uuid) (account : Uuid)
    (choices : List LabelSelection) (targets : List Target) (now : Instant) (s t : Store)
    (states : List SegmentLabelState)
    → AreTargets digest now segments account choices targets
    → save_all uuid7 account targets now s ≡ ok (states, t)
    → Answers choices states × SameOthers s t
unfolding save_all
save_all-Answers digest segments uuid7 account [] [] now s t states k h =
    subst (λ r. Answers [] r.0 × SameOthers s r.1) (ok-injective h) (tt, (refl, refl, refl))
save_all-Answers digest segments uuid7 account [] (target ∷ targets) now s t states k h = absurd k
save_all-Answers digest segments uuid7 account (choice ∷ choices) [] now s t states k h = absurd k
save_all-Answers digest segments uuid7 account (choice ∷ choices) (target ∷ targets) now s t states
      k h =
    let ((state, s1), saved, h1) = >>=-ok (save (uuid7 0) account target now s) _ h in
    let ((states', s2), others, h2) =
      >>=-ok (save_all (λ n. uuid7 (n + 1)) account targets now s1) _ h1 in
    let made = ok-injective h2 in
    let (answer, same) =
      save-IsAnswer digest segments (uuid7 0) account choice target now s s1 state k.0 saved in
    let (answers, same') =
      save_all-Answers digest segments (λ n. uuid7 (n + 1)) account choices targets now s1 s2
        states' k.1 others in
    subst (λ r. Answers (choice ∷ choices) r.0 × SameOthers s r.1) made
      ((answer, answers), (same'.0 ∙ same.0, same'.1 ∙ same.1, same'.2 ∙ same.2))

module _ (digest : VersionFields → String) (account : Uuid) (now : Instant) (s : Store) where
  -- What a batch did, by how it ended.
  abbrev pub ConfirmsAll :
      List LabelSelection → Result BatchError (List SegmentLabelState) × Store → Type 0
  ConfirmsAll choices (ok states, t) =
      Distinct choices
      × Answers choices states
      × AreStored digest account now s t choices states
      × KeepsOthers digest account now s choices t
      × SameOthers s t
  ConfirmsAll choices (err e, t) = t ≡ s

as_whole-ok :
    (r : Result LabelError (List SegmentLabelState × Store)) (a : List SegmentLabelState × Store)
    → as_whole r ≡ ok a
    → r ≡ ok a
as_whole-ok (ok a') a h = cc
as_whole-ok (err e) a h = absurd (cc)

module _ (digest : VersionFields → String) (free : Bool) (uuid7 : ℕ → Uuid) (account : Uuid)
    (choices : List LabelSelection) (now : Instant) (s : Store)
    (start : StartApart digest account now s) (ready : IsReady uuid7 s.confirmations) where
  confirm_labels-ConfirmsAll :
      (t : Store) (states : List SegmentLabelState)
      → (reject_duplicate_segments 0 [] choices
          >> confirm_labels digest free uuid7 account choices now s)
        ≡ ok (states, t)
      → ConfirmsAll digest account now s choices (ok states, t)
  unfolding confirm_labels
  confirm_labels-ConfirmsAll t states h =
      let (u, distinct, h1) = >>=-ok (reject_duplicate_segments 0 [] choices) _ h in
      let (_, locked, h2) = >>=-ok (guard free (whole timeline_busy)) _ h1 in
      let (targets, valid, h3) = >>=-ok (validate_all digest 0 account choices now s) _ h2 in
      let all = validate_all-AreTargets digest now 0 account choices s targets valid in
      let saved = as_whole-ok _ _ h3 in
      let (answers, same) =
        save_all-Answers digest s.segments uuid7 account choices targets now s t states all saved in
      let once = (reject_duplicate_segments-Distinct 0 [] choices u distinct).0 in
      let (persisted, kept) =
        save_all-ArePersisted account uuid7 targets now s t states
          (targets-AreApart digest account now s start choices targets once all) ready saved in
      (
        once,
        answers,
        ArePersisted-AreStored digest account now s t choices targets states all persisted,
        (λ account' event' h.
            kept account' event'
              (NamesOther-IsApart digest account now s account' event' choices targets all h)),
        same,
      )

  -- A batch is all or nothing. One that succeeds selects no segment twice and answers every selection in
  -- the order of the request with its segment confirmed as selected; the table then has exactly
  -- these confirmations for the segments, every other confirmation is the same, and so are the other
  -- tables. One that fails leaves the store as it was. This is so where no two segments of the
  -- account start with the same event, the stored confirmations have different identifiers, and the
  -- generated ones are new and different.
  pub confirm_segment_labels-ConfirmsAll :
      ConfirmsAll digest account now s choices
        (confirm_segment_labels digest free uuid7 account choices now s)
  unfolding confirm_segment_labels
  confirm_segment_labels-ConfirmsAll =
      by_result
        (reject_duplicate_segments 0 [] choices
          >> confirm_labels digest free uuid7 account choices now s)
        refl
    where
      by_result :
          (r : Result BatchError (List SegmentLabelState × Store))
          → (reject_duplicate_segments 0 [] choices
              >> confirm_labels digest free uuid7 account choices now s)
            ≡ r
          → ConfirmsAll digest account now s choices (unit_of_work (λ t. r) s)
      by_result (ok (states, t)) h = confirm_labels-ConfirmsAll t states h
      by_result (err e) h = refl
