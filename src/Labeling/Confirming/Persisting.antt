-- ===== src/Labeling/Confirming/Persisting.antt =====
-- What a batch of saves leaves in the confirmations table (`ConfirmSegmentLabels` of
-- labeling/application/confirmations.py).
use mosemo.Prelude.{
  ℕ, ◌+◌, ◌≡◌, inl, inr, refl, ap, sym, ◌∙◌, subst, Bool, true, false, ◌&&◌, Bool-cases, Option,
  none, some, List, [], ◌∷◌, ◌++◌, nat_eq, string_eq, option_eq, ◌==◌, ==_iff, replace, All, arith,
  ok, >>=-ok, ok-injective, if◌then◌else◌,
}
use mosemo.Shared.Time.{Instant, Uuid}
use mosemo.Labeling.Confirmations.{Confirmation, matches_batch_selection}
use mosemo.Labeling.Confirmations.Selections.{apply_selection_lem}
use mosemo.Labeling.States.{Store, SegmentLabelState, find_confirmation}
use mosemo.Labeling.Confirming.{Target, saved_confirmation, save_row, save, save_all}
use mosemo.Labeling.Confirming.Saving.{
  UniqueIds, saved_confirmation-IsSaved, find_confirmation-save_row, find_confirmation-save_row_ne,
}
use mosemo.Labeling.Confirming.Single.{save_lem}

-- No confirmation has the identifier.
abbrev pub IsNew : Uuid → List Confirmation → Type 0
IsNew id rows = All (λ d. (d.id == id) ≡ false) rows

IsNew-append :
    (id : Uuid) (rows : List Confirmation) (saved : Confirmation)
    → IsNew id rows
    → (saved.id == id) ≡ false
    → IsNew id (rows ++ saved ∷ [])
IsNew-append id [] saved h e = (e, tt)
IsNew-append id (r ∷ rows) saved h e = (h.0, IsNew-append id rows saved h.1 e)

IsNew-replace :
    (id old : Uuid) (rows : List Confirmation) (saved : Confirmation)
    → saved.id ≡ old
    → IsNew id rows
    → IsNew id (replace (λ r. r.id == old) (λ r. saved) rows)
IsNew-replace id old [] saved e h = tt
IsNew-replace id old (r ∷ rows) saved e h =
    (one (r.id == old) refl, IsNew-replace id old rows saved e h.1)
  where
    one : (b : Bool) → (r.id == old) ≡ b → ((if b then saved else r).id == id) ≡ false
    one true k = let same = (==_iff r.id old).0 k in rw (e ∙ sym same) h.0
    one false k = h.0

UniqueIds-append :
    (rows : List Confirmation) (saved : Confirmation)
    → UniqueIds rows
    → IsNew saved.id rows
    → UniqueIds (rows ++ saved ∷ [])
UniqueIds-append [] saved u h = (tt, tt)
UniqueIds-append (r ∷ rows) saved u h =
    (IsNew-append r.id rows saved u.0 (ground (arith, h.0)), UniqueIds-append rows saved u.1 h.1)

UniqueIds-replace :
    (old : Uuid) (rows : List Confirmation) (saved : Confirmation)
    → saved.id ≡ old
    → UniqueIds rows
    → UniqueIds (replace (λ r. r.id == old) (λ r. saved) rows)
UniqueIds-replace old [] saved e u = tt
UniqueIds-replace old (r ∷ rows) saved e u =
    (one (r.id == old) refl, UniqueIds-replace old rows saved e u.1)
  where
    one :
        (b : Bool)
        → (r.id == old) ≡ b
        → IsNew (if b then saved else r).id (replace (λ r. r.id == old) (λ r. saved) rows)
    one true k =
        let same = (==_iff r.id old).0 k in
        IsNew-replace saved.id old rows saved e (subst (λ i. IsNew i rows) (same ∙ sym e) u.0)
    one false k = IsNew-replace r.id old rows saved e u.0

-- What the saves need of the table and of the generator: unique identifiers, and new ones from the
-- generator.
abbrev pub IsReady : (ℕ → Uuid) → List Confirmation → Type 0
IsReady uuid7 rows =
    UniqueIds rows × ((n : ℕ) → IsNew (uuid7 n) rows) × ((m n : ℕ) → uuid7 m ≡ uuid7 n → m ≡ n)

save_row-IsReady :
    (uuid7 : ℕ → Uuid) (account : Uuid) (target : Target) (now : Instant) (rows : List Confirmation)
    (o : Option Confirmation)
    → IsReady uuid7 rows
    → IsReady
        (λ n. uuid7 (n + 1))
        (save_row (saved_confirmation (uuid7 0) account target now o) o rows)
save_row-IsReady uuid7 account target now rows none (u, new, injective) = (
  UniqueIds-append rows _ u (new 0),
  (λ n. IsNew-append (uuid7 (n + 1)) rows _ (new (n + 1)) (other n)),
  (λ m n e. let same = injective (m + 1) (n + 1) e in omega arith),
)
  where
    other : (n : ℕ) → (uuid7 0 == uuid7 (n + 1)) ≡ false
    other n = elim (Bool-cases (uuid7 0 == uuid7 (n + 1))) [
      | inl e ↦
          absurd
            (let same = injective 0 (n + 1) ((==_iff (uuid7 0) (uuid7 (n + 1))).0 e) in omega arith)
      | inr e ↦ e
    ]
save_row-IsReady uuid7 account target now rows (some c) (u, new, injective) =
    let kept = (apply_selection_lem target.version target.label_id now c).1 in
    (
      UniqueIds-replace c.id rows _ kept u,
      (λ n. IsNew-replace (uuid7 (n + 1)) c.id rows _ kept (new (n + 1))),
      (λ m n e. let same = injective (m + 1) (n + 1) e in omega arith),
    )

module _ (account : Uuid) where
  -- The confirmation is not of a target's segment.
  abbrev pub IsApart : Uuid → Uuid → Target → Type 0
  IsApart account' event' target =
      ((account == account') && (target.segment.first_event_id == event')) ≡ false

  -- The targets' segments start with different events.
  abbrev pub AreApart : List Target → Type 0
  AreApart [] = Unit
  AreApart (target ∷ targets) =
      All (λ other. (other.segment.first_event_id == target.segment.first_event_id) ≡ false) targets
      × AreApart targets

  -- The state shows the confirmation that the table has for the target's segment, which is as selected.
  abbrev pub IsPersisted : List Confirmation → Target → SegmentLabelState → Type 0
  IsPersisted rows target state =
      (c : Confirmation) × (state.confirmation ≡ some c)
      × (matches_batch_selection c target.version target.label_id ≡ true)
      × (find_confirmation rows account target.segment.first_event_id ≡ some c)

  abbrev pub ArePersisted : List Confirmation → List Target → List SegmentLabelState → Type 0
  ArePersisted rows [] [] = Unit
  ArePersisted rows (target ∷ targets) (state ∷ states) =
      IsPersisted rows target state × ArePersisted rows targets states
  ArePersisted rows [] (state ∷ states) = ⊥
  ArePersisted rows (target ∷ targets) [] = ⊥

  -- The other confirmations are the same.
  abbrev pub Preserves : List Target → List Confirmation → List Confirmation → Type 0
  Preserves targets rows rows' =
      (account' event' : Uuid)
      → All (IsApart account' event') targets
      → find_confirmation rows' account' event' ≡ find_confirmation rows account' event'

  AreApart-IsApart :
      (target : Target) (targets : List Target)
      → All
          (λ other. (other.segment.first_event_id == target.segment.first_event_id) ≡ false)
          targets
      → All (IsApart account target.segment.first_event_id) targets
  AreApart-IsApart target [] h = tt
  AreApart-IsApart target (other ∷ targets) h = (ground arith, AreApart-IsApart target targets h.1)

  pub save_all-ArePersisted :
      (uuid7 : ℕ → Uuid) (targets : List Target) (now : Instant) (s t : Store)
      (states : List SegmentLabelState)
      → AreApart targets
      → IsReady uuid7 s.confirmations
      → save_all uuid7 account targets now s ≡ ok (states, t)
      → ArePersisted t.confirmations targets states
        × Preserves targets s.confirmations t.confirmations
  unfolding save_all
  save_all-ArePersisted uuid7 [] now s t states apart ready h =
      subst
        (λ r.
          ArePersisted r.1.confirmations [] r.0 × Preserves [] s.confirmations r.1.confirmations)
        (ok-injective h) (tt, λ a e k. refl)
  save_all-ArePersisted uuid7 (target ∷ targets) now s t states apart ready h =
      let ((state, s1), saving, h1) = >>=-ok (save (uuid7 0) account target now s) _ h in
      let ((states', s2), others, h2) =
        >>=-ok (save_all (λ n. uuid7 (n + 1)) account targets now s1) _ h1 in
      let found = find_confirmation s.confirmations account target.segment.first_event_id in
      let saved = saved_confirmation (uuid7 0) account target now found in
      let (i, v, c, e) = save_lem (uuid7 0) account target now s s1 state saving in
      let rows : s1.confirmations ≡ save_row saved found s.confirmations =
        ap (λ r. r.confirmations) e in
      let k = saved_confirmation-IsSaved (uuid7 0) account target now s.confirmations in
      let ready' =
        subst (IsReady (λ n. uuid7 (n + 1))) (sym rows)
          (save_row-IsReady uuid7 account target now s.confirmations found ready) in
      let (persisted, kept) =
        save_all-ArePersisted (λ n. uuid7 (n + 1)) targets now s1 s2 states' apart.1 ready'
          others in
      subst
        (λ r.
          ArePersisted r.1.confirmations (target ∷ targets) r.0
          × Preserves (target ∷ targets) s.confirmations r.1.confirmations)
        (ok-injective h2)
        (
          (
            (
              saved,
              c,
              k.1,
              kept account target.segment.first_event_id (AreApart-IsApart target targets apart.0)
                  ∙ ap (λ l. find_confirmation l account target.segment.first_event_id) rows
                  ∙ find_confirmation-save_row account target.segment.first_event_id saved
                      s.confirmations k.0,
            ),
            persisted,
          ),
          (λ account' event' h.
              kept account' event' h.1
              ∙ ap (λ l. find_confirmation l account' event') rows
              ∙ find_confirmation-save_row_ne account target.segment.first_event_id account' event'
                  saved s.confirmations ready.0 k.0 h.0),
        )
