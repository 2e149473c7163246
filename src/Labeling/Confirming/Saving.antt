-- ===== src/Labeling/Confirming/Saving.antt =====
-- The confirmations table under `save` (labeling/application/confirmations.py).
use mosemo.Prelude.{
  ◌≡◌, inl, inr, refl, ap, Bool, true, false, ◌&&◌, Bool-cases, Option, none, some, List, [], ◌∷◌,
  ◌++◌, nat_eq, string_eq, option_eq, ◌==◌, ==_refl, replace, All, arith,
}
use mosemo.Shared.Time.{Instant, Uuid}
use mosemo.Labeling.Confirmations.{Confirmation, matches_batch_selection}
use mosemo.Labeling.Confirmations.Selections.{apply_selection_lem}
use mosemo.Labeling.States.{find_confirmation}
use mosemo.Labeling.Confirming.{Target, saved_confirmation, save_row}

-- The row is the confirmation of this segment: the test of `ConfirmationRepository.find`.
abbrev pub is_for : Uuid → Uuid → Confirmation → Bool
is_for account event c = (c.account_id == account) && (c.first_event_id == event)

-- The primary key: no two rows have the same identifier.
abbrev pub UniqueIds : List Confirmation → Type 0
UniqueIds [] = Unit
UniqueIds (c ∷ cs) = All (λ d. (d.id == c.id) ≡ false) cs × UniqueIds cs

module _ (account event : Uuid) where
  find-All :
      (P : Confirmation → Type 0) (rows : List Confirmation) (c : Confirmation)
      → All P rows
      → find_confirmation rows account event ≡ some c
      → P c
  find-All P [] c h e = absurd (cc)
  find-All P (r ∷ rows) c h e = elim (Bool-cases (is_for account event r)) [
    | inl this ↦ rw (some-same (rw this at e)) at h.0
    | inr other ↦ find-All P rows c h.1 (rw other at e)
  ]
    where
      some-same : some r ≡ some c → r ≡ c
      some-same q = cc

  find-is_for :
      (rows : List Confirmation) (c : Confirmation)
      → find_confirmation rows account event ≡ some c
      → is_for account event c ≡ true
  find-is_for [] c e = cc
  find-is_for (r ∷ rows) c e = ground (arith, find-is_for rows c)

  -- The saved row is found again.
  find-append :
      (rows : List Confirmation) (saved : Confirmation)
      → find_confirmation rows account event ≡ none
      → is_for account event saved ≡ true
      → find_confirmation (rows ++ saved ∷ []) account event ≡ some saved
  find-append [] saved e k = ground arith
  find-append (r ∷ rows) saved e k = ground (arith, find-append rows saved)

  find-replace :
      (rows : List Confirmation) (c saved : Confirmation)
      → find_confirmation rows account event ≡ some c
      → is_for account event saved ≡ true
      → find_confirmation (replace (λ r. r.id == c.id) (λ r. saved) rows) account event ≡ some saved
  find-replace [] c saved e k = cc
  find-replace (r ∷ rows) c saved e k = ground (arith, find-replace rows c saved)

replace-none :
    (id : Uuid) (saved : Confirmation) (rows : List Confirmation)
    → All (λ d. (d.id == id) ≡ false) rows
    → replace (λ r. r.id == id) (λ r. saved) rows ≡ rows
replace-none id saved [] h = refl
replace-none id saved (r ∷ rows) h = rw h.0 (ap (λ l. r ∷ l) (replace-none id saved rows h.1))

-- Nor does a save touch the confirmation of another segment.
find-replace_ne :
    (account event account' event' : Uuid) (rows : List Confirmation) (c saved : Confirmation)
    → UniqueIds rows
    → find_confirmation rows account event ≡ some c
    → is_for account' event' c ≡ false
    → is_for account' event' saved ≡ false
    → find_confirmation (replace (λ r. r.id == c.id) (λ r. saved) rows) account' event'
      ≡ find_confirmation rows account' event'
find-replace_ne account event account' event' [] c saved u e kc ks = refl
find-replace_ne account event account' event' (r ∷ rows) c saved u e kc ks =
    elim (Bool-cases (is_for account event r)) [
      | inl this ↦ ground (arith, replace-none r.id saved rows u.0)
      | inr other ↦ ground (
        arith,
        find-All account event (λ d. (d.id == r.id) ≡ false) rows c u.0,
        find-replace_ne account event account' event' rows c saved u.1,
      )
    ]

find-append_ne :
    (account event : Uuid) (rows : List Confirmation) (saved : Confirmation)
    → is_for account event saved ≡ false
    → find_confirmation (rows ++ saved ∷ []) account event ≡ find_confirmation rows account event
find-append_ne account event [] saved k = ground arith
find-append_ne account event (r ∷ rows) saved k =
    ground (arith, find-append_ne account event rows saved)

-- What `save` leaves for a target: a confirmation of its segment that repeats the selection.
abbrev pub IsSaved : Uuid → Target → Confirmation → Type 0
IsSaved account target c =
    (is_for account target.segment.first_event_id c ≡ true)
    × (matches_batch_selection c target.version target.label_id ≡ true)

module _ (id account : Uuid) (target : Target) (now : Instant) where
  pub saved_confirmation-IsSaved :
      (rows : List Confirmation)
      → IsSaved account target (
          saved_confirmation id account target now
            (find_confirmation rows account target.segment.first_event_id))
  saved_confirmation-IsSaved rows =
      by_found (find_confirmation rows account target.segment.first_event_id) refl
    where
      by_found :
          (o : Option Confirmation)
          → find_confirmation rows account target.segment.first_event_id ≡ o
          → IsSaved account target (saved_confirmation id account target now o)
      by_found none e =
          unfold matches_batch_selection in
          ground (arith, ==_refl target.version, ==_refl target.label_id)
      by_found (some c) e =
          let kept = apply_selection_lem target.version target.label_id now c in
          (rw (kept.2, kept.3) (find-is_for account target.segment.first_event_id rows c e), kept.0)

-- The saved confirmation is found again.
pub find_confirmation-save_row :
    (account event : Uuid) (saved : Confirmation) (rows : List Confirmation)
    → is_for account event saved ≡ true
    → find_confirmation (save_row saved (find_confirmation rows account event) rows) account event
      ≡ some saved
find_confirmation-save_row account event saved rows k =
    by_found (find_confirmation rows account event) refl
  where
    by_found :
        (o : Option Confirmation)
        → find_confirmation rows account event ≡ o
        → find_confirmation (save_row saved o rows) account event ≡ some saved
    by_found none e = find-append account event rows saved e k
    by_found (some c) e = find-replace account event rows c saved e k

-- The confirmations of other segments stay.
pub find_confirmation-save_row_ne :
    (account event account' event' : Uuid) (saved : Confirmation) (rows : List Confirmation)
    → UniqueIds rows
    → is_for account event saved ≡ true
    → ((account == account') && (event == event')) ≡ false
    → find_confirmation (save_row saved (find_confirmation rows account event) rows) account' event'
      ≡ find_confirmation rows account' event'
find_confirmation-save_row_ne account event account' event' saved rows u k ne =
    by_found (find_confirmation rows account event) refl
  where
    by_found :
        (o : Option Confirmation)
        → find_confirmation rows account event ≡ o
        → find_confirmation (save_row saved o rows) account' event'
          ≡ find_confirmation rows account' event'
    by_found none e = find-append_ne account' event' rows saved (ground arith)
    by_found (some c) e =
        find-replace_ne account event account' event' rows c saved u e
          (ground (arith, find-is_for account event rows c e)) (ground arith)
