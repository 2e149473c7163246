-- ===== src/Labels.antt =====
-- src/mosemo/labels: an account's labels, and the catalog that other contexts ask.
-- The order of `list_active` and `list_owned` (display name, then ID) is not modelled.
use mosemo.Prelude.{
  ℕ, String, Bool, not, ◌&&◌, Option, none, List, [], ◌∷◌, ◌++◌, nat_eq, ◌==◌, any, keep, contains,
  is_some, map,
}
use mosemo.Shared.Time.{Instant, Uuid}

-- `created_at` and `updated_at`, which the database sets, are left out.
pub record Label : Type 0 where
  pub id : Uuid
  pub account_id : Uuid
  pub display_name : String
  pub archived_at : Option Instant

abbrev pub default_label_names : List String
default_label_names = "코딩" ∷ "학습" ∷ "소통" ∷ "쇼핑" ∷ "여가" ∷ []

-- One label for each default name, with the identifiers that the constructor generates.
unfoldable pub default_labels : (ℕ → Uuid) → Uuid → List Label
default_labels uuid7 account = name_from 0 default_label_names
  where
    name_from : ℕ → List String → List Label
    name_from n [] = []
    name_from n (name ∷ names) =
        record { id = uuid7 n; account_id = account; display_name = name; archived_at = none }
        ∷ name_from n names

-- `LabelQuery.is_active`
unfoldable pub is_active : List Label → Uuid → Uuid → Bool
is_active labels account label =
    any (λ l. (l.account_id == account) && (l.id == label) && not (is_some l.archived_at)) labels

-- `LabelQuery.list_active`
unfoldable pub list_active : List Label → Uuid → List Label
list_active labels account =
    keep (λ l. (l.account_id == account) && not (is_some l.archived_at)) labels

-- `LabelRepository.list_owned`
unfoldable pub list_owned : List Label → Uuid → List Label
list_owned labels account = keep (λ l. l.account_id == account) labels

-- `LabelQuery.find_names`, as pairs.
unfoldable pub find_names : List Label → Uuid → List Uuid → List (Uuid × String)
find_names labels account ids =
    map (λ l. (l.id, l.display_name))
      (keep (λ l. (l.account_id == account) && contains ids l.id) labels)

-- `DefaultLabels.on_account_created`
unfoldable pub on_account_created : (ℕ → Uuid) → Uuid → List Label → List Label
unfolding default_labels
on_account_created uuid7 account labels = labels ++ default_labels uuid7 account
