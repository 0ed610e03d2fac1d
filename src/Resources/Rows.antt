-- ===== src/Resources/Rows.antt =====
-- The tables of the resources: rows of a user with an id, a version and a time of deletion, and the
-- statements that internal/db/query/domain.sql has for each of them, as the repositories in
-- internal/postgres call them. The errors of a server that fails are in Database.Transaction.
use be_better.Prelude.{
  ℕ, Bool, not, ◌&&◌, Option, none, some, List, [], ◌∷◌, ◌==◌, if◌then◌else◌, is_some, any_row,
  update_rows,
}
use be_better.Model.{Uuid, Time, not_found, conflict, Result, ok, err}

-- The columns that every resource has.
pub record Versioned (A : Type 0) : Type 0 where
  pub id_of : A → Uuid
  pub version_of : A → ℕ
  pub deleted_of : A → Option Time

pub record Row (A : Type 0) : Type 0 where
  pub user_id : Uuid
  pub value : A

abbrev pub on_value : {A : Type 0} → (A → A) → Row A → Row A
on_value f row = record row { value = f row.value }

module _ {A : Type 0} ⦃v : Versioned A⦄ where
  open v use {id_of, version_of, deleted_of}

  -- `user_id = ... AND deleted_at IS NULL`
  abbrev pub of_user : Uuid → Row A → Bool
  of_user user row = row.user_id == user && not (is_some (deleted_of row.value))

  -- `user_id = ... AND id = ... AND deleted_at IS NULL`
  abbrev pub is_live : Uuid → Uuid → Row A → Bool
  is_live user id row = of_user user row && id_of row.value == id

  abbrev pub find_live : Uuid → Uuid → List (Row A) → Option A
  find_live user id [] = none
  find_live user id (r ∷ rs) =
      let rest = find_live user id rs in if is_live user id r then some r.value else rest

  -- SELECT ... :one
  unfoldable pub get_row : Uuid → Uuid → List (Row A) → Result A
  get_row user id rows = elim (find_live user id rows) [ none ↦ err not_found | some a ↦ ok a ]

  -- INSERT; the id is the primary key.
  unfoldable pub insert_row : Uuid → A → List (Row A) → Result A × List (Row A)
  insert_row user a rows =
      if any_row (λ r. id_of r.value == id_of a) rows
      then (err conflict, rows)
      else (ok a, record { user_id = user; value = a } ∷ rows)

  -- `user_id = ... AND id = ... AND version = ... AND deleted_at IS NULL`
  abbrev pub is_current : Uuid → Uuid → ℕ → Row A → Bool
  is_current user id expected row = is_live user id row && version_of row.value == expected

  -- UPDATE ... RETURNING of one version, with the error that the repositories make of no row: not
  -- found where none is live, a conflict where it has another version.
  unfoldable pub write_row : Uuid → Uuid → ℕ → (A → A) → List (Row A) → Result A × List (Row A)
  write_row user id expected f rows = elim (find_live user id rows) [
    | none ↦ (err not_found, rows)
    | some a ↦
        if version_of a == expected
        then (ok (f a), update_rows (is_current user id expected) (on_value f) rows)
        else (err conflict, rows)
  ]

  -- The rows of a user that an UPDATE ... RETURNING :many writes.
  abbrev pub attached : Uuid → (A → Bool) → Row A → Bool
  attached user p row = of_user user row && p row.value

  abbrev pub written_rows : Uuid → (A → Bool) → (A → A) → List (Row A) → List (Row A)
  written_rows user p f rows = update_rows (attached user p) (on_value f) rows

  -- What it returns.
  unfoldable pub returned_rows : Uuid → (A → Bool) → (A → A) → List (Row A) → List A
  returned_rows user p f [] = []
  returned_rows user p f (r ∷ rs) =
      let rest = returned_rows user p f rs in if attached user p r then f r.value ∷ rest else rest

  -- ORDER BY, with `later a b` for an `a` that comes after `b`
  abbrev pub insert_ordered : (A → A → Bool) → A → List A → List A
  insert_ordered later a [] = a ∷ []
  insert_ordered later a (b ∷ bs) =
      let rest = insert_ordered later a bs in if later a b then b ∷ rest else a ∷ b ∷ bs

  -- SELECT ... :many
  unfoldable pub select_ordered : (A → A → Bool) → (A → Bool) → Uuid → List (Row A) → List A
  select_ordered later p user [] = []
  select_ordered later p user (r ∷ rs) =
      let rest = select_ordered later p user rs in
      if attached user p r then insert_ordered later r.value rest else rest
