-- ===== src/Resources/Service.antt =====
-- The steps that the resource services of internal/service share: the results of
-- `executeResourceCommand`, and the pages of their lists.
use be_better.Prelude.{
  ℕ, String, Bool, true, false, ◌||◌, Option, none, some, List, [], ◌∷◌, ltb, if◌then◌else◌, take,
  length, last_or,
}
use be_better.Model.{
  Uuid, Json, RawMessage, empty, ResourcePosition, AuditDraft, AuditEntity, Result, ok, err,
}
use be_better.Command.{CommandResponse}
use be_better.Pagination.{ResourceCursorCodec, encode_position, decode_position}

-- `if err != nil { return ..., err }` before `json.Unmarshal(response.Body, ...)`
abbrev pub decoded : {A : Type 0} → (Option Json → Result A) → Result CommandResponse → Result A
decoded read (err e) = err e
decoded read (ok response) = read response.body

-- `_, err := ...; return err`
abbrev pub no_value : {A : Type 0} → Result A → Result (Unit {0})
no_value (err e) = err e
no_value (ok a) = ok tt

abbrev pub on_result : {S A B : Type 0} → (Result A → Result B) → Result A × S → Result B × S
on_result f (r, s) = (f r, s)

-- The audit of a resource command, before the command service completes it.
abbrev pub audit_of : String → RawMessage → RawMessage → List AuditEntity → AuditDraft
audit_of action before_data after_data entities = record {
  id = 0;
  actor_type = "";
  actor_id = none;
  action = action;
  request_id = 0;
  before_data = before_data;
  after_data = after_data;
  metadata = empty;
  entities = entities;
}

abbrev pub entity : String → Uuid → AuditEntity
entity type id = record { entity_type = type; entity_id = id }

pub record Page (A : Type 0) : Type 0 where
  pub items : List A
  pub next_cursor : Option (List ℕ)
  pub has_more : Bool

-- `maxResourcePageSize`
abbrev pub max_resource_page_size : ℕ
max_resource_page_size = 100

abbrev pub bad_page_size : ℕ → Bool
bad_page_size size = ltb size 1 || ltb max_resource_page_size size

module _ (cursors : ResourceCursorCodec) where
  -- `if cursor != "" { decoded, err := service.cursors.Decode(...) }`
  abbrev pub after_cursor : Uuid → String → List ℕ → Result (Option ResourcePosition)
  after_cursor user scope [] = ok none
  after_cursor user scope (b ∷ bs) = elim (decode_position cursors user scope (b ∷ bs)) [
    | err e ↦ err e
    | ok position ↦ ok (some position)
  ]

  module _ {A : Type 0} (position : A → ResourcePosition) where
    abbrev pub next_page : Uuid → String → List A → Result (Option (List ℕ))
    next_page user scope [] = ok none
    next_page user scope (a ∷ as') =
        elim (encode_position cursors user scope (position (last_or a as'))) [
          | err e ↦ err e
          | ok cursor ↦ ok (some cursor)
        ]

    -- The page that `List` cuts from one row more than the page has.
    abbrev pub page_of : Uuid → String → ℕ → Result (List A) → Result (Page A)
    page_of user scope size (err e) = err e
    page_of user scope size (ok items) =
        if ltb size (length items)
        then elim (next_page user scope (take size items)) [
          | err e ↦ err e
          | ok next ↦ ok (record { items = take size items; next_cursor = next; has_more = true })
        ]
        else ok (record { items = items; next_cursor = none; has_more = false })
