-- ===== src/AuditLog.antt =====
-- The log of audits as clients read it: internal/service/audit_query.go over the reads of
-- internal/postgres/audit_repository.go, and the entity that `ApplyUndo` goes back to.
pub mod Undoable
use be_better.Prelude.{
  ℕ, zero, suc, ℤ, pos, ltb_ℤ, String, ◌=ˢ◌, one_of, Bool, true, false, not, ◌&&◌, ◌||◌, Option,
  none, some, List, [], ◌∷◌, map, ltb, ◌==◌, if◌then◌else◌, take, find_first,
}
use be_better.Model.{
  Uuid, is_nil, Time, RawMessage, empty, AuditEntity, ResourcePosition, validation, not_found,
  conflict, Result, ok, err,
}
use be_better.Exec.{Tx}
use be_better.Database.Transaction.{Attempt, with_user, default_attempts}
use be_better.Store.{Db}
use be_better.Command.{on_resources}
use be_better.Pagination.{ResourceCursorCodec}
use be_better.Resources.Service.{Page, after_cursor, page_of, bad_page_size, on_result}

pub record AuditEvent : Type 0 where
  pub id : Uuid
  pub actor_type : String
  pub actor_id : Option Uuid
  pub action : String
  pub request_id : Uuid
  pub before_data : RawMessage
  pub after_data : RawMessage
  pub metadata : RawMessage
  pub entities : List AuditEntity
  pub created_at : Time
  pub undoable : Bool

-- A row of dayorder.audit_events, and one of dayorder.audit_event_entities.
pub record EventRow : Type 0 where
  pub user_id : Uuid
  pub event : AuditEvent

pub record EntityRow : Type 0 where
  pub user_id : Uuid
  pub audit_event_id : Uuid
  pub audited : AuditEntity

pub record AuditTables : Type 0 where
  pub events : List EventRow
  pub entities : List EntityRow

-- The collation of the server, and `json.Unmarshal` into a struct with a version.
pub record AuditReader : Type 0 where
  pub before : String → String → Bool
  pub version_in : RawMessage → Option ℤ

-- `ORDER BY entity_type, entity_id`
abbrev pub later_entity : (String → String → Bool) → AuditEntity → AuditEntity → Bool
later_entity before a b =
    before b.entity_type a.entity_type
    || b.entity_type =ˢ a.entity_type && ltb b.entity_id a.entity_id

abbrev pub insert_entity :
    (String → String → Bool) → AuditEntity → List AuditEntity → List AuditEntity
insert_entity before a [] = a ∷ []
insert_entity before a (b ∷ bs) =
    let rest = insert_entity before a bs in if later_entity before a b then b ∷ rest else a ∷ b ∷ bs

-- `ListAuditEventEntities`
abbrev pub entities_of : (String → String → Bool) → Uuid → Uuid → List EntityRow → List AuditEntity
entities_of before user id [] = []
entities_of before user id (r ∷ rs) =
    let rest = entities_of before user id rs in
    if r.user_id == user && r.audit_event_id == id
    then insert_entity before r.audited rest
    else rest

-- `hydrateAuditEvent`
abbrev pub hydrated : AuditReader → Uuid → AuditTables → AuditEvent → AuditEvent
hydrated reader user s event = record event {
  entities = entities_of reader.before user event.id s.entities;
}

-- `AuditRepository.Get`
unfoldable pub get_event : AuditReader → Uuid → Uuid → Tx AuditTables AuditEvent
get_event reader user id s =
    elim (find_first (λ (r : EventRow). r.user_id == user && r.event.id == id) s.events) [
      | none ↦ (err not_found, s)
      | some row ↦ (ok (hydrated reader user s row.event), s)
    ]

-- `ORDER BY created_at DESC, id DESC`
abbrev pub older_event : AuditEvent → AuditEvent → Bool
older_event a b = ltb a.created_at b.created_at || a.created_at == b.created_at && ltb a.id b.id

abbrev pub past_event : Option ResourcePosition → AuditEvent → Bool
past_event none event = true
past_event (some p) event =
    ltb event.created_at p.updated_at || event.created_at == p.updated_at && ltb event.id p.id

abbrev pub insert_event : AuditEvent → List AuditEvent → List AuditEvent
insert_event a [] = a ∷ []
insert_event a (b ∷ bs) =
    let rest = insert_event a bs in if older_event a b then b ∷ rest else a ∷ b ∷ bs

abbrev pub events_of : Uuid → Option ResourcePosition → List EventRow → List AuditEvent
events_of user after [] = []
events_of user after (r ∷ rs) =
    let rest = events_of user after rs in
    if r.user_id == user && past_event after r.event then insert_event r.event rest else rest

-- `AuditRepository.List`
unfoldable pub list_events :
    AuditReader → Uuid → Option ResourcePosition → ℕ → Tx AuditTables (List AuditEvent)
list_events reader user after limit s =
    (ok (map (hydrated reader user s) (take limit (events_of user after s.events))), s)

abbrev pub is_target : AuditEntity → Bool
is_target entity = one_of ("task" ∷ "calendar_event" ∷ "record" ∷ "note" ∷ []) entity.entity_type

-- The loop of `auditUndoable`: the count, or none where it returns false.
abbrev pub count_targets : ℕ → List AuditEntity → Option ℕ
count_targets n [] = some n
count_targets n (e ∷ es) =
    let skipped = count_targets n es in
    let counted = count_targets (suc n) es in
    if e.entity_type =ˢ "agent_run" then skipped else if is_target e then counted else none

abbrev pub is_empty_message : RawMessage → Bool
is_empty_message empty = true
is_empty_message raw = false

abbrev pub is_one : Option ℕ → Bool
is_one none = false
is_one (some n) = n == 1

abbrev pub positive_version : Option ℤ → Bool
positive_version none = false
positive_version (some version) = ltb_ℤ (pos 0) version

-- `auditUndoable`
unfoldable pub audit_undoable : AuditReader → AuditEvent → Bool
audit_undoable reader event =
    if not (event.action =ˢ "agent.change.apply") || is_empty_message event.after_data
    then false
    else if not (is_one (count_targets 0 event.entities))
    then false
    else positive_version (reader.version_in event.after_data)

-- The loop of `auditUndoTarget`, with the last target and the count.
abbrev pub find_target : Option AuditEntity → ℕ → List AuditEntity → Result (Option AuditEntity × ℕ)
find_target target n [] = ok (target, n)
find_target target n (e ∷ es) =
    let skipped = find_target target n es in
    let counted = find_target (some e) (suc n) es in
    if e.entity_type =ˢ "agent_run" then skipped else if is_target e then counted else err conflict

abbrev pub only_target : Result (Option AuditEntity × ℕ) → Result AuditEntity
only_target (err e) = err e
only_target (ok (target, n)) =
    if not (n == 1) then err conflict else elim target [ none ↦ err conflict | some e ↦ ok e ]

-- `auditUndoTarget`
unfoldable pub audit_undo_target : List AuditEntity → Result AuditEntity
audit_undo_target entities = only_target (find_target none 0 entities)

abbrev pub marked : AuditReader → AuditEvent → AuditEvent
marked reader event = record event { undoable = audit_undoable reader event }

abbrev pub marked_result : AuditReader → Result AuditEvent → Result AuditEvent
marked_result reader (err e) = err e
marked_result reader (ok event) = ok (marked reader event)

abbrev pub marked_page : AuditReader → Result (Page AuditEvent) → Result (Page AuditEvent)
marked_page reader (err e) = err e
marked_page reader (ok page) = ok (record page { items = map (marked reader) page.items })

abbrev pub position_of_event : AuditEvent → ResourcePosition
position_of_event event = record { updated_at = event.created_at; id = event.id }

module _ (reader : AuditReader) (cursors : ResourceCursorCodec)
    (env : ℕ → Attempt (Db AuditTables)) where
  -- `AuditQueryService.Get`
  unfoldable pub get : Uuid → Uuid → Tx (Db AuditTables) AuditEvent
  get user id s =
      if is_nil user || is_nil id
      then (err validation, s)
      else on_result (marked_result reader)
          (with_user default_attempts env user (λ round. on_resources (get_event reader user id)) s)

  -- `AuditQueryService.List`
  unfoldable pub list : Uuid → List ℕ → ℕ → Tx (Db AuditTables) (Page AuditEvent)
  list user cursor limit s =
      if is_nil user || bad_page_size limit
      then (err validation, s)
      else elim (after_cursor cursors user "audit-events" cursor) [
        | err e ↦ (err e, s)
        | ok after ↦
            on_result
              (λ q.
                marked_page reader (page_of cursors position_of_event user "audit-events" limit q))
              (with_user default_attempts env user
                (λ round. on_resources (list_events reader user after (suc limit))) s)
      ]
