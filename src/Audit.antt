-- ===== src/Audit.antt =====
-- internal/service/audit.go: audits are checked, and their snapshots stripped of secrets, before they
-- are stored. `Unicode` is what the code takes of Go's unicode package, and `encoded_size` the number of
-- bytes that json.Marshal writes for a document. A snapshot that is null with white space around it is
-- not modelled: the code refuses it, and takes a bare null as absent.
pub mod Filter
pub mod Clean
pub mod Recorded
use be_better.Prelude.{
  ℕ, suc, ◌*◌, pos, String, ◌=ˢ◌, rune_count, trim_space, one_of, Bool, true, false, not, ◌&&◌,
  ◌||◌, Option, none, some, List, [], ◌∷◌, ◌++◌, ltb, ◌==◌, if◌then◌else◌,
}
use be_better.Model.{
  Uuid, is_nil, Json, null, boolean, integer, object, end, field, RawMessage, empty, document,
  AuditEntity, AuditDraft, validation, Result, ok, err, ◌>>=ᴿ◌ as ◌>>=◌,
}
use be_better.Exec.{Tx, pure, modify, lift, fail_if, ◌>>=◌ as ◌>>=ᵀ◌}
use be_better.Store.{Db}
use be_better.Audit.Filter.{Unicode, filter_fields}

abbrev pub max_audit_snapshot_bytes : ℕ
max_audit_snapshot_bytes = 32 * 1024

abbrev pub max_audit_metadata_bytes : ℕ
max_audit_metadata_bytes = 8 * 1024

abbrev pub audit_entity_types : List String
audit_entity_types =
    "goal" ∷ "milestone" ∷ "task" ∷ "calendar_event" ∷ "reminder" ∷ "record" ∷ "note"
    ∷ "daily_review" ∷ "agent_run" ∷ []

pub record AuditService : Type 0 where
  pub unicode : Unicode
  pub encoded_size : Json → ℕ
  -- the identifiers that it draws for the audit at an index
  pub new_id : ℕ → Uuid
  pub new_request_id : ℕ → Uuid

abbrev pub same_entity : AuditEntity → AuditEntity → Bool
same_entity a b = a.entity_type =ˢ b.entity_type && a.entity_id == b.entity_id

abbrev pub seen_entity : AuditEntity → List AuditEntity → Bool
seen_entity e [] = false
seen_entity e (x ∷ xs) = same_entity e x || seen_entity e xs

-- The loop of `prepareAuditEntities`, with the entities kept so far.
unfoldable pub keep_entities : List AuditEntity → List AuditEntity → Result (List AuditEntity)
keep_entities kept [] = ok kept
keep_entities kept (e ∷ es) =
    let skipped = keep_entities kept es in
    let added = keep_entities (kept ++ e ∷ []) es in
    if not (one_of audit_entity_types e.entity_type) || is_nil e.entity_id
    then err validation
    else if seen_entity e kept
    then skipped
    else added

abbrev pub contains_note : List AuditEntity → Bool
contains_note [] = false
contains_note (e ∷ es) = e.entity_type =ˢ "note" || contains_note es

-- `prepareAuditEntities`
unfoldable pub prepare_audit_entities : List AuditEntity → Result (List AuditEntity)
prepare_audit_entities entities = keep_entities [] entities

abbrev pub truncated : ℕ → Json
truncated size =
    object (field "_truncated" (boolean true) (field "_originalBytes" (integer (pos size)) end))

abbrev pub absent : Bool → RawMessage
absent true = empty
absent false = document (object end)

-- `sanitizeAuditObject`
unfoldable pub sanitize_audit_object :
    AuditService → RawMessage → Bool → ℕ → Bool → Result RawMessage
sanitize_audit_object service empty note limit nullable = ok (absent nullable)
sanitize_audit_object service (document null) note limit nullable = ok (absent nullable)
sanitize_audit_object service (document (object fields)) note limit nullable =
    let filtered = object (filter_fields service.unicode note fields) in
    let size = service.encoded_size filtered in
    ok (document (if ltb limit size then truncated size else filtered))
sanitize_audit_object service _ note limit nullable = err validation

abbrev pub check_actor : Uuid → String → Option Uuid → Result (Option Uuid)
check_actor user actor_type none = if actor_type =ˢ "user" then ok (some user) else ok none
check_actor user actor_type (some id) =
    if actor_type =ˢ "user" && not (id == user) then err validation else ok (some id)

abbrev pub default_metadata : RawMessage → RawMessage
default_metadata empty = document (object end)
default_metadata raw = raw

-- `AuditService.prepare`
unfoldable pub prepare : AuditService → Uuid → ℕ → AuditDraft → Result AuditDraft
prepare service user index draft =
    let action = trim_space draft.action in
    let actor_type = if draft.actor_type =ˢ "" then "user" else draft.actor_type in
    if ltb (rune_count action) 1 || ltb 120 (rune_count action)
    then err validation
    else if not (one_of ("user" ∷ "agent" ∷ "system" ∷ []) actor_type)
    then err validation
    else (do
      actor_id ← check_actor user actor_type draft.actor_id
      entities ← prepare_audit_entities draft.entities
      before_data ←
          sanitize_audit_object service draft.before_data (contains_note entities)
            max_audit_snapshot_bytes true
      after_data ←
          sanitize_audit_object service draft.after_data (contains_note entities)
            max_audit_snapshot_bytes true
      metadata ←
          sanitize_audit_object service (default_metadata draft.metadata) false
            max_audit_metadata_bytes false
      ok (record {
        id = if is_nil draft.id then service.new_id index else draft.id;
        actor_type = actor_type;
        actor_id = actor_id;
        action = action;
        request_id =
            if is_nil draft.request_id then service.new_request_id index else draft.request_id;
        before_data = before_data;
        after_data = after_data;
        metadata = metadata;
        entities = entities;
      }))

unfoldable pub prepare_all : AuditService → Uuid → ℕ → List AuditDraft → Result (List AuditDraft)
prepare_all service user index [] = ok []
prepare_all service user index (draft ∷ drafts) = do
  prepared ← prepare service user index draft
  rest ← prepare_all service user (suc index) drafts
  ok (prepared ∷ rest)

module _ {R : Type 0} where
  -- `AuditRepository.Append`
  unfoldable pub append : Uuid → AuditDraft → Tx (Db R) (Unit {0})
  append user draft s = (ok tt, record s { audits = s.audits ++ (user, draft) ∷ [] })

  unfoldable pub append_all : Uuid → List AuditDraft → Tx (Db R) (Unit {0})
  append_all user [] = pure tt
  append_all user (d ∷ ds) = append user d >>=ᵀ λ _. append_all user ds

  -- `AuditService.Record`
  unfoldable pub record_audits : AuditService → Uuid → List AuditDraft → Tx (Db R) (Unit {0})
  record_audits service user audits = fail_if (is_nil user) validation >>=ᵀ λ _.
      lift (prepare_all service user 0 audits) >>=ᵀ λ prepared. append_all user prepared
