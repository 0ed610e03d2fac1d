-- ===== src/Model/Command.antt =====
-- internal/model/command.go and device.go
use be_better.Prelude.{ℕ, ℤ, String, Option, List}
use be_better.Model.Basic.{Uuid, Time}
use be_better.Model.Values.{Json, RawMessage}

pub record ClientMutation : Type 0 where
  pub id : Uuid
  pub user_id : Uuid
  pub device_id : Uuid
  pub mutation_id : Uuid
  pub request_hash : List ℕ
  pub response_status : Option ℤ
  pub response_body : Option Json
  pub created_at : Time
  pub expires_at : Time

pub record ClientMutationDraft : Type 0 where
  pub id : Uuid
  pub user_id : Uuid
  pub device_id : Uuid
  pub mutation_id : Uuid
  pub request_hash : List ℕ
  pub expires_at : Time

pub record SyncChange : Type 0 where
  pub sequence : ℕ
  pub entity_type : String
  pub entity_id : Uuid
  pub operation : String
  pub entity_version : ℤ
  pub changed_at : Time
  pub payload : Option Json

pub record ResourcePosition : Type 0 where
  pub updated_at : Time
  pub id : Uuid

pub record SyncChangeDraft : Type 0 where
  pub entity_type : String
  pub entity_id : Uuid
  pub operation : String
  pub entity_version : ℤ

pub record AuditEntity : Type 0 where
  pub entity_type : String
  pub entity_id : Uuid

pub record AuditDraft : Type 0 where
  pub id : Uuid
  pub actor_type : String
  pub actor_id : Option Uuid
  pub action : String
  pub request_id : Uuid
  pub before_data : RawMessage
  pub after_data : RawMessage
  pub metadata : RawMessage
  pub entities : List AuditEntity

pub record OutboxDraft : Type 0 where
  pub id : Uuid
  pub event_type : String
  pub aggregate_type : String
  pub aggregate_id : Uuid
  pub payload : RawMessage
  pub available_at : Time

pub record UserDevice : Type 0 where
  pub id : Uuid
  pub user_id : Uuid
  pub device_name : String
  pub platform : String
  pub last_seen_at : Time
  pub last_sync_cursor : ℕ
  pub created_at : Time
  pub revoked_at : Option Time
