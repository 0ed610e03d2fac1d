-- ===== src/Store.antt =====
-- The PostgreSQL tables of the command pipeline as the transaction sees them, and the
-- repositories of internal/postgres over them. `R` stands for the resource tables, which the
-- resource services reach through repositories of their own.
pub mod Mutations
pub mod Changes
use be_better.Prelude.{
  ℕ, ℤ, String, Option, List, Bool, ◌&&◌, ◌==◌, none, some, [], ◌∷◌, if◌then◌else◌,
}
use be_better.Model.{Uuid, Time, ClientMutation, SyncChange, AuditDraft, RawMessage, UserDevice}

-- A row of dayorder.sync_changes.
pub record ChangeRow : Type 0 where
  pub user_id : Uuid
  pub change : SyncChange

-- A row of dayorder.outbox_events, with its lock.
pub record OutboxRow : Type 0 where
  pub id : Uuid
  pub user_id : Uuid
  pub event_type : String
  pub aggregate_type : String
  pub aggregate_id : Uuid
  pub payload : RawMessage
  pub available_at : Time
  pub attempts : ℕ
  pub status : String
  pub lock_token : Option Uuid

pub record Db (R : Type 0) : Type 0 where
  pub resources : R
  pub devices : List UserDevice
  pub mutations : List ClientMutation
  pub changes : List ChangeRow
  -- the next value of the identity column sync_changes.sequence
  pub next_sequence : ℕ
  pub audits : List (Uuid × AuditDraft)
  pub outbox : List OutboxRow
  -- now(), the start of the transaction
  pub clock : Time

-- `GetActiveUserDevice`
abbrev pub active_device : Uuid → Uuid → List UserDevice → Option UserDevice
active_device user id [] = none
active_device user id (d ∷ ds) =
    if d.user_id == user
      && d.id == id
      && elim d.revoked_at [ none ↦ Bool.true | some _ ↦ Bool.false ]
    then some d
    else active_device user id ds
