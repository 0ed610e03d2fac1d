-- ===== src/Store/Changes.antt =====
-- internal/postgres/sync_repository.go over dayorder.sync_changes and dayorder.user_devices.
pub mod Order
use Prim.Native.Nat.{max}
use be_better.Prelude.{
  ℕ, ◌+◌, ◌&&◌, none, some, List, [], ◌∷◌, ◌++◌, ltb, ◌==◌, take, if◌then◌else◌,
}
use be_better.Model.{Uuid, SyncChange, SyncChangeDraft, UserDevice, device_not_active, ok, err}
use be_better.Exec.{Tx}
use be_better.Store.{Db, ChangeRow, active_device}

abbrev pub changes_of : Uuid → List ChangeRow → List SyncChange
changes_of user [] = []
changes_of user (r ∷ rs) =
    let rest = changes_of user rs in if r.user_id == user then r.change ∷ rest else rest

-- `AND sequence > after_sequence`
abbrev pub above : ℕ → List SyncChange → List SyncChange
above after [] = []
above after (c ∷ cs) = let rest = above after cs in if ltb after c.sequence then c ∷ rest else rest

-- `ORDER BY sequence`
abbrev pub insert_ordered : SyncChange → List SyncChange → List SyncChange
insert_ordered c [] = c ∷ []
insert_ordered c (d ∷ ds) =
    let rest = insert_ordered c ds in if ltb d.sequence c.sequence then d ∷ rest else c ∷ d ∷ ds

abbrev pub order_by_sequence : List SyncChange → List SyncChange
order_by_sequence [] = []
order_by_sequence (c ∷ cs) = insert_ordered c (order_by_sequence cs)

abbrev pub max_sequence : List SyncChange → ℕ
max_sequence [] = 0
max_sequence (c ∷ cs) = max c.sequence (max_sequence cs)

-- The row that `AppendSyncChange` returns.
abbrev pub change_row : ℕ → ℕ → SyncChangeDraft → SyncChange
change_row sequence now draft = record {
  sequence = sequence;
  entity_type = draft.entity_type;
  entity_id = draft.entity_id;
  operation = draft.operation;
  entity_version = draft.entity_version;
  changed_at = now;
  payload = none;
}

-- The UPDATE of `AdvanceUserDeviceSyncCursor`: `greatest(last_sync_cursor, sequence)`.
abbrev pub advance_devices : Uuid → Uuid → ℕ → ℕ → List UserDevice → List UserDevice
advance_devices user device sequence now [] = []
advance_devices user device sequence now (d ∷ ds) =
    let rest = advance_devices user device sequence now ds in
    let moved = record d {
      last_sync_cursor = max d.last_sync_cursor sequence;
      last_seen_at = now;
    } in
    if d.user_id == user && d.id == device
    then elim d.revoked_at [ none ↦ moved ∷ rest | some _ ↦ d ∷ rest ]
    else d ∷ rest

module _ {R : Type 0} where
  -- `SyncRepository.Append`
  unfoldable pub append : Uuid → SyncChangeDraft → Tx (Db R) SyncChange
  append user draft s =
      let change = change_row s.next_sequence s.clock draft in
      (
        ok change,
        record s {
          changes = s.changes ++ record { user_id = user; change = change } ∷ [];
          next_sequence = s.next_sequence + 1;
        },
      )

  -- `SyncRepository.CurrentCursor`
  unfoldable pub current_cursor : Uuid → Tx (Db R) ℕ
  current_cursor user s = (ok (max_sequence (changes_of user s.changes)), s)

  -- `SyncRepository.List`
  unfoldable pub list_changes : Uuid → ℕ → ℕ → Tx (Db R) (List SyncChange)
  list_changes user after limit s =
      (ok (take limit (above after (order_by_sequence (changes_of user s.changes)))), s)

  -- `SyncRepository.RequireActiveDevice`
  unfoldable pub require_active_device : Uuid → Uuid → Tx (Db R) (Unit {0})
  require_active_device user device s = elim (active_device user device s.devices) [
    | none ↦ (err device_not_active, s)
    | some _ ↦ (ok tt, s)
  ]

  -- `SyncRepository.AdvanceDeviceCursor`
  unfoldable pub advance_device_cursor : Uuid → Uuid → ℕ → Tx (Db R) (Unit {0})
  advance_device_cursor user device sequence s = elim (active_device user device s.devices) [
    | none ↦ (err device_not_active, s)
    | some _ ↦
        (ok tt, record s { devices = advance_devices user device sequence s.clock s.devices })
  ]
