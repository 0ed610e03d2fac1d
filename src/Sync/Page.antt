-- ===== src/Sync/Page.antt =====
-- The pages of `SyncService.changes`, and `Bootstrap`, `CurrentCursor` and `Record`, of
-- internal/service/sync.go. `resolve` is `SyncStore.Resolve`, which only reads the resource tables.
pub mod Follow
pub mod Feed
use be_better.Prelude.{
  ℕ, suc, ◌+◌, ◌*◌, ◌-◌, ℤ, pos, ltb_ℤ, String, ◌=ˢ◌, one_of, Bool, true, false, not, ◌&&◌, ◌||◌,
  Option, none, some, List, [], ◌∷◌, ◌++◌, ltb, length, take, drop, last_or, if◌then◌else◌,
}
use be_better.Model.{
  Uuid, is_nil, Time, hour, Error, not_found, Json, object, RawMessage, document, SyncChange,
  SyncChangeDraft, validation, sync_reset_required, Result, ok, err,
}
use be_better.Exec.{Tx, pure, lift, fail_if, ◌>>=◌, ◌>>◌}
use be_better.Database.Transaction.{Attempt, with_user, default_attempts}
use be_better.Store.{Db}
use be_better.Store.Changes.{
  append, current_cursor, list_changes, require_active_device, advance_device_cursor,
}
use be_better.Sync.Cursor.{end_of_page, encode_cursor, decode_cursor}

-- `defaultSyncRetention`
abbrev pub default_sync_retention : ℕ
default_sync_retention = 90 * 24 * hour

-- `maxSyncPageSize`
abbrev pub max_sync_page_size : ℕ
max_sync_page_size = 500

-- `syncEntityTypes`
abbrev pub sync_entity_types : List String
sync_entity_types =
    "goal" ∷ "milestone" ∷ "task" ∷ "calendar_event" ∷ "reminder" ∷ "record" ∷ "note"
    ∷ "daily_review" ∷ "tag" ∷ "agent_run" ∷ "agent_change" ∷ "settings" ∷ []

pub record SyncPage : Type 0 where
  pub changes : List SyncChange
  pub next_cursor : List ℕ
  pub has_more : Bool

-- `now` is the reading of the clock after the guards, `checked_at` the one in `decodeCursor`.
pub record SyncService (R : Type 0) : Type 0 where
  pub mac : List ℕ → List ℕ
  pub checked_at : Time
  pub now : Time
  pub retention : ℕ
  pub resolve : Uuid → SyncChange → R → Result RawMessage

-- `validateSyncChange`
unfoldable pub validate_sync_change : SyncChangeDraft → Result (Unit {0})
validate_sync_change change =
    if not (one_of sync_entity_types change.entity_type)
    then err validation
    else if is_nil change.entity_id
    then err validation
    else if not (one_of ("create" ∷ "update" ∷ "delete" ∷ []) change.operation)
    then err validation
    else if ltb_ℤ change.entity_version (pos 1)
    then err validation
    else ok tt

unfoldable pub validate_changes : List SyncChangeDraft → Result (Unit {0})
validate_changes [] = ok tt
validate_changes (c ∷ cs) =
    let rest = validate_changes cs in elim (validate_sync_change c) [ err e ↦ err e | ok _ ↦ rest ]

-- The change that the client gets, from what `Resolve` returned.
abbrev pub resolved : SyncChange → Result RawMessage → Result SyncChange
resolved change (err not_found) = ok (record change { operation = "delete"; payload = none })
resolved change (err e) = err e
resolved change (ok (document (object fields))) =
    ok (record change { payload = some (object fields) })
resolved change (ok _) = err validation

-- The first error stands.
abbrev pub cons_result : Result SyncChange → Result (List SyncChange) → Result (List SyncChange)
cons_result (err e) rest = err e
cons_result (ok c) (err e) = err e
cons_result (ok c) (ok cs) = ok (c ∷ cs)

module _ {R : Type 0} where
  unfoldable pub append_all : Uuid → List SyncChangeDraft → Tx (Db R) (Unit {0})
  append_all user [] = pure tt
  append_all user (c ∷ cs) = append user c >>= λ _. append_all user cs

  -- `SyncService.Record`
  unfoldable pub record_changes : Uuid → List SyncChangeDraft → Tx (Db R) (Unit {0})
  record_changes user changes = do
    fail_if (is_nil user) validation
    lift (validate_changes changes)
    append_all user changes

module _ {R : Type 0} (service : SyncService R) where
  open service use {mac, checked_at, now, retention, resolve}

  unfoldable pub resolve_change : Uuid → R → SyncChange → Result SyncChange
  resolve_change user tables change =
      if change.operation =ˢ "delete"
      then ok change
      else resolved change (resolve user change tables)

  -- The loop over `visible`: the first error ends it.
  unfoldable pub resolve_all : Uuid → R → List SyncChange → Result (List SyncChange)
  resolve_all user tables [] = ok []
  resolve_all user tables (c ∷ cs) =
      let rest = resolve_all user tables cs in cons_result (resolve_change user tables c) rest

  abbrev resolve_visible : Uuid → List SyncChange → Tx (Db R) (List SyncChange)
  resolve_visible user visible s = (resolve_all user s.resources visible, s)

  -- The closure of `changes`: the visible changes, resolved, and those beyond the page.
  unfoldable pub page_tx : Uuid → Uuid → ℕ → ℕ → Tx (Db R) (List SyncChange)
  page_tx user device sequence page_size = do
    (if is_nil device then pure tt else require_active_device user device)
    listed ← list_changes user sequence (suc page_size)
    visible ← resolve_visible user (take page_size listed)
    (if is_nil device
        then pure tt
        else advance_device_cursor user device (end_of_page sequence visible))
    pure (visible ++ drop page_size listed)

  abbrev page_of : Uuid → ℕ → ℕ → List SyncChange → Result SyncPage
  page_of user sequence page_size changes =
      let page = take page_size changes in
      elim (encode_cursor mac user (end_of_page sequence page) now) [
        | err e ↦ err e
        | ok cursor ↦ ok (record {
          changes = page;
          next_cursor = cursor;
          has_more = ltb page_size (length changes);
        })
      ]

  abbrev respond : {A B : Type 0} → (A → Result B) → Result A × Db R → Result B × Db R
  respond f (ok a, s) = (f a, s)
  respond f (err e, s) = (err e, s)

  -- `SyncService.changes`
  unfoldable pub changes : (ℕ → Attempt (Db R)) → Uuid → Uuid → List ℕ → ℕ → Tx (Db R) SyncPage
  changes env user device cursor page_size s =
      if is_nil user
      then (err validation, s)
      else if ltb page_size 1 || ltb max_sync_page_size page_size
      then (err validation, s)
      else elim (decode_cursor mac checked_at user cursor) [
        | err e ↦ (err e, s)
        | ok (sequence, issued) ↦
            if ltb retention (now - issued)
            then (err sync_reset_required, s)
            else respond (page_of user sequence page_size) (
                with_user default_attempts env user
                  (λ round. page_tx user device sequence page_size) s)
      ]

  -- `SyncService.DeviceChanges`
  unfoldable pub device_changes :
      (ℕ → Attempt (Db R)) → Uuid → Uuid → List ℕ → ℕ → Tx (Db R) SyncPage
  device_changes env user device cursor page_size s =
      if is_nil device then (err validation, s) else changes env user device cursor page_size s

  unfoldable pub bootstrap_tx : Uuid → Uuid → Tx (Db R) ℕ
  bootstrap_tx user device = do
    require_active_device user device
    sequence ← current_cursor user
    advance_device_cursor user device sequence
    pure sequence

  -- `SyncService.Bootstrap`
  unfoldable pub bootstrap : (ℕ → Attempt (Db R)) → Uuid → Uuid → Tx (Db R) (List ℕ)
  bootstrap env user device s =
      if is_nil user || is_nil device
      then (err validation, s)
      else respond (λ sequence. encode_cursor mac user sequence now)
          (with_user default_attempts env user (λ round. bootstrap_tx user device) s)

  -- `SyncService.CurrentCursor`
  unfoldable pub current_cursor_of : (ℕ → Attempt (Db R)) → Uuid → Tx (Db R) (List ℕ)
  current_cursor_of env user s =
      if is_nil user
      then (err validation, s)
      else respond (λ sequence. encode_cursor mac user sequence now)
          (with_user default_attempts env user (λ round. current_cursor user) s)
