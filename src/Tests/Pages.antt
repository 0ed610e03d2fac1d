-- ===== src/Tests/Pages.antt =====
-- Pages of three changes.
use be_better.Prelude.{ℕ, ◌≡◌, refl, pos, none, some, List, [], ◌∷◌, arith, take, drop, ltb, length}
use be_better.Model.{SyncChange, UserDevice, object, end, document, ok}
use be_better.Exec.{◌>>=◌}
use be_better.Store.{Db, ChangeRow}
use be_better.Store.Changes.{
  order_by_sequence, list_changes, require_active_device, advance_device_cursor,
}
use be_better.Store.Changes.Order.{Ascending, order_by_sequence-Ascending}
use be_better.Sync.Cursor.{end_of_page}
use be_better.Sync.Page.{SyncService, page_tx, resolve_all, resolve_change}
use be_better.Sync.Page.Feed.{Advanced, sequences, feed, page_tx-feed, page_tx-late_row}

abbrev change : ℕ → SyncChange
change n = record {
  sequence = n;
  entity_type = "task";
  entity_id = 10;
  operation = "update";
  entity_version = pos 2;
  changed_at = 900;
  payload = none;
}

order_by_sequence-Ascending_example : Ascending 0 (order_by_sequence (change 5 ∷ change 1 ∷ []))
order_by_sequence-Ascending_example =
    order_by_sequence-Ascending (change 5 ∷ change 1 ∷ [])
      (omega arith, (λ h. omega arith, tt), (omega arith, tt, tt))

abbrev row : ℕ → ChangeRow
row n = record { user_id = 1; change = change n }

abbrev phone : UserDevice
phone = record {
  id = 2;
  user_id = 1;
  device_name = "phone";
  platform = "ios";
  last_seen_at = 900;
  last_sync_cursor = 0;
  created_at = 800;
  revoked_at = none;
}

abbrev store : Db ℕ
store = record {
  resources = 0;
  devices = phone ∷ [];
  mutations = [];
  changes = row 5 ∷ row 1 ∷ row 2 ∷ [];
  next_sequence = 6;
  audits = [];
  outbox = [];
  clock = 1000;
}

abbrev service : SyncService ℕ
service = record {
  mac = λ bs. [];
  checked_at = 1000;
  now = 1000;
  retention = 100;
  resolve = λ user c tables. ok (document (object end));
}

abbrev shown : ℕ → SyncChange
shown n = record (change n) { payload = some (object end) }

abbrev page : List SyncChange
page = shown 1 ∷ shown 2 ∷ change 5 ∷ []

abbrev moved : Db ℕ
moved = record store { devices = record phone { last_sync_cursor = 2; last_seen_at = 1000 } ∷ [] }

page-read : page_tx service 1 2 0 2 store ≡ (ok page, moved)
unfolding page_tx ◌>>=◌ list_changes require_active_device advance_device_cursor resolve_all
    resolve_change
page-read = refl

page_tx-feed_example :
    (sequences (take 2 page) ≡ sequences (take 2 (feed 1 0 store)))
    × (feed 1 (end_of_page 0 (take 2 page)) moved ≡ drop 2 (feed 1 0 store))
    × (ltb 2 (length page) ≡ ltb 2 (length (feed 1 0 store)))
    × (moved ≡ record store { devices = moved.devices })
    × Advanced 1 2 (end_of_page 0 (take 2 page)) 1000 store.devices moved.devices
page_tx-feed_example =
    page_tx-feed service 1 2 0 2 store page moved
      (
        omega arith,
        (λ h. omega arith, (λ h. omega arith, tt)),
        (omega arith, (λ h. omega arith, tt), (omega arith, tt, tt)),
      )
      page-read

page_tx-late_row_example :
    (page_tx service 1 2 5 2 (record store { changes = row 5 ∷ row 3 ∷ [] })).0
    ≡ (page_tx service 1 2 5 2 (record store { changes = row 5 ∷ [] })).0
page_tx-late_row_example =
    page_tx-late_row service 1 2 5 2 store (row 5 ∷ []) [] (row 3) (omega arith)
