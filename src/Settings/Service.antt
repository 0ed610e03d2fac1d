-- ===== src/Settings/Service.antt =====
-- `SettingsService` of internal/service/settings.go over internal/postgres/settings_repository.go. The
-- column is a JSON object, by a constraint of dayorder.user_settings, so its decoding has no error
-- and no nil map.
use be_better.Prelude.{
  ℕ, ◌+◌, pos, Bool, true, false, Option, none, some, List, [], ◌∷◌, ltb, ◌==◌, if◌then◌else◌,
  find_first, update_rows,
}
use be_better.Model.{
  Uuid, Time, Json, object, Fields, RawMessage, document, validation, not_found, conflict, Result,
  ok, err,
}
use be_better.Exec.{Tx, pure, lift, ◌>>=◌}
use be_better.Database.Transaction.{Attempt, with_user, default_attempts}
use be_better.Store.{Db}
use be_better.Command.{CommandService, CommandResult, execute, on_resources}
use be_better.Tasks.{MutationContext}
use be_better.Tasks.Service.{resource_command}
use be_better.Resources.Service.{audit_of, decoded, on_result}
use be_better.Settings.{merge_object}
use be_better.Settings.Validation.{validate_settings_object}

-- A row of dayorder.user_settings: `model.UserSettings` with its user.
pub record UserSettings : Type 0 where
  pub user_id : Uuid
  pub schema_version : ℕ
  pub version : ℕ
  pub settings : Fields
  pub updated_at : Time

pub record SettingsTable : Type 0 where
  pub rows : List UserSettings
  pub clock : Time

abbrev pub of_user : Uuid → UserSettings → Bool
of_user user row = row.user_id == user

-- `SettingsRepository.Get`
unfoldable pub get_settings : Uuid → Tx SettingsTable UserSettings
get_settings user s = elim (find_first (of_user user) s.rows) [
  | none ↦ (err not_found, s)
  | some row ↦ (ok row, s)
]

-- The row of an INSERT, and the one that DO UPDATE makes of a row.
abbrev pub inserted_settings : Uuid → ℕ → Fields → Time → UserSettings
inserted_settings user schema settings now = record {
  user_id = user;
  schema_version = schema;
  version = 1;
  settings = settings;
  updated_at = now;
}

abbrev pub replaced_settings : ℕ → Fields → Time → UserSettings → UserSettings
replaced_settings schema settings now old = record old {
  schema_version = schema;
  settings = settings;
  version = old.version + 1;
  updated_at = now;
}

-- `SettingsRepository.Update`
unfoldable pub update_settings : Uuid → ℕ → Fields → ℕ → Tx SettingsTable UserSettings
update_settings user schema settings expected s = elim (find_first (of_user user) s.rows) [
  | none ↦
      let row = inserted_settings user schema settings s.clock in
      (ok row, record s { rows = row ∷ s.rows })
  | some old ↦
      if old.version == expected
      then (
        ok (replaced_settings schema settings s.clock old),
        record s {
          rows = update_rows (of_user user) (replaced_settings schema settings s.clock) s.rows;
        },
      )
      else (err conflict, s)
]

-- What encoding/json makes of the structs and back.
pub record SettingsFormat : Type 0 where
  pub settings_json : UserSettings → Json
  pub read_settings : Option Json → Result UserSettings
  pub patch_payload : ℕ → Fields → List ℕ

-- The operation of `Patch`.
unfoldable pub patch_operation : SettingsFormat → Uuid → ℕ → Fields → Tx SettingsTable CommandResult
patch_operation format user expected patch = do
  old ← get_settings user
  let merged = merge_object old.settings patch
  _ ← lift (validate_settings_object merged false 0)
  updated ← update_settings user 1 merged expected
  pure (record {
    status = pos 200;
    body = document (format.settings_json updated);
    changes =
        record {
          entity_type = "settings";
          entity_id = user;
          operation = "update";
          entity_version = pos updated.version;
        }
        ∷ [];
    audits =
        audit_of "settings.update" (document (object old.settings))
          (document (object updated.settings)) []
        ∷ [];
    outbox = [];
  })

-- `json.Unmarshal(patch, &patchObject)`, where nil is no object.
abbrev patch_object : RawMessage → Option Fields
patch_object (document (object fields)) = some fields
patch_object raw = none

module _ (format : SettingsFormat) (commands : CommandService SettingsTable)
    (env : ℕ → Attempt (Db SettingsTable)) where
  -- `SettingsService.Get`
  unfoldable pub get : Uuid → Tx (Db SettingsTable) UserSettings
  get user = with_user default_attempts env user (λ round. on_resources (get_settings user))

  abbrev run_patch : MutationContext → ℕ → Fields → Tx (Db SettingsTable) UserSettings
  run_patch mutation expected fields s = elim (validate_settings_object fields true 0) [
    | err e ↦ (err e, s)
    | ok _ ↦ on_result (decoded format.read_settings) (
        execute commands env
          (resource_command mutation "settings.update" (format.patch_payload expected fields))
          (patch_operation format mutation.user_id expected fields) s)
  ]

  -- `SettingsService.Patch`
  unfoldable pub patch : MutationContext → ℕ → RawMessage → Tx (Db SettingsTable) UserSettings
  patch mutation expected raw s =
      if ltb expected 1 then (err validation, s) else elim (patch_object raw) [
        | none ↦ (err validation, s)
        | some fields ↦ run_patch mutation expected fields s
      ]
