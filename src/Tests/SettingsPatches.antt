-- ===== src/Tests/SettingsPatches.antt =====
-- A patch of one permission.
use be_better.Prelude.{◌≡◌, refl, true, false, some, [], ◌∷◌, pos, find_first}
use be_better.Model.{null, boolean, object, Fields, end, field, empty, ok, err, failure}
use be_better.Exec.{◌>>=◌, lift, pure}
use be_better.Command.{CommandResult}
use be_better.Settings.Validation.{too_deep, validate_settings_object}
use be_better.Settings.Service.{
  UserSettings, SettingsTable, SettingsFormat, of_user, get_settings, update_settings,
  replaced_settings, patch_operation,
}
use be_better.Settings.Valid.{AllValid, patch_operation-AllValid}
use be_better.Settings.{lookup, merge_object}
use be_better.Settings.Merge.{patched_by, lookup-merge_object}

abbrev current : Fields
current =
    field "aiEnabled" (boolean true)
      (field "permissions" (object (field "goals" (boolean true) end)) end)

abbrev patch : Fields
patch =
    field "aiEnabled" null (field "permissions" (object (field "calendar" (boolean false) end)) end)

lookup-merge_object_example :
    lookup "permissions" (merge_object current patch)
    ≡ patched_by (lookup "permissions" current) (lookup "permissions" patch)
lookup-merge_object_example = lookup-merge_object current patch "permissions" (refl, (refl, tt))

abbrev plain : SettingsFormat
plain = record {
  settings_json = λ settings. null;
  read_settings = λ body. err failure;
  patch_payload = λ expected fields. [];
}

abbrev stored : UserSettings
stored = record {
  user_id = 1;
  schema_version = 1;
  version = 4;
  settings = current;
  updated_at = 100;
}

abbrev table : SettingsTable
table = record { rows = stored ∷ []; clock = 500 }

abbrev patched_table : SettingsTable
patched_table = (patch_operation plain 1 4 patch table).1

abbrev patching : CommandResult
patching = elim (patch_operation plain 1 4 patch table).0 [
  | ok r ↦ r
  | err e ↦ record { status = pos 0; body = empty; changes = []; audits = []; outbox = [] }
]

table-AllValid : AllValid table
unfolding validate_settings_object too_deep
table-AllValid = (refl, tt)

patches : patch_operation plain 1 4 patch table ≡ (ok patching, patched_table)
unfolding patch_operation get_settings update_settings validate_settings_object too_deep
    merge_object ◌>>=◌ lift pure
patches = refl

patch_operation-AllValid_example :
    AllValid patched_table
    × (old : UserSettings) × (find_first (of_user 1) table.rows ≡ some old)
    × (old.version ≡ 4)
    × (find_first (of_user 1) patched_table.rows
        ≡ some (replaced_settings 1 (merge_object old.settings patch) 500 old))
patch_operation-AllValid_example =
    patch_operation-AllValid plain 1 4 patch table table-AllValid patches
