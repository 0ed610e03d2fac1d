-- ===== src/Settings/Valid.antt =====
-- What dayorder.user_settings holds after `Patch` of internal/service/settings.go.
use be_better.Prelude.{
  ℕ, Bool, false, ◌≡◌, refl, List, [], ◌∷◌, All, arith, ◌==◌, Option-cases, Bool-cases, inl, inr,
  find_first, find_first-holds, find_first-update_rows, ap, subst, some, update_rows,
}
use be_better.Model.{Uuid, Fields, Result, ok}
use be_better.Exec.{>>=-eq-ok, lift-then, shaped-ok}
use be_better.Command.{CommandResult}
use be_better.Settings.{merge_object}
use be_better.Settings.Validation.{validate_settings_object}
use be_better.Settings.Service.{
  UserSettings, SettingsTable, SettingsFormat, of_user, get_settings, update_settings,
  replaced_settings, patch_operation,
}

-- The settings that a stored row may have.
abbrev pub ValidSettings : UserSettings → Type 0
ValidSettings row = validate_settings_object row.settings false 0 ≡ ok tt

-- Every row of the table.
abbrev pub AllValid : SettingsTable → Type 0
AllValid s = All ValidSettings s.rows

update_rows-All :
    (p : UserSettings → Bool) (f : UserSettings → UserSettings) (rows : List UserSettings)
    → ((row : UserSettings) → ValidSettings (f row))
    → All ValidSettings rows
    → All ValidSettings (update_rows p f rows)
update_rows-All p f [] valid all = tt
update_rows-All p f (r ∷ rs) valid all = elim (Bool-cases (p r)) [
  | inl e ↦ (rw e (valid r), update_rows-All p f rs valid all.1)
  | inr e ↦ (rw e all.0, update_rows-All p f rs valid all.1)
]

get_settings-ok :
    (user : Uuid) (s : SettingsTable) {row : UserSettings} {t : SettingsTable}
    → get_settings user s ≡ (ok row, t)
    → (find_first (of_user user) s.rows ≡ some row) × (t ≡ s)
unfolding get_settings
get_settings-ok user s h = elim (Option-cases (find_first (of_user user) s.rows)) [
  | inl e ↦ absurd (ground (arith, h, e))
  | inr (old, e) ↦ (ground (arith, h, e), ground (arith, h, e))
]

-- A write over a row.
update_settings-ok :
    (user : Uuid) (schema : ℕ) (settings : Fields) (expected : ℕ) (s : SettingsTable)
    (old : UserSettings) {row : UserSettings} {t : SettingsTable}
    → find_first (of_user user) s.rows ≡ some old
    → update_settings user schema settings expected s ≡ (ok row, t)
    → (old.version ≡ expected)
      × (t.rows ≡ update_rows (of_user user) (replaced_settings schema settings s.clock) s.rows)
unfolding update_settings
update_settings-ok user schema settings expected s old found h =
    (ground (arith, found, h), ground (arith, found, h))

-- A write of settings that are valid.
update_settings-AllValid :
    (user : Uuid) (schema : ℕ) (settings : Fields) (expected : ℕ) (s : SettingsTable)
    → validate_settings_object settings false 0 ≡ ok tt
    → AllValid s
    → AllValid (update_settings user schema settings expected s).1
unfolding update_settings
update_settings-AllValid user schema settings expected s valid all =
    elim (Option-cases (find_first (of_user user) s.rows)) [
      | inl e ↦ rw (e, update_settings) (valid, all)
      | inr (old, e) ↦ elim (Bool-cases (old.version == expected)) [
        | inl k ↦
            rw (e, update_settings, k)
              (update_rows-All (of_user user) (replaced_settings schema settings s.clock) s.rows
                (λ row. valid) all)
        | inr k ↦ rw (e, update_settings, k) all
      ]
    ]

merged-written :
    (user : Uuid) (expected : ℕ) (s : SettingsTable) (old : UserSettings) (settings : Fields)
    {row : UserSettings} {t : SettingsTable}
    → AllValid s
    → find_first (of_user user) s.rows ≡ some old
    → validate_settings_object settings false 0 ≡ ok tt
    → update_settings user 1 settings expected s ≡ (ok row, t)
    → AllValid t
      × (old.version ≡ expected)
      × (find_first (of_user user) t.rows ≡ some (replaced_settings 1 settings s.clock old))
merged-written user expected s old settings all here valid done =
    let (current, rows) = update_settings-ok user 1 settings expected s old here done in
    let written =
      find_first-update_rows (of_user user) (of_user user) (replaced_settings 1 settings s.clock)
        s.rows (λ row. refl) in
    let mine = find_first-holds (of_user user) s.rows old here in
    (
      subst AllValid (ap (λ (q : Result UserSettings × SettingsTable). q.1) done)
          (update_settings-AllValid user 1 settings expected s valid all),
      current,
      rw rows (rw (here, mine) at written),
    )

-- The operation of `Patch` that succeeds merges the patch into the settings of the user, at the
-- version that it expected and with the next one, and where all stored settings pass
-- `validateSettingsObject`, so do all that it leaves.
pub patch_operation-AllValid :
    (format : SettingsFormat) (user : Uuid) (expected : ℕ) (patch : Fields) (s : SettingsTable)
    {r : CommandResult} {t : SettingsTable}
    → AllValid s
    → patch_operation format user expected patch s ≡ (ok r, t)
    → AllValid t
      × (old : UserSettings) × (find_first (of_user user) s.rows ≡ some old)
      × (old.version ≡ expected)
      × (find_first (of_user user) t.rows
          ≡ some (replaced_settings 1 (merge_object old.settings patch) s.clock old))
unfolding patch_operation get_settings
patch_operation-AllValid format user expected patch s {t = t} all h =
    let (old, s1, found, rest) = >>=-eq-ok (get_settings user) _ s h in
    let (here, same) = get_settings-ok user s found in
    let merged = merge_object old.settings patch in
    let (checked, valid, rest2) = lift-then (validate_settings_object merged false 0) _ s1 rest in
    let (updated, done, made) = shaped-ok (update_settings user 1 merged expected) _ s1 rest2 in
    let (valid_after, current, written) =
      merged-written user expected s old merged all here valid
        (subst (λ u. update_settings user 1 merged expected u ≡ (ok updated, t)) same done) in
    (valid_after, old, here, current, written)
