-- ===== src/Devices.antt =====
-- internal/service/device.go over internal/postgres/device_repository.go: the registration of a
-- device under an id that the client chose.
pub mod Registered
use be_better.Prelude.{
  ℕ, String, rune_count, trim_space, one_of, Bool, true, false, not, ◌&&◌, ◌||◌, Option, none, some,
  List, [], ◌∷◌, ltb, ◌==◌, if◌then◌else◌, is_some, find_first, any_row, update_rows,
}
use be_better.Model.{
  Uuid, is_nil, Time, UserDevice, Json, empty, document, AuditDraft, validation, conflict, Result,
  ok, err,
}
use be_better.Exec.{Tx, pure, ◌>>=◌}
use be_better.Database.Transaction.{Attempt, with_user, default_attempts}
use be_better.Store.{Db, active_device}
use be_better.Audit.{AuditService, record_audits}
use be_better.Resources.Service.{audit_of}

pub record RegisterDeviceInput : Type 0 where
  pub device_name : String
  pub platform : String

pub record DeviceRegistration : Type 0 where
  pub device : UserDevice
  pub created : Bool

-- `strings.ToLower`, and what encoding/json makes of a device.
pub record DeviceFormat : Type 0 where
  pub to_lower : String → String
  pub device_json : UserDevice → Json

-- `validDevicePlatform`
abbrev pub valid_device_platform : String → Bool
valid_device_platform platform =
    one_of ("web" ∷ "windows" ∷ "macos" ∷ "linux" ∷ "ios" ∷ "android" ∷ []) platform

-- The row of `CreateUserDevice`, with the defaults of its columns.
abbrev pub new_device : Uuid → Uuid → RegisterDeviceInput → Time → UserDevice
new_device user id input now = record {
  id = id;
  user_id = user;
  device_name = input.device_name;
  platform = input.platform;
  last_seen_at = now;
  last_sync_cursor = 0;
  created_at = now;
  revoked_at = none;
}

-- `RefreshUserDevice`
abbrev pub refreshed : RegisterDeviceInput → Time → UserDevice → UserDevice
refreshed input now old = record old {
  device_name = input.device_name;
  platform = input.platform;
  last_seen_at = now;
}

abbrev pub is_active : Uuid → Uuid → UserDevice → Bool
is_active user id device =
    device.user_id == user && device.id == id && not (is_some device.revoked_at)

abbrev seen_later : UserDevice → UserDevice → Bool
seen_later a b =
    ltb a.last_seen_at b.last_seen_at || a.last_seen_at == b.last_seen_at && ltb b.id a.id

-- `ORDER BY revoked_at NULLS FIRST, last_seen_at DESC, id`
abbrev pub later_device : UserDevice → UserDevice → Bool
later_device a b = elim a.revoked_at [
  | none ↦ elim b.revoked_at [ none ↦ seen_later a b | some u ↦ false ]
  | some t ↦ elim b.revoked_at [ none ↦ true | some u ↦ ltb u t || t == u && seen_later a b ]
]

abbrev pub insert_device : UserDevice → List UserDevice → List UserDevice
insert_device a [] = a ∷ []
insert_device a (b ∷ bs) =
    let rest = insert_device a bs in if later_device a b then b ∷ rest else a ∷ b ∷ bs

abbrev pub devices_of : Uuid → List UserDevice → List UserDevice
devices_of user [] = []
devices_of user (d ∷ ds) =
    let rest = devices_of user ds in if d.user_id == user then insert_device d rest else rest

-- The input as `Register` cleans it.
abbrev pub cleaned : DeviceFormat → RegisterDeviceInput → RegisterDeviceInput
cleaned format input = record {
  device_name = trim_space input.device_name;
  platform = format.to_lower (trim_space input.platform);
}

abbrev pub device_audit : DeviceFormat → DeviceRegistration → AuditDraft
device_audit format registration =
    audit_of (if registration.created then "device.register" else "device.refresh") empty
      (document (format.device_json registration.device)) []

module _ {R : Type 0} where
  -- `DeviceRepository.Register`: the INSERT skips an id that some row has, whoever has it.
  unfoldable pub register_device : Uuid → Uuid → RegisterDeviceInput → Tx (Db R) DeviceRegistration
  register_device user id input s =
      if any_row (λ d. d.id == id) s.devices
      then elim (find_first (is_active user id) s.devices) [
        | none ↦ (err conflict, s)
        | some old ↦ (
          ok (record { device = refreshed input s.clock old; created = false }),
          record s {
            devices = update_rows (is_active user id) (refreshed input s.clock) s.devices;
          },
        )
      ]
      else (
        ok (record { device = new_device user id input s.clock; created = true }),
        record s { devices = new_device user id input s.clock ∷ s.devices },
      )

  -- `DeviceRepository.List`
  unfoldable pub list_devices : Uuid → Tx (Db R) (List UserDevice)
  list_devices user s = (ok (devices_of user s.devices), s)

  module _ (format : DeviceFormat) (audit : AuditService) where
    -- The closure of `Register`.
    unfoldable pub register_tx : Uuid → Uuid → RegisterDeviceInput → Tx (Db R) DeviceRegistration
    register_tx user id input = do
      registration ← register_device user id input
      _ ← record_audits audit user (device_audit format registration ∷ [])
      pure registration

    module _ (env : ℕ → Attempt (Db R)) where
      -- `DeviceService.Register`
      unfoldable pub register : Uuid → Uuid → RegisterDeviceInput → Tx (Db R) DeviceRegistration
      register user id input s =
          let input = cleaned format input in
          if is_nil user
            || is_nil id
            || ltb (rune_count input.device_name) 1
            || ltb 120 (rune_count input.device_name)
            || not (valid_device_platform input.platform)
          then (err validation, s)
          else with_user default_attempts env user (λ round. register_tx user id input) s

      -- `DeviceService.List`
      unfoldable pub list : Uuid → Tx (Db R) (List UserDevice)
      list user s =
          if is_nil user
          then (err validation, s)
          else with_user default_attempts env user (λ round. list_devices user) s
