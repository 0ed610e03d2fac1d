-- ===== src/Tests/DeviceTables.antt =====
-- A phone that is registered, and registered again under another name.
use be_better.Prelude.{ℕ, ◌≡◌, ◌==◌, refl, false, ◌⊎◌, some, [], ◌∷◌, any_row}
use be_better.Model.{conflict, ok, err}
use be_better.Store.{Db, active_device}
use be_better.Devices.{RegisterDeviceInput, DeviceRegistration, register_device, new_device}
use be_better.Devices.Registered.{owners, register_device-active}

abbrev phone : RegisterDeviceInput
phone = record { device_name = "phone"; platform = "ios" }

abbrev renamed_phone : RegisterDeviceInput
renamed_phone = record { device_name = "my phone"; platform = "ios" }

abbrev empty_tables : Db ℕ
empty_tables = record {
  resources = 0;
  devices = [];
  mutations = [];
  changes = [];
  next_sequence = 1;
  audits = [];
  outbox = [];
  clock = 500;
}

abbrev with_phone : Db ℕ
with_phone = (register_device 1 40 phone empty_tables).1

abbrev with_renamed : Db ℕ
with_renamed = (register_device 1 40 renamed_phone with_phone).1

abbrev registration : DeviceRegistration
registration = record {
  device = record (new_device 1 40 phone 500) { device_name = "my phone" };
  created = false;
}

registers_again : register_device 1 40 renamed_phone with_phone ≡ (ok registration, with_renamed)
unfolding register_device
registers_again = refl

-- The id of another user's device.
taken_id : register_device 2 40 phone with_phone ≡ (err conflict, with_phone)
unfolding register_device
taken_id = refl

register_device-active_example :
    (active_device 1 40 with_renamed.devices ≡ some registration.device)
    × ((owners with_renamed.devices ≡ owners with_phone.devices)
        ⊎ ((any_row (λ d. d.id == 40) with_phone.devices ≡ false)
            × (owners with_renamed.devices ≡ (40, 1) ∷ owners with_phone.devices)))
register_device-active_example =
    register_device-active 1 40 renamed_phone with_phone registers_again
