-- ===== src/Devices/Registered.antt =====
-- What `DeviceRepository.Register` of internal/postgres/device_repository.go leaves.
use be_better.Prelude.{
  Bool, false, ◌≡◌, refl, List, [], ◌∷◌, arith, ◌==◌, some, any_row, find_first, update_rows,
  Bool-cases, Option-cases, ◌⊎◌, inl, inr, ◌∙◌, find_first-holds, find_first-update_rows,
}
use be_better.Model.{Uuid, UserDevice, ok}
use be_better.Store.{Db, active_device}
use be_better.Devices.{
  RegisterDeviceInput, DeviceRegistration, is_active, refreshed, new_device, register_device,
}

-- Ids of the table, with the owner of each.
abbrev pub owners : List UserDevice → List (Uuid × Uuid)
owners [] = []
owners (d ∷ ds) = (d.id, d.user_id) ∷ owners ds

owners-update_rows :
    (p : UserDevice → Bool) (f : UserDevice → UserDevice) (devices : List UserDevice)
    → ((d : UserDevice) → ((f d).id ≡ d.id) × ((f d).user_id ≡ d.user_id))
    → owners (update_rows p f devices) ≡ owners devices
owners-update_rows p f [] keeps = refl
owners-update_rows p f (d ∷ ds) keeps =
    let rest = owners-update_rows p f ds keeps in
    elim (Bool-cases (p d)) [
      | inl e ↦ rw (e, (keeps d).0, (keeps d).1, rest) refl
      | inr e ↦ rw (e, rest) refl
    ]

active_device-find_first :
    (user id : Uuid) (devices : List UserDevice)
    → active_device user id devices ≡ find_first (is_active user id) devices
active_device-find_first user id [] = refl
active_device-find_first user id (d ∷ ds) = ground (arith, active_device-find_first user id ds)

module _ {R : Type 0} where
  -- After a registration that succeeds, `RequireActiveDevice` finds the device that it returned. The
  -- table has the ids and owners that it had, or one more where no row had the id: an id never
  -- changes its owner.
  pub register_device-active :
      (user id : Uuid) (input : RegisterDeviceInput) (s : Db R) {r : DeviceRegistration} {t : Db R}
      → register_device user id input s ≡ (ok r, t)
      → (active_device user id t.devices ≡ some r.device)
        × ((owners t.devices ≡ owners s.devices)
            ⊎ ((any_row (λ d. d.id == id) s.devices ≡ false)
                × (owners t.devices ≡ (id, user) ∷ owners s.devices)))
  unfolding register_device
  register_device-active user id input s {r = r} {t = t} h =
      elim (Bool-cases (any_row (λ d. d.id == id) s.devices)) [
        | inl e ↦ elim (Option-cases (find_first (is_active user id) s.devices)) [
          | inl k ↦ absurd (ground (arith, h, e, k))
          | inr (old, k) ↦
              let rows : t.devices
                  ≡ update_rows (is_active user id) (refreshed input s.clock) s.devices =
                ground (arith, h, e, k) in
              let value : r.device ≡ refreshed input s.clock old = ground (arith, h, e, k) in
              let mine = find_first-holds (is_active user id) s.devices old k in
              let found =
                find_first-update_rows (is_active user id) (is_active user id)
                  (refreshed input s.clock) s.devices (λ d. refl) in
              (
                active_device-find_first user id t.devices
                    ∙ rw (rows, value) (rw (k, mine) at found),
                inl (
                    rw rows (
                      owners-update_rows (is_active user id) (refreshed input s.clock) s.devices
                        (λ d. (refl, refl)))),
              )
        ]
        | inr e ↦
            let rows : t.devices ≡ new_device user id input s.clock ∷ s.devices =
              ground (arith, h, e) in
            let value : r.device ≡ new_device user id input s.clock = ground (arith, h, e) in
            (rw (rows, value) (ground arith), inr (e, rw rows refl))
      ]
