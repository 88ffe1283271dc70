-- ===== src/Devices/Owner.antt =====
-- src/device/services/device.service.ts: the device is the caller's afterwards.
use nestjs_ex.Devices.{
  UpdateUserDeviceInput, find_device_by_device_id, insert_device, new_device, save_device,
  update_device, updated_device, write_device,
}
use nestjs_ex.Entities.{Device}
use nestjs_ex.Prelude.{
  Option, String, false, find_first, nat_eq, none, refl, some, text_eq, true, ℕ, ◌==◌, ◌≡◌,
}
use nestjs_ex.Store.Finding.{Keyed-saved, find_first-inserted, find_first-saved}
use nestjs_ex.Store.Keyed.{Keyed, Keyed-append}
use nestjs_ex.World.{World, ok, ◌>>=◌}

-- The device that a read by its id finds.
abbrev pub device_at : String → World → Option Device
device_at device_id w = find_first (λ d. w.env.same_text d.device_id device_id) w.devices.rows

-- The device `d` is found under the id, with the token and the system, as the user's.
abbrev pub IsStored : ℕ → String → String → String → Device → World → Type 0
IsStored user_id device_id fcm_token os d v =
    (device_at device_id v ≡ some d)
    × (d.user_id ≡ user_id)
    × (d.fcm_token ≡ fcm_token)
    × (d.os ≡ os)

module _ (user_id : ℕ) (device_id fcm_token os : String) (w : World)
    (same : w.env.same_text device_id device_id ≡ true)
    (keys : Keyed Device.id w.devices.next_id w.devices.rows) where
  abbrev input : UpdateUserDeviceInput
  input = record { device_id = device_id; fcm_token = some fcm_token; os = some os }

  write_device_lem :
      (now : ℕ) (found : Option Device)
      → device_at device_id w ≡ found
      → (d : Device) × (v : World) × (write_device user_id input now found w ≡ (ok d, v))
        × IsStored user_id device_id fcm_token os d v
        × Keyed Device.id v.devices.next_id v.devices.rows
  unfolding write_device insert_device save_device ◌>>=◌
  write_device_lem now none e =
      let d = new_device user_id device_id fcm_token os now w.devices.next_id in
      (
        d,
        _,
        refl,
        (find_first-inserted _ w.devices.rows d e same, refl, refl, refl),
        Keyed-append Device.id w.devices.next_id w.devices.rows d refl keys,
      )
  write_device_lem now (some old) e =
      let d = updated_device user_id input now old in
      (
        d,
        _,
        refl,
        (
          find_first-saved Device.id w.devices.next_id w.devices.rows old d _ keys refl e same,
          refl,
          refl,
          refl,
        ),
        Keyed-saved Device.id w.devices.next_id w.devices.rows old d keys,
      )

  -- A call with a device id that is not empty, a token and a system always returns; afterwards the id names one
  -- device with that token and that system, and it is the caller's, whoever had it before.
  pub update_device-ok :
      (device_id == "") ≡ false
      → (d : Device) × (v : World) × (update_device user_id input w ≡ (ok d, v))
        × IsStored user_id device_id fcm_token os d v
        × Keyed Device.id v.devices.next_id v.devices.rows
  unfolding update_device find_device_by_device_id ◌>>=◌
  update_device-ok given = rw given (write_device_lem w.env.now (device_at device_id w) refl)
