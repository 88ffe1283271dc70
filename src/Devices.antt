-- ===== src/Devices.antt =====
-- src/device/services/device.service.ts: the devices that notifications are sent to.
pub mod Owner
use nestjs_ex.Entities.{Device}
use nestjs_ex.Prelude.{
  Option, String, find_first, nat_eq, none, not, or_else, some, text_eq, ℕ, ◌==◌,
}
use nestjs_ex.Store.{insert, update_rows}
use nestjs_ex.World.{
  Exec, column_not_nullable, device_id_required, gets, guard, need, ok, ◌>>=◌, ◌>>◌,
}

-- `UpdateUserDeviceInput`, with `none` for a property that is left out.
pub record UpdateUserDeviceInput : Type 0 where
  pub device_id : String
  pub fcm_token : Option String
  pub os : Option String

-- `findDeviceByDeviceId`
unfoldable pub find_device_by_device_id : String → Exec (Option Device)
find_device_by_device_id device_id = do
  guard (not (device_id == "")) device_id_required
  gets (λ w. find_first (λ d. w.env.same_text d.device_id device_id) w.devices.rows)

-- `{ ...input, userId, createdAt, updatedAt }`
abbrev pub new_device : ℕ → String → String → String → ℕ → ℕ → Device
new_device user_id device_id fcm_token os now id = record {
  id = id;
  user_id = user_id;
  device_id = device_id;
  fcm_token = fcm_token;
  os = os;
  created_at = now;
  updated_at = now;
}

-- `{ ...device, ...input, userId, updatedAt }`
abbrev pub updated_device : ℕ → UpdateUserDeviceInput → ℕ → Device → Device
updated_device user_id input now d = record d {
  user_id = user_id;
  device_id = input.device_id;
  fcm_token = or_else input.fcm_token d.fcm_token;
  os = or_else input.os d.os;
  updated_at = now;
}

unfoldable pub insert_device : (ℕ → Device) → Exec Device
insert_device row w = (ok (row w.devices.next_id), record w { devices = insert row w.devices })

unfoldable pub save_device : Device → Exec Device
save_device d w = (ok d, record w { devices = update_rows (λ x. x.id == d.id) (λ x. d) w.devices })

-- `if (device) … else …`; the columns of a new row are not nullable.
unfoldable pub write_device : ℕ → UpdateUserDeviceInput → ℕ → Option Device → Exec Device
write_device user_id input now (some d) = save_device (updated_device user_id input now d)
write_device user_id input now none = do
  fcm_token ← need input.fcm_token column_not_nullable
  os ← need input.os column_not_nullable
  insert_device (new_device user_id input.device_id fcm_token os now)

unfoldable pub update_device : ℕ → UpdateUserDeviceInput → Exec Device
update_device user_id input = do
  found ← find_device_by_device_id input.device_id
  now ← gets (λ w. w.env.now)
  write_device user_id input now found
