-- ===== src/Repository/Devices.antt =====
-- `upsertDevice`: the registration of a device, at most fifty to an account.
pub mod Effect
use author.Common.{
  ℕ, Bool, true, false, not, ◌||◌, Option, none, some, Text, text_eq, if◌then◌else◌, leb, length,
  keep_if, ◌≡◌, refl, Bool-cases, inl, inr, arith,
}
use author.Common.Table.{Table, get, put}
use author.Schema.{Device}
use author.ApiTypes.{device_kind, devices_per_account, EntityKind}
use author.Repository.Store.{Key, DeviceRow, Db, Operation, upserted, key_Eq}
use author.Repository.Log.{entity_key, latest_entity_operation, record_entity_change}
use author.Repository.Queries.{row_key}

-- DeviceLimitExceededError and RecordLimitExceededError, and the plain Error of a repeated id.
pub data StoreError : Type 0 where
  device_limit_exceeded record_limit_exceeded response_too_large : StoreError
  duplicate_id : EntityKind → StoreError

pub data Result (T : Type 0) : Type 0 where
  err : StoreError → Result T
  ok : T → Result T

abbrev pub is_upsert : Option Operation → Bool
is_upsert none = false
is_upsert (some upserted) = true
is_upsert (some Operation.deleted) = false

-- `SELECT count(*) FROM devices WHERE owner_username = ?`
abbrev pub device_count : Text → Table Key DeviceRow → ℕ
device_count owner table = length (keep_if (λ row. text_eq row.0.owner owner) table)

abbrev write_device : Text → Device → Text → Db → Db
write_device owner device seen_at db = record db {
  devices =
      put db.devices (row_key owner device.id)
        (record { name = device.name; last_seen_at = seen_at });
}

abbrev announce : Text → Device → Text → Db → Db
announce owner device seen_at db =
    record_entity_change (entity_key owner device_kind device.id) upserted seen_at db

-- The row found before, and the operation logged last.
abbrev register : Text → Device → Text → Option DeviceRow → Option Operation → Db → Result Db
register owner device seen_at none latest db =
    if leb devices_per_account (device_count owner db.devices)
    then err device_limit_exceeded
    else ok (announce owner device seen_at (write_device owner device seen_at db))
register owner device seen_at (some row) latest db =
    let db' = write_device owner device seen_at db in
    ok (
      if not (text_eq row.name device.name) || not (is_upsert latest)
      then announce owner device seen_at db'
      else db')

unfoldable pub upsert_device : Text → Device → Text → Db → Result Db
upsert_device owner device seen_at db =
    register owner device seen_at (get db.devices (row_key owner device.id))
      (latest_entity_operation db (entity_key owner device_kind device.id)) db

register-error :
    (owner : Text) (device : Device) (seen_at : Text) (row : Option DeviceRow)
    (latest : Option Operation) (db : Db) (e : StoreError)
    → register owner device seen_at row latest db ≡ err e
    → e ≡ device_limit_exceeded
register-error owner device seen_at none latest db e h =
    elim (Bool-cases (leb devices_per_account (device_count owner db.devices))) [
      | inl full ↦ (let failed = rw full at h in ground arith)
      | inr room ↦ absurd (let works = rw room at h in ground arith)
    ]
register-error owner device seen_at (some row) latest db e h = absurd (ground arith)

-- A registration fails only where the account has its devices.
pub upsert_device-error :
    (owner : Text) (device : Device) (seen_at : Text) (db : Db) (e : StoreError)
    → upsert_device owner device seen_at db ≡ err e
    → e ≡ device_limit_exceeded
unfolding upsert_device
upsert_device-error owner device seen_at db e h =
    register-error owner device seen_at (get db.devices (row_key owner device.id))
      (latest_entity_operation db (entity_key owner device_kind device.id)) db e h

infixl 5 ◌>>=◌
abbrev pub ◌>>=◌ : {S T : Type 0} → Result S → (S → Result T) → Result T
err reason >>= next = err reason
ok value >>= next = next value

pub first_of_ok :
    {S T : Type 0} (first : Result S) (next : S → Result T) {out : T}
    → first >>= next ≡ ok out
    → (value : S) × (first ≡ ok value) × (next value ≡ ok out)
first_of_ok (err reason) next h = absurd (cc)
first_of_ok (ok value) next h = (value, refl, h)
