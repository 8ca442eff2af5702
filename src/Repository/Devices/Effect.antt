-- ===== src/Repository/Devices/Effect.antt =====
-- What the registration of a device changes, and what it leaves.
use author.Common.{◌≡◌, false, Text, text_Eq, arith}
use author.Schema.{Device}
use author.ApiTypes.{device_kind}
use author.Repository.Store.{Db, EntityKey, entity_key_eq, key_Eq, entity_key_Eq, kind_eq}
use author.Repository.Log.{
  latest_entity_operation, latest_entity_change, record_entity_change, IsOrdered,
}
use author.Repository.Devices.{ok, upsert_device}

-- A store that has the notes, the notebooks and the tombstones of another, and their changes.
pub record SameRecords (before after : Db) : Type 0 where
  pub same_notes : after.notes ≡ before.notes
  pub same_notebooks : after.notebooks ≡ before.notebooks
  pub same_tombstones : after.tombstones ≡ before.tombstones
  pub same_latest :
      (key : EntityKey)
      → kind_eq device_kind key.kind ≡ false
      → latest_entity_operation after key ≡ latest_entity_operation before key
  pub ordered :
      IsOrdered before.next_revision before.changes → IsOrdered after.next_revision after.changes

pub upsert_device-SameRecords :
    (owner : Text) (device : Device) (seen_at : Text) (db tx : Db)
    → upsert_device owner device seen_at db ≡ ok tx
    → SameRecords db tx
unfolding upsert_device record_entity_change latest_entity_operation latest_entity_change
    entity_key_eq
upsert_device-SameRecords owner device seen_at db tx h = record {
  same_notes = ground arith;
  same_notebooks = ground arith;
  same_tombstones = ground arith;
  same_latest = λ key k. ground arith;
  ordered = λ o. ground arith;
}
