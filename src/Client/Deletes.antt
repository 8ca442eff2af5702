-- ===== src/Client/Deletes.antt =====
-- `applyRemoteDeletes` and `saveDevices` of sync-store.ts: what a page says of deleted records, and the
-- devices that it lists.
pub mod Exact
use author.Common.{
  Bool, true, false, not, ◌&&◌, Option, none, some, List, [], ◌∷◌, ◌++◌, Text, text_Eq, truthy,
  keep_if, for_each, if◌then◌else◌,
}
use author.Common.Dedup.{dedup}
use author.Common.Table.{Table, get, put, remove}
use author.Schema.{Device}
use author.Client.Store.{
  LocalRow, LocalDb, Fields, note_fields, notebook_fields, can_apply_remote_delete,
}

-- `[...new Set(ids)].filter(Boolean)`
unfoldable pub present_ids : List Text → List Text
present_ids ids = keep_if truthy (dedup ids)

-- `bulkPut`
unfoldable pub save_devices : List Device → LocalDb → LocalDb
save_devices devices db = record db {
  devices = for_each (λ t (d : Device). put t d.id d) db.devices devices;
}

module _ {T : Type 0} (F : Fields T) where
  abbrev pub can_delete : Option (LocalRow T) → Bool
  can_delete none = false
  can_delete (some row) = can_apply_remote_delete (F.status row.entity)

  -- A notebook that is gone is one whose references go too.
  abbrev pub is_gone : Option (LocalRow T) → Bool
  is_gone none = true
  is_gone (some row) = can_apply_remote_delete (F.status row.entity)

  unfoldable pub delete_row : Table Text (LocalRow T) → Text → Table Text (LocalRow T)
  delete_row rows id = if can_delete (get rows id) then remove rows id else rows

  unfoldable pub delete_with_references :
      Table Text (LocalRow T) × List Text → Text → Table Text (LocalRow T) × List Text
  unfolding delete_row
  delete_with_references (rows, gone) id =
      (delete_row rows id, if is_gone (get rows id) then gone ++ id ∷ [] else gone)

-- The store, and the ids of the notebooks whose references are to be removed.
unfoldable pub apply_remote_deletes :
    List Text → List Text → List Text → LocalDb → LocalDb × List Text
apply_remote_deletes note_ids notebook_ids device_ids db =
    let (notebooks, gone) =
      for_each (delete_with_references notebook_fields) (db.notebooks, [])
        (present_ids notebook_ids) in
    (
      record db {
        notes = for_each (delete_row note_fields) db.notes (present_ids note_ids);
        notebooks = notebooks;
        devices = for_each remove db.devices (present_ids device_ids);
      },
      gone,
    )
