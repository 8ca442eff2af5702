-- ===== src/Repository/Deletes.antt =====
-- `deleteNotesByIds`, `deleteNotebooksByIds` and `deleteDevicesByIds`. The clock is read for each
-- record: `buried` for its tombstone, `logged` for its change.
pub mod Effect
pub mod Exact
use author.Common.{
  ℕ, ◌<◌, Bool, true, false, ◌&&◌, ◌||◌, ◌+◌, Option, none, some, List, [], ◌∷◌, Text, lit,
  for_each, text_eq, text_Eq, if◌then◌else◌, any, ltb,
}
use author.Common.Dedup.{contains}
use author.Common.Table.{Table, get, remove, remove_if}
use author.ApiTypes.{EntityKind, device_kind, note_kind, notebook_kind}
use author.Schema.{Note, Notebook}
use author.SyncSpec.{next_version_after}
use author.Repository.Store.{
  Key, EntityKey, Tombstone, Operation, upserted, deleted, Db, key_Eq, entity_key_Eq, key_eq,
  NoteRow, NotebookRow,
}
use author.Repository.Chunks.{chunks}
use author.Repository.Log.{
  entity_key, latest_entity_operation, record_entity_change, get_entity_tombstone,
  put_entity_tombstone, unique_entity_ids,
}
use author.Repository.Queries.{row_key, get_notes_by_ids, get_notebooks_by_ids}

pub record Clock : Type 0 where
  pub buried : Text → Text
  pub logged : Text → Text

abbrev is_delete : Option Operation → Bool
is_delete none = false
is_delete (some upserted) = false
is_delete (some deleted) = true

-- The device and the version of a deleted record, as far as it was stored.
abbrev pub note_author : Option Note → Option (Text × ℕ)
note_author none = none
note_author (some n) = some (n.device_id, n.version)

abbrev pub notebook_author : Option Notebook → Option (Text × ℕ)
notebook_author none = none
notebook_author (some b) = some (b.device_id, b.version)

-- `if (note || !tombstone) putEntityTombstone(…)`
abbrev pub bury_record : Text → EntityKey → Option (Text × ℕ) → Option Tombstone → Db → Db
bury_record time key (some (device, version)) tombstone db =
    put_entity_tombstone key
      (record { deleted_at = time; device_id = device; version = next_version_after version }) db
bury_record time key none none db =
    put_entity_tombstone key (record { deleted_at = time; device_id = lit "server"; version = 1 })
      db
bury_record time key none (some _) db = db

-- `if (latestEntityOperation(…) !== 'delete') recordEntityChange(…)`
unfoldable pub log_delete : Text → EntityKey → Db → Db
log_delete time key db =
    if is_delete (latest_entity_operation db key)
    then db
    else record_entity_change key deleted time db

-- One round of the loop over the ids.
unfoldable pub bury_by_id : Clock → Text → EntityKind → (Text → Option (Text × ℕ)) → Db → Text → Db
bury_by_id clock owner kind existing db id =
    let key = entity_key owner kind id in
    log_delete (clock.logged id) key
      (bury_record (clock.buried id) key (existing id) (get_entity_tombstone db key) db)

-- `DELETE … WHERE owner_username = ? AND id IN (…)`, in blocks
unfoldable pub delete_rows : {Row : Type 0} → Text → List Text → Table Key Row → Table Key Row
delete_rows owner ids table =
    for_each (λ t chunk. remove_if (λ k. text_eq k.owner owner && contains chunk k.id) t) table
      (chunks ids 200)

unfoldable pub delete_notes_by_ids : Clock → List Text → Text → Db → Db
delete_notes_by_ids clock ids owner db =
    let unique = unique_entity_ids ids in
    let existing = get_notes_by_ids db unique owner in
    for_each (bury_by_id clock owner note_kind (λ id. note_author (get existing id)))
      (record db { notes = delete_rows owner unique db.notes }) unique

unfoldable pub delete_notebooks_by_ids : Clock → List Text → Text → Db → Db
delete_notebooks_by_ids clock ids owner db =
    let unique = unique_entity_ids ids in
    let existing = get_notebooks_by_ids db unique owner in
    for_each (bury_by_id clock owner notebook_kind (λ id. notebook_author (get existing id)))
      (record db { notebooks = delete_rows owner unique db.notebooks }) unique

-- A note or notebook of the owner that the device wrote.
abbrev pub written_by_note : Text → Text → Key × NoteRow → Bool
written_by_note owner device (k, row) = text_eq k.owner owner && text_eq row.device_id device

abbrev pub written_by_notebook : Text → Text → Key × NotebookRow → Bool
written_by_notebook owner device (k, row) = text_eq k.owner owner && text_eq row.device_id device

-- The sum of the four counts is positive when one of them is.
unfoldable pub device_is_referenced : Db → Text → Text → Bool
device_is_referenced db device owner =
    any (written_by_note owner device) db.notes
    || any (written_by_notebook owner device) db.notebooks
    || any (key_eq (row_key owner device)) db.auth_sessions
    || any (key_eq (row_key owner device)) db.trusted_auth_devices

abbrev drop_device : Text → Db → Text → Db
drop_device owner db id =
    if device_is_referenced db id owner
    then db
    else record db { devices = remove db.devices (row_key owner id) }

unfoldable pub delete_devices_by_ids : Clock → List Text → Text → Db → Db
delete_devices_by_ids clock ids owner db =
    for_each
      (λ d id.
        log_delete (clock.logged id) (entity_key owner device_kind id) (drop_device owner d id))
      db (unique_entity_ids ids)
