-- ===== src/Tests/Maintenance.antt =====
-- The maintenance of a store whose only note is in the trash.
use author.Common.{
  ◌≡◌, refl, ◌∙◌, ℕ, Bool, true, false, Option, none, some, [], ◌∷◌, Text, lit, text_eq, ◌||◌,
  if◌then◌else◌,
}
use author.Common.Table.{get, put, upsert, remove, remove_if}
use author.Schema.{Note}
use author.ApiTypes.{note_kind}
use author.SyncSpec.Cursor.{retention_cutoff}
use author.Repository.Store.{Db, Key, DeviceRow, key_Eq, EntityKey, empty_db, key_eq, entity_key_eq}
use author.Repository.Refs.{to_note, note_row}
use author.Repository.Chunks.{chunks}
use author.Repository.Log.{
  entity_key, latest_entity_change, record_entity_change, put_entity_tombstone,
  clear_entity_tombstones_by_ids,
}
use author.Repository.Writes.{put_notes, insert_rows, record_entity_changes, save_note_snapshot}
use author.Repository.Consistency.{IsConsistent}
use author.Repository.Consistency.Write.{put_notes-IsConsistent}
use author.Repository.Maintenance.{
  CleanupResponse, cleanup_trash, clean_rows, clean_note, bury, prune_version_snapshots,
  prune_version_snapshots_before, prune_unreferenced_devices, compact_entity_changes,
}
use author.Repository.Maintenance.Consistency.{cleanup_trash-IsConsistent}
use author.Repository.Maintenance.Devices.{prune_unreferenced_devices_lem}
use author.Repository.Consistency.Same.{SameRecords-IsConsistent, SameRecords-of_eq}
use author.Repository.Deletes.{device_is_referenced}
use author.Repository.Maintenance.Compaction.{
  latest_entity_change-compact_entity_changes, compact_entity_changes-IsConsistent,
}
use author.Tests.Sample.{me, sample_note}
use author.Tests.Sample.Empty.{empty_db-IsConsistent}

abbrev trashed : Note → Note
trashed n = record n { trashed_at = some (lit "2020-01-01") }

abbrev trash : Db
trash = (put_notes me (lit "t") (trashed (sample_note "n1" "one" 1) ∷ []) empty_db).1

trash-IsConsistent : IsConsistent trash
trash-IsConsistent =
    put_notes-IsConsistent me (lit "t") (trashed (sample_note "n1" "one" 1) ∷ []) empty_db
      empty_db-IsConsistent

abbrev earlier : Text → Text → Bool
earlier a b = true

abbrev to_iso : ℕ → Text
to_iso n = n ∷ []

abbrev logged : EntityKey → Text
logged key = lit "v"

abbrev now : ℕ
now = 100000000000

unfoldable cleaned : Option (CleanupResponse × Db)
unfolding cleanup_trash clean_rows clean_note bury prune_version_snapshots
    prune_version_snapshots_before retention_cutoff put_notes insert_rows record_entity_changes
    record_entity_change put_entity_tombstone save_note_snapshot note_row to_note text_eq get put
    upsert remove remove_if key_eq entity_key_eq chunks clear_entity_tombstones_by_ids
cleaned = cleanup_trash to_iso earlier now none logged trash

abbrev is_cleaned : Option (CleanupResponse × Db) → Bool
is_cleaned none = false
is_cleaned (some out) = true

abbrev response_of : Option (CleanupResponse × Db) → CleanupResponse
response_of none = record { deleted_notes = 0; deleted_notebooks = 0; cutoff = [] }
response_of (some (response, db)) = response

abbrev store_of : Option (CleanupResponse × Db) → Db
store_of none = empty_db
store_of (some (response, db)) = db

of_is_cleaned :
    (o : Option (CleanupResponse × Db)) → is_cleaned o ≡ true → o ≡ some (response_of o, store_of o)
of_is_cleaned none h = absurd (cc)
of_is_cleaned (some (response, db)) h = refl

cleaned-eq : cleanup_trash to_iso earlier now none logged trash ≡ cleaned
unfolding cleaned
cleaned-eq = refl

cleaned-is_cleaned : is_cleaned cleaned ≡ true
unfolding cleaned
cleaned-is_cleaned = refl

cleaned_count : (response_of cleaned).deleted_notes ≡ 1
unfolding cleaned
cleaned_count = refl

cleanup_trash-IsConsistent_example : IsConsistent (store_of cleaned)
cleanup_trash-IsConsistent_example =
    cleanup_trash-IsConsistent to_iso earlier now none logged trash (store_of cleaned)
      (response_of cleaned) trash-IsConsistent
      (cleaned-eq ∙ of_is_cleaned cleaned cleaned-is_cleaned)

-- One device that the note refers to and one that nothing refers to.
abbrev key_of : Text → Key
key_of id = record { owner = me; id = id }

abbrev device_named : Text → DeviceRow
device_named name = record { name = name; last_seen_at = lit "t" }

abbrev with_devices : Db
with_devices = record trash {
  devices =
      (key_of (lit "phone"), device_named (lit "Phone"))
      ∷ (key_of (lit "old"), device_named (lit "Old"))
      ∷ [];
}

with_devices-IsConsistent : IsConsistent with_devices
with_devices-IsConsistent =
    SameRecords-IsConsistent (SameRecords-of_eq trash with_devices refl refl refl refl refl)
      trash-IsConsistent

prune_unreferenced_devices_lem_example :
    IsConsistent (prune_unreferenced_devices logged with_devices).1
    × ((k : Key)
        → get (prune_unreferenced_devices logged with_devices).1.devices k ≡ (
            if text_eq k.id (lit "server-db-mirror")
              || device_is_referenced with_devices k.id k.owner
            then get with_devices.devices k
            else none))
prune_unreferenced_devices_lem_example =
    prune_unreferenced_devices_lem logged with_devices with_devices-IsConsistent

latest_entity_change-compact_entity_changes_example :
    latest_entity_change
      (compact_entity_changes (some me) trash).1
      (entity_key me note_kind (lit "n1"))
    ≡ latest_entity_change trash (entity_key me note_kind (lit "n1"))
latest_entity_change-compact_entity_changes_example =
    latest_entity_change-compact_entity_changes (some me) trash (entity_key me note_kind (lit "n1"))
      trash-IsConsistent.ordered

compact_entity_changes-IsConsistent_example :
    IsConsistent (compact_entity_changes (some me) trash).1
compact_entity_changes-IsConsistent_example =
    compact_entity_changes-IsConsistent (some me) trash trash-IsConsistent
