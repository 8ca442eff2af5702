-- ===== src/Repository/Maintenance.antt =====
-- `cleanupTrash`, `pruneVersionSnapshots`, `pruneUnreferencedDevices` and `compactEntityChanges`, each
-- in one write transaction. SQL's `<` on texts, `toISOString` and the time that is read for each
-- logged change are parameters; an owner that is absent or empty means every owner. `none` stands for
-- the error that `toISOString` throws on a cut-off before the earliest date.
pub mod Devices
pub mod Consistency
pub mod Compaction
use author.Common.{
  ℕ, ◌-◌, Bool, true, false, not, ◌&&◌, ◌||◌, Option, none, some, List, [], ◌∷◌, Text, lit, text_eq,
  text_Eq, truthy, truthy?, for_each, keep_if, any, length, map, is_some, if◌then◌else◌, ◌==◌,
}
use author.Common.Table.{Table, remove}
use author.Schema.{note_retention_days, version_snapshot_retention_days}
use author.ApiTypes.{EntityKind, note_kind, notebook_kind, device_kind}
use author.SyncSpec.{next_version_after}
use author.SyncSpec.Cursor.{retention_cutoff}
use author.Repository.Store.{
  Key, EntityKey, NoteRow, NotebookRow, DeviceRow, Snapshot, Change, Db, deleted, key_Eq,
  entity_key_eq,
}
use author.Repository.Refs.{to_note, to_notebook}
use author.Repository.Log.{entity_key, max_revision, record_entity_change, put_entity_tombstone}
use author.Repository.Queries.{row_key}
use author.Repository.Writes.{save_note_snapshot, save_notebook_snapshot}
use author.Repository.Deletes.{device_is_referenced}

-- `ownerUsername ? ' AND owner_username = ?' : ''`
abbrev pub owner_matches : Option Text → Text → Bool
owner_matches none o = true
owner_matches (some owner) o = if truthy owner then text_eq o owner else true

-- `asString(row.owner_username) || LEGACY_OWNER_USERNAME`
abbrev pub row_owner : Text → Text
row_owner o = if truthy o then o else lit "legacy-token"

-- `time IS NOT NULL AND time < ?`
abbrev is_before : (Text → Text → Bool) → Text → Option Text → Bool
is_before earlier cutoff none = false
is_before earlier cutoff (some time) = earlier time cutoff

pub record PruneResponse : Type 0 where
  pub deleted_note_snapshots : ℕ
  pub deleted_notebook_snapshots : ℕ
  pub cutoff : Text

pub record CleanupResponse : Type 0 where
  pub deleted_notes : ℕ
  pub deleted_notebooks : ℕ
  pub cutoff : Text

module _ (earlier : Text → Text → Bool) (owner : Option Text) where
  abbrev pub is_old_snapshot : {Row : Type 0} → Text → Snapshot Row → Bool
  is_old_snapshot cutoff s = earlier s.saved_at cutoff && owner_matches owner s.key.owner

  -- The transaction of `pruneVersionSnapshots`, after the cut-off.
  unfoldable pub prune_version_snapshots_before : Text → Db → PruneResponse × Db
  prune_version_snapshots_before cutoff db = (
    record {
      deleted_note_snapshots = length (keep_if (is_old_snapshot cutoff) db.note_versions);
      deleted_notebook_snapshots = length (keep_if (is_old_snapshot cutoff) db.notebook_versions);
      cutoff = cutoff;
    },
    record db {
      note_versions = keep_if (λ s. not (is_old_snapshot cutoff s)) db.note_versions;
      notebook_versions = keep_if (λ s. not (is_old_snapshot cutoff s)) db.notebook_versions;
    },
  )

  abbrev pub is_old_note : Text → Key × NoteRow → Bool
  is_old_note cutoff (k, row) =
      is_some row.trashed_at
      && (is_before earlier cutoff row.retention_started_at && owner_matches owner k.owner)

  abbrev pub is_old_notebook : Text → Key × NotebookRow → Bool
  is_old_notebook cutoff (k, row) =
      is_some row.deleted_at
      && (is_before earlier cutoff row.retention_started_at && owner_matches owner k.owner)

abbrev pub is_unreferenced : Db → Key × DeviceRow → Bool
is_unreferenced db (k, row) =
    not (text_eq k.id (lit "server-db-mirror")) && not (device_is_referenced db k.id k.owner)

module _ (logged : EntityKey → Text) where
  -- `putEntityTombstone` and `recordEntityChange` for a record that is deleted.
  unfoldable pub bury : Text → EntityKey → Text → ℕ → Db → Db
  bury time key device version db = record_entity_change key deleted (logged key) (
      put_entity_tombstone key
        (record { deleted_at = time; device_id = device; version = next_version_after version }) db)

  unfoldable pub clean_note : Text → Db → Key × NoteRow → Db
  clean_note time db (k, row) =
      let owner = row_owner k.owner in
      let saved = save_note_snapshot owner time (to_note k.id row) (lit "cleanup") db in
      bury time (entity_key owner note_kind k.id) row.device_id row.version
        (record saved { notes = remove saved.notes (row_key owner k.id) })

  unfoldable pub clean_notebook : Text → Db → Key × NotebookRow → Db
  clean_notebook time db (k, row) =
      let owner = row_owner k.owner in
      let saved = save_notebook_snapshot owner time (to_notebook k.id row) (lit "cleanup") db in
      bury time (entity_key owner notebook_kind k.id) row.device_id row.version
        (record saved { notebooks = remove saved.notebooks (row_key owner k.id) })

  unfoldable pub drop_unreferenced : Db → Key × DeviceRow → Db
  drop_unreferenced db (k, row) =
      record_entity_change (entity_key k.owner device_kind k.id) deleted
        (logged (entity_key k.owner device_kind k.id)) (record db { devices = remove db.devices k })

  unfoldable pub prune_unreferenced_devices : Db → ℕ × Db
  prune_unreferenced_devices db =
      let rows = keep_if (is_unreferenced db) db.devices in
      (length rows, for_each drop_unreferenced db rows)

module _ (to_iso : ℕ → Text) (earlier : Text → Text → Bool) (now : ℕ) (owner : Option Text) where
  abbrev pub prune_at : Option Text → Db → Option (PruneResponse × Db)
  prune_at none db = none
  prune_at (some cutoff) db = some (prune_version_snapshots_before earlier owner cutoff db)

  unfoldable pub prune_version_snapshots : Db → Option (PruneResponse × Db)
  prune_version_snapshots db =
      prune_at (retention_cutoff to_iso now version_snapshot_retention_days) db

  -- The loops of `cleanupTrash`.
  unfoldable pub clean_rows : (EntityKey → Text) → Text → Db → Db
  clean_rows logged cutoff db =
      for_each (clean_notebook logged (to_iso now))
        (for_each (clean_note logged (to_iso now)) db
          (keep_if (is_old_note earlier owner cutoff) db.notes))
        (keep_if (is_old_notebook earlier owner cutoff) db.notebooks)

  abbrev pub cleanup_at :
      (EntityKey → Text) → Db → Text → Option (PruneResponse × Db) → Option (CleanupResponse × Db)
  cleanup_at logged db cutoff none = none
  cleanup_at logged db cutoff (some (pruned, after)) = some (
    record {
      deleted_notes = length (keep_if (is_old_note earlier owner cutoff) db.notes);
      deleted_notebooks = length (keep_if (is_old_notebook earlier owner cutoff) db.notebooks);
      cutoff = cutoff;
    },
    after,
  )

  abbrev cleanup_from : (EntityKey → Text) → Db → Option Text → Option (CleanupResponse × Db)
  cleanup_from logged db none = none
  cleanup_from logged db (some cutoff) =
      cleanup_at logged db cutoff (prune_version_snapshots (clean_rows logged cutoff db))

  unfoldable pub cleanup_trash : (EntityKey → Text) → Db → Option (CleanupResponse × Db)
  cleanup_trash logged db = cleanup_from logged db (retention_cutoff to_iso now note_retention_days)

-- `revision NOT IN (SELECT max(revision) … GROUP BY owner_username, entity_type, entity_id)`: the
-- changes that are not kept.
abbrev pub owned_changes : Option Text → List Change → List Change
owned_changes owner changes = keep_if (λ c. owner_matches owner c.key.owner) changes

abbrev pub is_group_maximum : List Change → ℕ → Bool
is_group_maximum group revision =
    any (λ d. max_revision (keep_if (λ e. entity_key_eq e.key d.key) group) == revision) group

abbrev pub outlives_compaction : Option Text → List Change → Change → Bool
outlives_compaction owner changes c =
    is_group_maximum (owned_changes owner changes) c.revision
    || not (owner_matches owner c.key.owner)

-- The number is never negative: `Math.max(0, …)` on ℕ.
unfoldable pub compact_entity_changes : Option Text → Db → ℕ × Db
compact_entity_changes owner db =
    let kept = keep_if (outlives_compaction owner db.changes) db.changes in
    (
      length (owned_changes owner db.changes) - length (owned_changes owner kept),
      record db { changes = kept },
    )
