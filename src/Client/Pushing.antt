-- ===== src/Client/Pushing.antt =====
-- The first half of `runSyncUnlocked` in sync.ts, up to the requests of the push: what is pending, what of it
-- never reached the server, and what is repaired before it is pushed.
pub mod Chosen
pub mod Pending
use author.Common.{
  ℕ, zero, suc, ◌+◌, Bool, true, false, not, ◌&&◌, ◌||◌, Option, none, some, List, [], ◌∷◌, ◌++◌,
  Text, text_eq, text_eq?, text_Eq, truthy, truthy?, trim, join, map, keep_if, for_each, head?,
  length, if◌then◌else◌, ◌==◌,
}
use author.Common.Dedup.{contains}
use author.Common.Table.{Table, get, put, remove}
use author.Schema.{Note, Notebook, Device, SyncStatus, pending}
use author.ApiTypes.{EntityChange, PushRequest}
use author.SyncSpec.{normalized_notebook_ids, normalized_notebook_id}
use author.Client.Store.{LocalRow, LocalDb, Fields, note_fields, notebook_fields, is_pending}
use author.Client.References.{safe_base_version, safe_pending_version}
use author.Client.Batches.{Batch, push_batches}

abbrev pub status_code : SyncStatus → ℕ
status_code SyncStatus.synced = 0
status_code SyncStatus.pending = 1
status_code SyncStatus.conflict = 2
status_code SyncStatus.deleted = 3

module _ {T : Type 0} (F : Fields T) where
  -- `where('syncStatus').equals('pending')`
  unfoldable pub pending_rows : Table Text (LocalRow T) → List (LocalRow T)
  pending_rows [] = []
  pending_rows ((key, row) ∷ rows) =
      let rest = pending_rows rows in if is_pending (F.status row.entity) then row ∷ rest else rest

  unfoldable pub is_local_only_deleted : LocalRow T → Bool
  is_local_only_deleted row = (safe_base_version row == 0) && truthy? (F.deleted_at row.entity)

  unfoldable pub local_only_deleted_ids : List (LocalRow T) → List Text
  local_only_deleted_ids rows =
      map (λ (row : LocalRow T). F.id row.entity) (keep_if is_local_only_deleted rows)

  -- `bulkDelete`
  abbrev delete_all : Table Text (LocalRow T) → List Text → Table Text (LocalRow T)
  delete_all rows ids = for_each remove rows ids

  unfoldable pub syncable_rows : List (LocalRow T) → List (LocalRow T)
  syncable_rows rows =
      keep_if (λ (row : LocalRow T). not (contains (local_only_deleted_ids rows) (F.id row.entity)))
        rows

  abbrev prepared : Device → LocalRow T → T → LocalRow T
  prepared device row t = record row {
    entity =
        F.with_status (F.with_version (F.with_device t device.id) (safe_pending_version F row))
          pending;
    last_synced_version = safe_base_version row;
  }

  abbrev fields_differ : LocalRow T → LocalRow T → Bool
  fields_differ before after =
      not (text_eq (F.device_id before.entity) (F.device_id after.entity))
      || not (F.version before.entity == F.version after.entity)
      || not (status_code (F.status before.entity) == status_code (F.status after.entity))
      || not (before.last_synced_version == after.last_synced_version)
      || not (text_eq? before.last_synced_at after.last_synced_at)
      || not (text_eq? (F.deleted_at before.entity) (F.deleted_at after.entity))

  -- `bulkPut` of the records that the preparation changed.
  unfoldable pub save_repaired :
      (LocalRow T → LocalRow T)
      → (LocalRow T → LocalRow T → Bool)
      → List (LocalRow T)
      → Table Text (LocalRow T)
      → Table Text (LocalRow T)
  save_repaired prepare needs_repair [] rows = rows
  save_repaired prepare needs_repair (row ∷ pending_ones) rows =
      let rows' =
        if needs_repair row (prepare row) then put rows (F.id row.entity) (prepare row) else rows in
      save_repaired prepare needs_repair pending_ones rows'

  abbrev pub as_change : LocalRow T → EntityChange T
  as_change row = record { entity = row.entity; base_version = row.last_synced_version }

-- `normalizedNotebookIds` of sync.ts: the ids, or else the single one.
unfoldable pub record_notebook_ids : Note → List Text
record_notebook_ids n = elim (normalized_notebook_ids n.notebook_ids) [
  | id ∷ ids ↦ id ∷ ids
  | [] ↦ elim (normalized_notebook_id n.notebook_id) [ none ↦ [] | some id ↦ id ∷ [] ]
]

unfoldable pub prepare_pending_note : Device → LocalRow Note → LocalRow Note
prepare_pending_note device row =
    let ids = record_notebook_ids row.entity in
    prepared note_fields device row
      (record (row.entity) { notebook_ids = ids; notebook_id = head? ids })

unfoldable pub prepare_pending_notebook : Device → LocalRow Notebook → LocalRow Notebook
prepare_pending_notebook device row = prepared notebook_fields device row row.entity

unfoldable pub note_needs_repair : LocalRow Note → LocalRow Note → Bool
note_needs_repair before after =
    fields_differ note_fields before after
    || not (text_eq? before.entity.trashed_at after.entity.trashed_at)
    || not (text_eq? before.entity.notebook_id after.entity.notebook_id)
    || not (
        text_eq (join (0 ∷ []) before.entity.notebook_ids)
          (join (0 ∷ []) after.entity.notebook_ids))

unfoldable pub notebook_needs_repair : LocalRow Notebook → LocalRow Notebook → Bool
notebook_needs_repair before after = fields_differ notebook_fields before after

-- The store after the preparation, and the requests, in order. `interfere` is what the rest of the program
-- does between the reads and `bulkDelete`, `interfere_repairing` what it does before `bulkPut`.
unfoldable pub prepare_push :
    Device
    → (LocalDb → LocalDb)
    → (LocalDb → LocalDb)
    → LocalDb
    → LocalDb × Option (List PushRequest)
prepare_push device interfere interfere_repairing db =
    let notes = pending_rows note_fields db.notes in
    let notebooks = pending_rows notebook_fields db.notebooks in
    let syncable_notes = syncable_rows note_fields notes in
    let syncable_notebooks = syncable_rows notebook_fields notebooks in
    let note_changes =
      map (λ row. as_change note_fields (prepare_pending_note device row)) syncable_notes in
    let notebook_changes =
      map (λ row. as_change notebook_fields (prepare_pending_notebook device row))
        syncable_notebooks in
    let read = interfere db in
    let deleted = interfere_repairing (record read {
      notes = delete_all note_fields read.notes (local_only_deleted_ids note_fields notes);
      notebooks =
          delete_all notebook_fields read.notebooks
            (local_only_deleted_ids notebook_fields notebooks);
    }) in
    (
      record deleted {
        notes =
            save_repaired note_fields (prepare_pending_note device) note_needs_repair syncable_notes
              deleted.notes;
        notebooks =
            save_repaired notebook_fields (prepare_pending_notebook device) notebook_needs_repair
              syncable_notebooks deleted.notebooks;
      },
      elim (push_batches note_changes notebook_changes
          (suc (length note_changes + length notebook_changes)) 0 0) [
            | none ↦ none
            | some batches ↦ some (
                map
                  (λ (batch : Batch (EntityChange Note) (EntityChange Notebook)). record {
                    device = device;
                    notes = batch.notes;
                    notebooks = batch.notebooks;
                  })
                  batches)
          ],
    )
