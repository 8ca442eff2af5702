-- ===== src/Repository/Writes.antt =====
-- `putNotes`, `putNotebooks`, and the version snapshots that they leave.
pub mod Rows
pub mod Batch
pub mod Effect
use author.Common.{
  ℕ, Bool, Option, none, some, List, [], ◌∷◌, ◌++◌, map, Text, lit, truthy?, for_each,
}
use author.Common.Table.{Table, upsert}
use author.Schema.{Note, Notebook, synced}
use author.ApiTypes.{EntityKind, note_kind, notebook_kind}
use author.Repository.Store.{Key, NoteRow, NotebookRow, Snapshot, Db, key_Eq, Operation, upserted}
use author.Repository.Refs.{note_row, notebook_row}
use author.Repository.Chunks.{chunks}
use author.Repository.Log.{record_entity_change, clear_entity_tombstones_by_ids, entity_key}
use author.Repository.Queries.{row_key}

-- The CASE of the upserts: a retention that runs goes on while the record stays in the trash.
abbrev pub kept_retention : Option Text → Option Text → Option Text → Option Text → Option Text
kept_retention none new_start old_trashed old_start = none
kept_retention (some _) new_start none old_start = new_start
kept_retention (some _) new_start (some _) none = new_start
kept_retention (some _) new_start (some _) (some start) = some start

abbrev pub merge_note_row : NoteRow → NoteRow → NoteRow
merge_note_row old new = record new {
  retention_started_at =
      kept_retention new.trashed_at new.retention_started_at old.trashed_at
        old.retention_started_at;
}

abbrev pub merge_notebook_row : NotebookRow → NotebookRow → NotebookRow
merge_notebook_row old new = record new {
  retention_started_at =
      kept_retention new.deleted_at new.retention_started_at old.deleted_at
        old.retention_started_at;
}

-- `note.trashedAt ? retentionTime : null`
abbrev pub started : Option Text → Text → Option Text
started none time = none
started (some []) time = none
started (some (_ ∷ _)) time = some time

-- `INSERT INTO … ON CONFLICT(owner_username, id) DO UPDATE`, a hundred rows a statement.
unfoldable pub insert_rows :
    {Row : Type 0} → (Row → Row → Row) → Text → List (Text × Row) → Table Key Row → Table Key Row
insert_rows merge owner rows table =
    for_each (for_each (λ t r. upsert merge t (row_key owner r.0) r.1)) table (chunks rows 100)

abbrev pub log_upsert : Text → EntityKind → Db → Text × Text → Db
log_upsert owner kind db (id, updated_at) =
    record_entity_change (entity_key owner kind id) upserted updated_at db

-- `recordEntityChanges`, as both callers use it: an upsert of each record.
unfoldable pub record_entity_changes : Text → EntityKind → List (Text × Text) → Db → Db
record_entity_changes owner kind changes db =
    for_each (for_each (log_upsert owner kind)) db (chunks changes 200)

abbrev pub note_stamp : Note → Text × Text
note_stamp n = (n.id, n.updated_at)

abbrev pub notebook_stamp : Notebook → Text × Text
notebook_stamp b = (b.id, b.updated_at)

abbrev pub note_entry : Text → Note → Text × NoteRow
note_entry time n = (n.id, note_row (started n.trashed_at time) n)

abbrev pub notebook_entry : Text → Notebook → Text × NotebookRow
notebook_entry time b = (b.id, notebook_row (started b.deleted_at time) b)

unfoldable pub put_notes : Text → Text → List Note → Db → List Note × Db
put_notes owner time [] db = ([], db)
put_notes owner time (n ∷ ns) db =
    let synced_notes = map (λ (m : Note). record m { sync_status = synced }) (n ∷ ns) in
    let db' : Db = record db {
      notes = insert_rows merge_note_row owner (map (note_entry time) synced_notes) db.notes;
    } in
    let ids = map (λ (m : Note). m.id) synced_notes in
    (
      synced_notes,
      record_entity_changes owner note_kind (map note_stamp synced_notes)
          (clear_entity_tombstones_by_ids owner note_kind ids db'),
    )

unfoldable pub put_notebooks : Text → Text → List Notebook → Db → List Notebook × Db
put_notebooks owner time [] db = ([], db)
put_notebooks owner time (b ∷ bs) db =
    let synced_notebooks = map (λ (c : Notebook). record c { sync_status = synced }) (b ∷ bs) in
    let db' : Db = record db {
      notebooks =
          insert_rows merge_notebook_row owner (map (notebook_entry time) synced_notebooks)
            db.notebooks;
    } in
    let ids = map (λ (c : Notebook). c.id) synced_notebooks in
    (
      synced_notebooks,
      record_entity_changes owner notebook_kind (map notebook_stamp synced_notebooks)
          (clear_entity_tombstones_by_ids owner notebook_kind ids db'),
    )

-- A snapshot row has the columns of the record, but no retention.
abbrev pub note_snapshot : Text → Text → Note × Text → Snapshot NoteRow
note_snapshot owner saved_at (n, reason) = record {
  key = row_key owner n.id;
  row = note_row none n;
  saved_at = saved_at;
  reason = reason;
}

abbrev pub notebook_snapshot : Text → Text → Notebook × Text → Snapshot NotebookRow
notebook_snapshot owner saved_at (b, reason) = record {
  key = row_key owner b.id;
  row = notebook_row none b;
  saved_at = saved_at;
  reason = reason;
}

unfoldable pub save_note_snapshots : Text → Text → List (Note × Text) → Db → Db
save_note_snapshots owner saved_at snapshots db = record db {
  note_versions =
      for_each (λ rows chunk. rows ++ map (note_snapshot owner saved_at) chunk) db.note_versions
        (chunks snapshots 100);
}

unfoldable pub save_notebook_snapshots : Text → Text → List (Notebook × Text) → Db → Db
save_notebook_snapshots owner saved_at snapshots db = record db {
  notebook_versions =
      for_each (λ rows chunk. rows ++ map (notebook_snapshot owner saved_at) chunk)
        db.notebook_versions (chunks snapshots 100);
}

-- `saveNoteSnapshot` and `saveNotebookSnapshot`: a single row
unfoldable pub save_note_snapshot : Text → Text → Note → Text → Db → Db
save_note_snapshot owner saved_at n reason db = record db {
  note_versions = db.note_versions ++ note_snapshot owner saved_at (n, reason) ∷ [];
}

unfoldable pub save_notebook_snapshot : Text → Text → Notebook → Text → Db → Db
save_notebook_snapshot owner saved_at b reason db = record db {
  notebook_versions = db.notebook_versions ++ notebook_snapshot owner saved_at (b, reason) ∷ [];
}
