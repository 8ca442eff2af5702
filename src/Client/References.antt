-- ===== src/Client/References.antt =====
-- The references of local notes to notebooks (sync-store.ts): `noteNotebookIds`, `safePendingVersion`,
-- `removeLocalNoteNotebookReferences`, `remapLocalNoteNotebookReferences` and
-- `removeDeletedNotebookReferences`.
use author.Common.{
  ℕ, Bool, true, not, ◌||◌, none, List, [], ◌∷◌, Text, text_eq, text_Eq, truthy, truthy?, map, join,
  keep_if, for_each, head?, ltb, if◌then◌else◌, natural, safe_natural, or_else,
}
use author.Common.Dedup.{dedup, contains}
use author.Common.Table.{Table, put}
use author.Schema.{Note, pending, conflict, deleted}
use author.SyncSpec.{next_version_after, normalized_notebook_ids, raw_notebook_ids}
use author.Client.Store.{LocalRow, Fields, note_fields}

unfoldable pub safe_base_version : {T : Type 0} → LocalRow T → ℕ
safe_base_version row = or_else (safe_natural (natural row.last_synced_version)) 0

-- The version that the next push gives the record: its own if that is past the synchronised one.
unfoldable pub safe_pending_version : {T : Type 0} → Fields T → LocalRow T → ℕ
safe_pending_version F row =
    let version = or_else (safe_natural (natural (F.version row.entity))) 0 in
    if ltb (safe_base_version row) version
    then version
    else next_version_after (safe_base_version row)

unfoldable pub local_notebook_ids : Note → List Text
local_notebook_ids n = normalized_notebook_ids (raw_notebook_ids n.notebook_ids n.notebook_id)

-- A note in conflict, or deleted, keeps its references.
abbrev pub keeps_references : LocalRow Note → Bool
keeps_references row = elim (row.entity.sync_status) [
  | conflict ↦ true
  | deleted ↦ true
  | _ ↦ truthy? row.entity.deleted_at
]

abbrev pub same_ids : List Text → List Text → Bool
same_ids next ids = text_eq (join (0 ∷ []) next) (join (0 ∷ []) ids)

abbrev pub rereferenced : Text → Text → List Text → LocalRow Note → LocalRow Note
rereferenced device_id updated_at next row = record row {
  entity = record (row.entity) {
    notebook_ids = next;
    notebook_id = head? next;
    updated_at = updated_at;
    device_id = device_id;
    version = safe_pending_version note_fields row;
    sync_status = pending;
  };
  last_synced_at = none;
}

-- The notes that change, each with its new form: `next` gives the references from the old ones.
unfoldable pub reference_updates :
    (List Text → List Text) → Text → Text → Text → Table Text (LocalRow Note) → List (LocalRow Note)
reference_updates next id device_id updated_at [] = []
reference_updates next id device_id updated_at ((key, row) ∷ rows) =
    let rest = reference_updates next id device_id updated_at rows in
    let ids = local_notebook_ids row.entity in
    if keeps_references row || (not (contains ids id) || same_ids (next ids) ids)
    then rest
    else rereferenced device_id updated_at (next ids) row ∷ rest

-- `bulkPut`
unfoldable pub save_notes :
    Table Text (LocalRow Note) → List (LocalRow Note) → Table Text (LocalRow Note)
save_notes rows updates = for_each (λ t (row : LocalRow Note). put t row.entity.id row) rows updates

abbrev pub without_notebook : Text → List Text → List Text
without_notebook id ids = normalized_notebook_ids (keep_if (λ i. not (text_eq i id)) ids)

-- What the rest of the program does to the notes between the read and the write of one of the functions
-- below.
abbrev pub Interference : Type 0
Interference = Table Text (LocalRow Note) → Table Text (LocalRow Note)

unfoldable pub remove_local_references :
    Interference → Text → Text → Text → Table Text (LocalRow Note) → Table Text (LocalRow Note)
remove_local_references interfere id device_id updated_at rows =
    save_notes (interfere rows)
      (reference_updates (without_notebook id) id device_id updated_at rows)

-- `remappedNotebookIds`
abbrev pub remapped_notebook_ids : Text → Text → List Text → List Text
remapped_notebook_ids from to ids =
    normalized_notebook_ids (map (λ i. if text_eq i from then to else i) ids)

unfoldable pub remap_local_references :
    Interference
    → Text
    → Text
    → Text
    → Text
    → Table Text (LocalRow Note)
    → Table Text (LocalRow Note)
remap_local_references interfere from to device_id updated_at rows =
    save_notes (interfere rows)
      (reference_updates (remapped_notebook_ids from to) from device_id updated_at rows)

unfoldable pub remove_deleted_references :
    Interference → List Text → Text → Text → Table Text (LocalRow Note) → Table Text (LocalRow Note)
remove_deleted_references interfere ids device_id updated_at rows =
    for_each (λ t id. remove_local_references interfere id device_id updated_at t) rows
      (keep_if truthy (dedup ids))
