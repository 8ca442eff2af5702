-- ===== src/Repository/Refs.antt =====
-- The notebook ids of a note, and the conversions between records and rows.
use author.Common.{
  Bool, true, false, not, ◌||◌, Option, none, some, List, [], ◌∷◌, map, Text, text_Eq, truthy, trim,
  keep_if, head?, length, text_eq, text_eq?, ◌==◌, if◌then◌else◌,
}
use author.Common.Dedup.{dedup}
use author.Schema.{Note, Notebook, Device, synced}
use author.Repository.Store.{NoteRow, NotebookRow, DeviceRow}

unfoldable pub normalized_notebook_id : Option Text → Option Text
normalized_notebook_id none = none
normalized_notebook_id (some id) =
    let trimmed = trim id in if truthy trimmed then some trimmed else none

unfoldable pub normalized_notebook_ids : List Text → List Text
normalized_notebook_ids ids = dedup (keep_if truthy (map trim ids))

abbrev single : Option Text → List Text
single none = []
single (some id) = id ∷ []

abbrev pub given_ids : List Text → Option Text → List Text
given_ids (id ∷ ids) _ = id ∷ ids
given_ids [] none = []
given_ids [] (some id) = if truthy id then id ∷ [] else []

unfoldable pub note_notebook_ids : Note → List Text
note_notebook_ids n = normalized_notebook_ids (given_ids n.notebook_ids n.notebook_id)

abbrev column_ids : Option (List Text) → List Text
column_ids none = []
column_ids (some ids) = normalized_notebook_ids ids

abbrev or_legacy : List Text → Option Text → List Text
or_legacy [] legacy = single (normalized_notebook_id legacy)
or_legacy (id ∷ ids) legacy = id ∷ ids

-- An empty list is an array too, but one without ids falls through to the legacy column.
unfoldable pub note_notebook_ids_from_row : NoteRow → List Text
note_notebook_ids_from_row row = or_legacy (column_ids row.notebook_ids) row.notebook_id

abbrev or_option : Option Text → Option Text → Option Text
or_option none o = o
or_option (some s) o = some s

unfoldable pub to_note : Text → NoteRow → Note
to_note id row =
    let ids = note_notebook_ids_from_row row in
    record {
      id = id;
      title = row.title;
      body = row.body;
      title_hash = row.title_hash;
      body_hash = row.body_hash;
      notebook_ids = ids;
      notebook_id = or_option (head? ids) (normalized_notebook_id row.notebook_id);
      created_at = row.created_at;
      updated_at = row.updated_at;
      deleted_at = row.deleted_at;
      trashed_at = row.trashed_at;
      is_favorite = row.is_favorite;
      device_id = row.device_id;
      version = row.version;
      sync_status = synced;
    }

unfoldable pub to_notebook : Text → NotebookRow → Notebook
to_notebook id row = record {
  id = id;
  name = row.name;
  name_hash = row.name_hash;
  created_at = row.created_at;
  updated_at = row.updated_at;
  deleted_at = row.deleted_at;
  device_id = row.device_id;
  version = row.version;
  sync_status = synced;
}

abbrev pub to_device : Text → DeviceRow → Device
to_device id row = record { id = id; name = row.name }

-- The values of an INSERT; `retention` is the time at which a trashed note's retention starts.
unfoldable pub note_row : Option Text → Note → NoteRow
note_row retention n =
    let ids = note_notebook_ids n in
    record {
      title = n.title;
      body = n.body;
      title_hash = n.title_hash;
      body_hash = n.body_hash;
      notebook_ids = some ids;
      notebook_id = head? ids;
      created_at = n.created_at;
      updated_at = n.updated_at;
      deleted_at = n.deleted_at;
      trashed_at = n.trashed_at;
      retention_started_at = retention;
      is_favorite = n.is_favorite;
      device_id = n.device_id;
      version = n.version;
    }

unfoldable pub notebook_row : Option Text → Notebook → NotebookRow
notebook_row retention b = record {
  name = b.name;
  name_hash = b.name_hash;
  created_at = b.created_at;
  updated_at = b.updated_at;
  deleted_at = b.deleted_at;
  retention_started_at = retention;
  device_id = b.device_id;
  version = b.version;
}

-- `originalIds.some((id, index) => id !== normalized[index])`, at equal lengths
abbrev some_differ : List Text → List Text → Bool
some_differ [] _ = false
some_differ (id ∷ ids) [] = true
some_differ (id ∷ ids) (j ∷ js) = not (text_eq id j) || some_differ ids js

unfoldable pub note_notebook_refs_changed : Note → Note → Bool
note_notebook_refs_changed original normalized =
    not (text_eq? original.notebook_id normalized.notebook_id)
    || not (length original.notebook_ids == length normalized.notebook_ids)
    || some_differ original.notebook_ids normalized.notebook_ids
