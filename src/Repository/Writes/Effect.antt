-- ===== src/Repository/Writes/Effect.antt =====
-- The whole effect of `putNotes` and of `putNotebooks` on the store.
use author.Common.{
  ◌≡◌, refl, ap, ◌∙◌, true, none, some, List, [], ◌∷◌, map, Text, if◌then◌else◌, truthy, text_Eq,
  subst, arith, sym, is_some, text_eq, ◌&&◌, ◌||◌, false,
}
use author.Common.Table.{get, keys, keys-map}
use author.Schema.{Note, Notebook, synced}
use author.ApiTypes.{EntityKind, note_kind, notebook_kind}
use author.Repository.Store.{EntityKey, Db, upserted, key_Eq, entity_key_Eq}
use author.Repository.Log.{
  latest_entity_operation, latest_entity_change, clear_entity_tombstones_by_ids, IsOrdered,
}
use author.Repository.Writes.{
  record_entity_changes, put_notes, put_notebooks, note_entry, notebook_entry, note_stamp,
  notebook_stamp, insert_rows, merge_note_row, merge_notebook_row, started,
}
use author.Repository.Writes.Batch.{
  names, latest_entity_operation-record_entity_changes, outside_log-record_entity_changes,
  record_entity_changes-IsOrdered, get-clear_entity_tombstones_by_ids,
}
use author.Common.Dedup.{contains}
use author.Repository.Writes.Rows.{insert_rows_lem, is_some-insert_rows, get-insert_rows_absent}
use author.Repository.Refs.{note_row, notebook_row}
use author.Repository.Queries.{row_key}

-- The effect on the log and on the tombstones of writing records of one owner and kind.
pub record Logged (owner : Text) (kind : EntityKind) (ids : List Text) (before after : Db)
    : Type 0 where
  pub latest :
      (key : EntityKey)
      → latest_entity_operation after key
        ≡ (if names owner kind ids key then some upserted else latest_entity_operation before key)
  pub tombstones :
      (key : EntityKey)
      → truthy key.id ≡ true
      → get after.tombstones key
        ≡ (if names owner kind ids key then none else get before.tombstones key)
  pub ordered :
      IsOrdered before.next_revision before.changes → IsOrdered after.next_revision after.changes

abbrev pub note_ids : List Note → List Text
note_ids notes = map (λ n. n.id) notes

abbrev pub notebook_ids : List Notebook → List Text
notebook_ids notebooks = map (λ b. b.id) notebooks

pub latest_entity_operation_of_eq :
    (a b : Db) (key : EntityKey)
    → a.changes ≡ b.changes
    → latest_entity_operation a key ≡ latest_entity_operation b key
unfolding latest_entity_operation latest_entity_change
latest_entity_operation_of_eq a b key e = rw e refl

-- Clearing the tombstones and then logging the upserts, on a store `db` that has the log and the
-- tombstones of `before`.
module _ (owner : Text) (kind : EntityKind) (ids : List Text) (stamps : List (Text × Text)) where
  abbrev finish : Db → Db
  finish db =
      record_entity_changes owner kind stamps (clear_entity_tombstones_by_ids owner kind ids db)

  finish-Logged :
      (before db : Db)
      → keys stamps ≡ ids
      → db.tombstones ≡ before.tombstones
      → db.changes ≡ before.changes
      → db.next_revision ≡ before.next_revision
      → Logged owner kind ids before (finish db)
  unfolding clear_entity_tombstones_by_ids
  finish-Logged before db same t c n =
      let cleared = clear_entity_tombstones_by_ids owner kind ids db in
      record {
        latest = λ key.
            latest_entity_operation-record_entity_changes owner kind stamps cleared key
            ∙ rw (same, latest_entity_operation_of_eq cleared before key c);
        tombstones = λ key h.
            ap (λ d. get d.tombstones key)
              (outside_log-record_entity_changes owner kind stamps cleared)
            ∙ get-clear_entity_tombstones_by_ids owner kind ids db key h
            ∙ rw t refl;
        ordered = λ h. record_entity_changes-IsOrdered owner kind stamps cleared (rw (c, n) h);
      }

  notes-finish : (db : Db) → (finish db).notes ≡ db.notes
  unfolding clear_entity_tombstones_by_ids
  notes-finish db =
      ap (λ d. d.notes)
        (outside_log-record_entity_changes owner kind stamps
          (clear_entity_tombstones_by_ids owner kind ids db))

  notebooks-finish : (db : Db) → (finish db).notebooks ≡ db.notebooks
  unfolding clear_entity_tombstones_by_ids
  notebooks-finish db =
      ap (λ d. d.notebooks)
        (outside_log-record_entity_changes owner kind stamps
          (clear_entity_tombstones_by_ids owner kind ids db))

abbrev as_synced : Note → Note
as_synced n = record n { sync_status = synced }

abbrev as_synced_notebook : Notebook → Notebook
as_synced_notebook b = record b { sync_status = synced }

map-map_ids : (notes : List Note) → map (λ (n : Note). n.id) (map as_synced notes) ≡ note_ids notes
map-map_ids [] = refl
map-map_ids (n ∷ ns) = ap {B = List Text} (λ r. n.id ∷ r) (map-map_ids ns)

map-map_notebook_ids :
    (notebooks : List Notebook)
    → map (λ (b : Notebook). b.id) (map as_synced_notebook notebooks) ≡ notebook_ids notebooks
map-map_notebook_ids [] = refl
map-map_notebook_ids (b ∷ bs) = ap {B = List Text} (λ r. b.id ∷ r) (map-map_notebook_ids bs)

Logged-refl : (owner : Text) (kind : EntityKind) (db : Db) → Logged owner kind [] db db
unfolding contains
Logged-refl owner kind db = record {
  latest = λ key. ground arith;
  tombstones = λ key h. ground arith;
  ordered = λ h. h;
}

pub put_notes-Logged :
    (owner time : Text) (notes : List Note) (db : Db)
    → Logged owner note_kind (note_ids notes) db (put_notes owner time notes db).1
unfolding put_notes
put_notes-Logged owner time [] db = Logged-refl owner note_kind db
put_notes-Logged owner time (n ∷ ns) db =
    subst (λ l. Logged owner note_kind l db (put_notes owner time (n ∷ ns) db).1)
      (map-map_ids (n ∷ ns))
      (finish-Logged owner note_kind (map (λ (m : Note). m.id) (map as_synced (n ∷ ns)))
        (map note_stamp (map as_synced (n ∷ ns))) db _
        (keys-map (λ (m : Note). m.id) (λ m. m.updated_at) (map as_synced (n ∷ ns))) refl refl refl)

pub put_notebooks-Logged :
    (owner time : Text) (notebooks : List Notebook) (db : Db)
    → Logged owner notebook_kind
        (notebook_ids notebooks)
        db
        (put_notebooks owner time notebooks db).1
unfolding put_notebooks
put_notebooks-Logged owner time [] db = Logged-refl owner notebook_kind db
put_notebooks-Logged owner time (b ∷ bs) db =
    subst (λ l. Logged owner notebook_kind l db (put_notebooks owner time (b ∷ bs) db).1)
      (map-map_notebook_ids (b ∷ bs))
      (finish-Logged owner notebook_kind
        (map (λ (c : Notebook). c.id) (map as_synced_notebook (b ∷ bs)))
        (map notebook_stamp (map as_synced_notebook (b ∷ bs))) db _
        (keys-map (λ (c : Notebook). c.id) (λ c. c.updated_at) (map as_synced_notebook (b ∷ bs)))
        refl refl refl)

-- The table that `putNotes` leaves.
pub notes-put_notes :
    (owner time : Text) (notes : List Note) (db : Db)
    → (put_notes owner time notes db).1.notes
      ≡ insert_rows merge_note_row owner (map (note_entry time) (map as_synced notes)) db.notes
unfolding put_notes
notes-put_notes owner time [] db = sym (insert_rows_lem merge_note_row owner [] db.notes)
notes-put_notes owner time (n ∷ ns) db = notes-finish owner note_kind _ _ _

pub notebooks-put_notes :
    (owner time : Text) (notes : List Note) (db : Db)
    → (put_notes owner time notes db).1.notebooks ≡ db.notebooks
unfolding put_notes
notebooks-put_notes owner time [] db = refl
notebooks-put_notes owner time (n ∷ ns) db = notebooks-finish owner note_kind _ _ _

pub notebooks-put_notebooks :
    (owner time : Text) (notebooks : List Notebook) (db : Db)
    → (put_notebooks owner time notebooks db).1.notebooks
      ≡ insert_rows merge_notebook_row owner
          (map (notebook_entry time) (map as_synced_notebook notebooks))
          db.notebooks
unfolding put_notebooks
notebooks-put_notebooks owner time [] db =
    sym (insert_rows_lem merge_notebook_row owner [] db.notebooks)
notebooks-put_notebooks owner time (n ∷ ns) db = notebooks-finish owner notebook_kind _ _ _

pub notes-put_notebooks :
    (owner time : Text) (notebooks : List Notebook) (db : Db)
    → (put_notebooks owner time notebooks db).1.notes ≡ db.notes
unfolding put_notebooks
notes-put_notebooks owner time [] db = refl
notes-put_notebooks owner time (n ∷ ns) db = notes-finish owner notebook_kind _ _ _

-- A note is stored afterwards if it was stored before or is among the notes that are written.
pub is_some-put_notes :
    (owner time : Text) (notes : List Note) (db : Db) (o id : Text)
    → is_some (get (put_notes owner time notes db).1.notes (row_key o id))
      ≡ (text_eq owner o && contains (note_ids notes) id) || is_some (get db.notes (row_key o id))
is_some-put_notes owner time notes db o id = rw (notes-put_notes owner time notes db) (
    is_some-insert_rows merge_note_row owner (map (note_entry time) (map as_synced notes)) db.notes
      o id
    ∙ ap (λ l. (text_eq owner o && contains l id) || is_some (get db.notes (row_key o id)))
        (keys-map (λ (n : Note). n.id) (λ n. note_row (started n.trashed_at time) n)
            (map as_synced notes)
          ∙ map-map_ids notes))

pub is_some-put_notebooks :
    (owner time : Text) (notebooks : List Notebook) (db : Db) (o id : Text)
    → is_some (get (put_notebooks owner time notebooks db).1.notebooks (row_key o id))
      ≡ (text_eq owner o && contains (notebook_ids notebooks) id)
        || is_some (get db.notebooks (row_key o id))
is_some-put_notebooks owner time notebooks db o id =
    rw (notebooks-put_notebooks owner time notebooks db) (
      is_some-insert_rows merge_notebook_row owner
        (map (notebook_entry time) (map as_synced_notebook notebooks)) db.notebooks o id
      ∙ ap (λ l. (text_eq owner o && contains l id) || is_some (get db.notebooks (row_key o id)))
          (keys-map (λ (b : Notebook). b.id) (λ b. notebook_row (started b.deleted_at time) b)
              (map as_synced_notebook notebooks)
            ∙ map-map_notebook_ids notebooks))

-- Rows that are not written stay as they were.
pub get-put_notes_absent :
    (owner time : Text) (notes : List Note) (db : Db) (o id : Text)
    → text_eq owner o && contains (note_ids notes) id ≡ false
    → get (put_notes owner time notes db).1.notes (row_key o id) ≡ get db.notes (row_key o id)
get-put_notes_absent owner time notes db o id h = rw (notes-put_notes owner time notes db) (
    get-insert_rows_absent merge_note_row owner (map (note_entry time) (map as_synced notes))
      db.notes o id
      (rw
        (
          keys-map (λ (n : Note). n.id) (λ n. note_row (started n.trashed_at time) n)
              (map as_synced notes),
          map-map_ids notes,
        )
        h))

pub get-put_notebooks_absent :
    (owner time : Text) (notebooks : List Notebook) (db : Db) (o id : Text)
    → text_eq owner o && contains (notebook_ids notebooks) id ≡ false
    → get (put_notebooks owner time notebooks db).1.notebooks (row_key o id)
      ≡ get db.notebooks (row_key o id)
get-put_notebooks_absent owner time notebooks db o id h =
    rw (notebooks-put_notebooks owner time notebooks db) (
      get-insert_rows_absent merge_notebook_row owner
        (map (notebook_entry time) (map as_synced_notebook notebooks)) db.notebooks o id
        (rw
          (
            keys-map (λ (b : Notebook). b.id) (λ b. notebook_row (started b.deleted_at time) b)
                (map as_synced_notebook notebooks),
            map-map_notebook_ids notebooks,
          )
          h))
