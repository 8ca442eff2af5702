-- ===== src/Repository/Consistency/Delete.antt =====
-- The consistency of the store and `deleteNotesByIds` and `deleteNotebooksByIds`.
use author.Common.{refl, List, Text, text_Eq, arith}
use author.Common.Table.{get}
use author.ApiTypes.{note_kind, notebook_kind}
use author.Repository.Store.{Db, key_Eq, entity_key_Eq, EntityKey}
use author.Repository.Log.{entity_key, unique_entity_ids}
use author.Repository.Queries.{get_notes_by_ids, get_notebooks_by_ids}
use author.Repository.Writes.Effect.{latest_entity_operation_of_eq}
use author.Repository.Deletes.{
  Clock, delete_notes_by_ids, delete_notebooks_by_ids, delete_rows, note_author, notebook_author,
}
use author.Repository.Deletes.Effect.{for_each-bury_by_id-Buried, get-delete_rows}
use author.Repository.Consistency.{IsConsistent}

-- `deleteNotesByIds`, for any list of ids, keeps a consistent store consistent.
pub delete_notes_by_ids-IsConsistent :
    (clock : Clock) (ids : List Text) (owner : Text) (db : Db)
    → IsConsistent db
    → IsConsistent (delete_notes_by_ids clock ids owner db)
unfolding delete_notes_by_ids
delete_notes_by_ids-IsConsistent clock ids owner db c =
    let unique = unique_entity_ids ids in
    let db' : Db = record db { notes = delete_rows owner unique db.notes } in
    let b =
      for_each-bury_by_id-Buried clock owner note_kind
        (λ id. note_author (get (get_notes_by_ids db unique owner) id)) unique db' in
    let log = λ (key : EntityKey). latest_entity_operation_of_eq db' db key refl in
    record {
      ordered = b.ordered c.ordered;
      note_logged = λ o id t.
          let key = entity_key o note_kind id in
          rw b.same_notes (
            ground (
              arith,
              get-delete_rows owner unique db.notes o id,
              b.latest key,
              log key,
              c.note_logged o id t,
            ));
      notebook_logged = λ o id t.
          let key = entity_key o notebook_kind id in
          rw b.same_notebooks (ground (arith, b.latest key, log key, c.notebook_logged o id t));
      note_buried = λ o id t. rw b.same_notes (
          ground (
            arith,
            get-delete_rows owner unique db.notes o id,
            b.tombstones (entity_key o note_kind id),
            c.note_buried o id t,
          ));
      notebook_buried = λ o id t.
          rw b.same_notebooks (
            ground (arith, b.tombstones (entity_key o notebook_kind id), c.notebook_buried o id t));
    }

-- `deleteNotebooksByIds`, for any list of ids, keeps a consistent store consistent.
pub delete_notebooks_by_ids-IsConsistent :
    (clock : Clock) (ids : List Text) (owner : Text) (db : Db)
    → IsConsistent db
    → IsConsistent (delete_notebooks_by_ids clock ids owner db)
unfolding delete_notebooks_by_ids
delete_notebooks_by_ids-IsConsistent clock ids owner db c =
    let unique = unique_entity_ids ids in
    let db' : Db = record db { notebooks = delete_rows owner unique db.notebooks } in
    let b =
      for_each-bury_by_id-Buried clock owner notebook_kind
        (λ id. notebook_author (get (get_notebooks_by_ids db unique owner) id)) unique db' in
    let log = λ (key : EntityKey). latest_entity_operation_of_eq db' db key refl in
    record {
      ordered = b.ordered c.ordered;
      notebook_logged = λ o id t.
          let key = entity_key o notebook_kind id in
          rw b.same_notebooks (
            ground (
              arith,
              get-delete_rows owner unique db.notebooks o id,
              b.latest key,
              log key,
              c.notebook_logged o id t,
            ));
      note_logged = λ o id t.
          let key = entity_key o note_kind id in
          rw b.same_notes (ground (arith, b.latest key, log key, c.note_logged o id t));
      notebook_buried = λ o id t. rw b.same_notebooks (
          ground (
            arith,
            get-delete_rows owner unique db.notebooks o id,
            b.tombstones (entity_key o notebook_kind id),
            c.notebook_buried o id t,
          ));
      note_buried = λ o id t.
          rw b.same_notes
            (ground (arith, b.tombstones (entity_key o note_kind id), c.note_buried o id t));
    }
