-- ===== src/Repository/Deletes/Exact.antt =====
-- What `deleteNotesByIds` does to the rows and to the log.
use author.Common.{
  ◌≡◌, refl, true, ◌&&◌, none, some, List, Text, text_eq, text_Eq, truthy, arith, if◌then◌else◌,
}
use author.Common.Dedup.{contains}
use author.Common.Table.{get}
use author.ApiTypes.{note_kind}
use author.Repository.Store.{Db, deleted, key_Eq}
use author.Repository.Log.{
  entity_key, latest_entity_operation, unique_entity_ids, contains-unique_entity_ids,
}
use author.Repository.Queries.{row_key, get_notes_by_ids}
use author.Repository.Writes.Effect.{latest_entity_operation_of_eq}
use author.Repository.Deletes.{Clock, delete_notes_by_ids, delete_rows, note_author}
use author.Repository.Deletes.Effect.{for_each-bury_by_id-Buried, get-delete_rows}

-- For an id that is not empty, after `deleteNotesByIds`: if the row is the owner's and its id is in the
-- list, then there is no row and the newest change of the note is a deletion, and otherwise the row and
-- the operation of the newest change are as they were.
pub delete_notes_by_ids_lem :
    (clock : Clock) (ids : List Text) (owner : Text) (db : Db) (o id : Text)
    → truthy id ≡ true
    → (get (delete_notes_by_ids clock ids owner db).notes (row_key o id)
        ≡ (if text_eq owner o && contains ids id then none else get db.notes (row_key o id)))
      × (latest_entity_operation
            (delete_notes_by_ids clock ids owner db)
            (entity_key o note_kind id)
          ≡ (if text_eq owner o && contains ids id
              then some deleted
              else latest_entity_operation db (entity_key o note_kind id)))
unfolding delete_notes_by_ids
delete_notes_by_ids_lem clock ids owner db o id t =
    let unique = unique_entity_ids ids in
    let db' : Db = record db { notes = delete_rows owner unique db.notes } in
    let b =
      for_each-bury_by_id-Buried clock owner note_kind
        (λ id. note_author (get (get_notes_by_ids db unique owner) id)) unique db' in
    let key = entity_key o note_kind id in
    (
      rw b.same_notes (
          ground
            (arith, get-delete_rows owner unique db.notes o id, contains-unique_entity_ids ids id)),
      ground (
        arith,
        b.latest key,
        latest_entity_operation_of_eq db' db key refl,
        contains-unique_entity_ids ids id,
      ),
    )
