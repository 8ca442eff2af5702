-- ===== src/Tests/Store.antt =====
-- The writes and the deletions by id, on stores that hold sample records.
use author.Common.{
  ◌≡◌, none, [], ◌∷◌, ◌&&◌, text_Eq, lit, truthy, if◌then◌else◌, text_eq, some, refl,
}
use author.Common.Dedup.{contains}
use author.Repository.Store.{Db, empty_db, key_Eq, deleted}
use author.Repository.Queries.{get_note, get_notes_by_ids, get-get_notes_by_ids, row_key}
use author.Repository.Writes.{put_notes, put_notebooks}
use author.Repository.Deletes.{Clock, delete_notes_by_ids, delete_notebooks_by_ids}
use author.Repository.Consistency.{IsConsistent}
use author.Repository.Consistency.Write.{put_notes-IsConsistent, put_notebooks-IsConsistent}
use author.Repository.Consistency.Delete.{
  delete_notes_by_ids-IsConsistent, delete_notebooks_by_ids-IsConsistent,
}
use author.Common.Table.{get}
use author.Tests.Sample.{me, sample_note, sample_notebook}
use author.Tests.Sample.Empty.{empty_db-IsConsistent}
use author.Repository.Deletes.Exact.{delete_notes_by_ids_lem}
use author.Repository.Log.{entity_key, latest_entity_operation}
use author.ApiTypes.{note_kind}

abbrev with_note : Db
with_note = (put_notes me (lit "t") (sample_note "n1" "one" 1 ∷ []) empty_db).1

abbrev with_notebook : Db
with_notebook = (put_notebooks me (lit "t") (sample_notebook "nb" "Work" ∷ []) empty_db).1

abbrev clock : Clock
clock = record { buried = λ id. lit "u"; logged = λ id. lit "v" }

put_notes-IsConsistent_example : IsConsistent with_note
put_notes-IsConsistent_example =
    put_notes-IsConsistent me (lit "t") (sample_note "n1" "one" 1 ∷ []) empty_db
      empty_db-IsConsistent

put_notebooks-IsConsistent_example : IsConsistent with_notebook
put_notebooks-IsConsistent_example =
    put_notebooks-IsConsistent me (lit "t") (sample_notebook "nb" "Work" ∷ []) empty_db
      empty_db-IsConsistent

with_note-IsConsistent : IsConsistent with_note
with_note-IsConsistent =
    put_notes-IsConsistent me (lit "t") (sample_note "n1" "one" 1 ∷ []) empty_db
      empty_db-IsConsistent

with_notebook-IsConsistent : IsConsistent with_notebook
with_notebook-IsConsistent =
    put_notebooks-IsConsistent me (lit "t") (sample_notebook "nb" "Work" ∷ []) empty_db
      empty_db-IsConsistent

delete_notes_by_ids-IsConsistent_example :
    IsConsistent (delete_notes_by_ids clock (lit "n1" ∷ lit "n9" ∷ []) me with_note)
delete_notes_by_ids-IsConsistent_example =
    delete_notes_by_ids-IsConsistent clock (lit "n1" ∷ lit "n9" ∷ []) me with_note
      with_note-IsConsistent

delete_notebooks_by_ids-IsConsistent_example :
    IsConsistent (delete_notebooks_by_ids clock (lit "nb" ∷ []) me with_notebook)
delete_notebooks_by_ids-IsConsistent_example =
    delete_notebooks_by_ids-IsConsistent clock (lit "nb" ∷ []) me with_notebook
      with_notebook-IsConsistent

get-get_notes_by_ids_example :
    get (get_notes_by_ids with_note (lit "n9" ∷ lit "n1" ∷ []) me) (lit "n1") ≡ (
      if truthy (lit "n1") && contains (lit "n9" ∷ lit "n1" ∷ []) (lit "n1")
      then get_note with_note (lit "n1") me
      else none)
get-get_notes_by_ids_example =
    get-get_notes_by_ids with_note (lit "n9" ∷ lit "n1" ∷ []) me (lit "n1")

delete_notes_by_ids_lem_example :
    (get
        (delete_notes_by_ids clock (lit "n1" ∷ lit "n9" ∷ []) me with_note).notes
        (row_key me (lit "n1"))
      ≡ (if text_eq me me && contains (lit "n1" ∷ lit "n9" ∷ []) (lit "n1")
          then none
          else get with_note.notes (row_key me (lit "n1"))))
    × (latest_entity_operation
          (delete_notes_by_ids clock (lit "n1" ∷ lit "n9" ∷ []) me with_note)
          (entity_key me note_kind (lit "n1"))
        ≡ (if text_eq me me && contains (lit "n1" ∷ lit "n9" ∷ []) (lit "n1")
            then some deleted
            else latest_entity_operation with_note (entity_key me note_kind (lit "n1"))))
delete_notes_by_ids_lem_example =
    delete_notes_by_ids_lem clock (lit "n1" ∷ lit "n9" ∷ []) me with_note me (lit "n1") refl
