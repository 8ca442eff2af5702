-- ===== src/Repository/Consistency/Write.antt =====
-- The consistency of the store and `putNotes` and `putNotebooks`.
use author.Common.{List, Text, text_Eq, arith}
use author.Schema.{Note, Notebook}
use author.ApiTypes.{note_kind, notebook_kind}
use author.Repository.Store.{Db, key_Eq, entity_key_Eq}
use author.Repository.Log.{entity_key}
use author.Repository.Writes.{put_notes, put_notebooks}
use author.Repository.Writes.Effect.{
  put_notes-Logged, notebooks-put_notes, is_some-put_notes, put_notebooks-Logged,
  is_some-put_notebooks, notes-put_notebooks,
}
use author.Repository.Consistency.{IsConsistent}

-- `putNotes`, for any list of notes, keeps a consistent store consistent.
pub put_notes-IsConsistent :
    (owner time : Text) (notes : List Note) (db : Db)
    → IsConsistent db
    → IsConsistent (put_notes owner time notes db).1
put_notes-IsConsistent owner time notes db c =
    let l = put_notes-Logged owner time notes db in
    record {
      ordered = l.ordered c.ordered;
      note_logged = λ o id t. ground (
        arith,
        l.latest (entity_key o note_kind id),
        c.note_logged o id t,
        is_some-put_notes owner time notes db o id,
      );
      notebook_logged = λ o id t.
          rw (notebooks-put_notes owner time notes db)
            (ground (arith, l.latest (entity_key o notebook_kind id), c.notebook_logged o id t));
      note_buried = λ o id t. ground (
        arith,
        l.tombstones (entity_key o note_kind id) t,
        c.note_buried o id t,
        is_some-put_notes owner time notes db o id,
      );
      notebook_buried = λ o id t. rw (notebooks-put_notes owner time notes db) (
          ground (arith, l.tombstones (entity_key o notebook_kind id) t, c.notebook_buried o id t));
    }

-- `putNotebooks`, for any list of notebooks, keeps a consistent store consistent.
pub put_notebooks-IsConsistent :
    (owner time : Text) (notebooks : List Notebook) (db : Db)
    → IsConsistent db
    → IsConsistent (put_notebooks owner time notebooks db).1
put_notebooks-IsConsistent owner time notebooks db c =
    let l = put_notebooks-Logged owner time notebooks db in
    let same = notes-put_notebooks owner time notebooks db in
    record {
      ordered = l.ordered c.ordered;
      note_logged = λ o id t.
          rw same (ground (arith, l.latest (entity_key o note_kind id), c.note_logged o id t));
      notebook_logged = λ o id t. ground (
        arith,
        l.latest (entity_key o notebook_kind id),
        c.notebook_logged o id t,
        is_some-put_notebooks owner time notebooks db o id,
      );
      note_buried = λ o id t.
          rw same
            (ground (arith, l.tombstones (entity_key o note_kind id) t, c.note_buried o id t));
      notebook_buried = λ o id t. ground (
        arith,
        l.tombstones (entity_key o notebook_kind id) t,
        c.notebook_buried o id t,
        is_some-put_notebooks owner time notebooks db o id,
      );
    }
