-- ===== src/Repository/Consistency.antt =====
-- What the store promises to a client that mirrors it: the log agrees with the tables, and a record is
-- not stored and buried at once. The empty id is left out, as the reads by id leave it out.
pub mod Write
pub mod Delete
pub mod Same
use author.Common.{◌≡◌, Bool, true, false, ◌&&◌, Option, none, some, Text, truthy, is_some}
use author.Common.Table.{get}
use author.ApiTypes.{note_kind, notebook_kind}
use author.Repository.Store.{Operation, upserted, deleted, Db, key_Eq, entity_key_Eq}
use author.Repository.Log.{entity_key, latest_entity_operation, IsOrdered}
use author.Repository.Queries.{row_key}

abbrev pub is_upserted : Option Operation → Bool
is_upserted none = false
is_upserted (some upserted) = true
is_upserted (some deleted) = false

pub record IsConsistent (db : Db) : Type 0 where
  pub ordered : IsOrdered db.next_revision db.changes
  pub note_logged :
      (o id : Text)
      → truthy id ≡ true
      → is_some (get db.notes (row_key o id))
        ≡ is_upserted (latest_entity_operation db (entity_key o note_kind id))
  pub notebook_logged :
      (o id : Text)
      → truthy id ≡ true
      → is_some (get db.notebooks (row_key o id))
        ≡ is_upserted (latest_entity_operation db (entity_key o notebook_kind id))
  pub note_buried :
      (o id : Text)
      → truthy id ≡ true
      → is_some (get db.notes (row_key o id))
          && is_some (get db.tombstones (entity_key o note_kind id))
        ≡ false
  pub notebook_buried :
      (o id : Text)
      → truthy id ≡ true
      → is_some (get db.notebooks (row_key o id))
          && is_some (get db.tombstones (entity_key o notebook_kind id))
        ≡ false
