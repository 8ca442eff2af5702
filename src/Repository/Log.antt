-- ===== src/Repository/Log.antt =====
-- `entity_changes` and `entity_tombstones`.
pub mod Newest
use author.Common.{
  refl, false, if◌then◌else◌, arith, ◌≡◌, ℕ, ◌+◌, Option, none, some, List, [], ◌∷◌, Text, find,
  for_each, max, text_eq, keep_if, truthy, ◌&&◌, text_Eq, ◌<◌, leb, max_safe_integer,
}
use author.Common.Dedup.{contains, contains-dedup, contains-keep_if, dedup}
use author.Common.Table.{Table, get, put, remove_if}
use author.ApiTypes.{EntityKind}
use author.Repository.Store.{
  EntityKey, Operation, Change, Tombstone, Db, entity_key_eq, entity_key_Eq, kind_eq,
}
use author.Repository.Chunks.{chunks}

unfoldable pub record_entity_change : EntityKey → Operation → Text → Db → Db
record_entity_change key operation updated_at db = record db {
  changes =
      record {
        revision = db.next_revision;
        key = key;
        operation = operation;
        updated_at = updated_at;
      }
      ∷ db.changes;
  next_revision = db.next_revision + 1;
}

-- `ORDER BY revision DESC LIMIT 1`
unfoldable pub latest_entity_change : Db → EntityKey → Option Change
latest_entity_change db key = find (λ c. entity_key_eq c.key key) db.changes

unfoldable pub latest_entity_operation : Db → EntityKey → Option Operation
latest_entity_operation db key = elim (latest_entity_change db key) [
  | none ↦ none
  | some c ↦ some c.operation
]

abbrev pub max_revision : List Change → ℕ
max_revision [] = 0
max_revision (c ∷ cs) = max c.revision (max_revision cs)

-- A revision that is no safe integer is read as 0.
unfoldable pub as_revision : ℕ → ℕ
as_revision n = if leb n max_safe_integer then n else 0

-- Without an owner the maximum over all owners.
unfoldable pub current_revision : Db → Text → ℕ
unfolding as_revision
current_revision db owner = as_revision (
    max_revision
      (if truthy owner then keep_if (λ c. text_eq c.key.owner owner) db.changes else db.changes))

unfoldable pub latest_entity_revision : Db → EntityKey → ℕ
unfolding as_revision
latest_entity_revision db key =
    as_revision (max_revision (keep_if (λ c. entity_key_eq c.key key) db.changes))

unfoldable pub get_entity_tombstone : Db → EntityKey → Option Tombstone
get_entity_tombstone db key = get db.tombstones key

unfoldable pub put_entity_tombstone : EntityKey → Tombstone → Db → Db
put_entity_tombstone key tombstone db = record db { tombstones = put db.tombstones key tombstone }

unfoldable pub unique_entity_ids : List Text → List Text
unique_entity_ids ids = keep_if truthy (dedup ids)

pub contains-unique_entity_ids :
    (ids : List Text) (id : Text)
    → contains (unique_entity_ids ids) id ≡ (if truthy id then contains ids id else false)
unfolding unique_entity_ids
contains-unique_entity_ids ids id =
    ground (arith, contains-keep_if truthy (dedup ids) id, contains-dedup ids id)

abbrev pub entity_key : Text → EntityKind → Text → EntityKey
entity_key owner kind id = record { owner = owner; kind = kind; id = id }

abbrev add_tombstone : Db → Text → EntityKind → Table Text Tombstone → Text → Table Text Tombstone
add_tombstone db owner kind found id = elim (get db.tombstones (entity_key owner kind id)) [
  | none ↦ found
  | some tombstone ↦ put found id tombstone
]

-- Rows are found by their primary key, block by block.
unfoldable pub get_entity_tombstones_by_ids :
    Db → Text → EntityKind → List Text → Table Text Tombstone
get_entity_tombstones_by_ids db owner kind ids =
    for_each (for_each (add_tombstone db owner kind)) [] (chunks (unique_entity_ids ids) 200)

abbrev pub clear_block :
    Text → EntityKind → Table EntityKey Tombstone → List Text → Table EntityKey Tombstone
clear_block owner kind tombstones chunk =
    remove_if (λ k. text_eq k.owner owner && (kind_eq k.kind kind && contains chunk k.id))
      tombstones

unfoldable pub clear_entity_tombstones_by_ids : Text → EntityKind → List Text → Db → Db
clear_entity_tombstones_by_ids owner kind ids db = record db {
  tombstones = for_each (clear_block owner kind) db.tombstones (chunks (unique_entity_ids ids) 200);
}

-- A recorded change is the latest of its record, and of no other.
pub latest_entity_operation-record_entity_change :
    (k : EntityKey) (op : Operation) (time : Text) (db : Db) (j : EntityKey)
    → latest_entity_operation (record_entity_change k op time db) j
      ≡ (if entity_key_eq k j then some op else latest_entity_operation db j)
unfolding latest_entity_operation latest_entity_change record_entity_change
latest_entity_operation-record_entity_change k op time db j = ground arith

-- All of the database but the log.
abbrev pub outside_log : Db → Db
outside_log db = record db { changes = []; next_revision = 0 }

pub outside_log-record_entity_change :
    (k : EntityKey) (op : Operation) (time : Text) (db : Db)
    → outside_log (record_entity_change k op time db) ≡ outside_log db
unfolding record_entity_change
outside_log-record_entity_change k op time db = refl

-- Revisions fall from the newest change to the oldest, and all are below the next one.
abbrev pub IsOrdered : ℕ → List Change → Type 0
IsOrdered bound [] = Unit
IsOrdered bound (c ∷ cs) = (c.revision < bound) × IsOrdered c.revision cs

pub record_entity_change-IsOrdered :
    (k : EntityKey) (op : Operation) (time : Text) (db : Db)
    → IsOrdered db.next_revision db.changes
    → IsOrdered
        (record_entity_change k op time db).next_revision
        (record_entity_change k op time db).changes
unfolding record_entity_change
record_entity_change-IsOrdered k op time db h = (omega arith, h)
