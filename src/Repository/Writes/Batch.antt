-- ===== src/Repository/Writes/Batch.antt =====
-- What the log and the tombstones hold after a batch of upserts.
use author.Common.{
  ◌≡◌, ap, ◌∙◌, Bool, true, ◌&&◌, none, some, List, [], ◌∷◌, Text, text_eq, text_eq_iff, text_Eq,
  for_each, if◌then◌else◌, arith, truthy, for_each_frame, for_each_inv,
}
use author.Common.Dedup.{contains, contains-append}
use author.Common.Table.{Table, get, get-remove_if, keys}
use author.ApiTypes.{EntityKind}
use author.Repository.Store.{
  EntityKey, Db, Tombstone, entity_key_eq, entity_key_Eq, kind_eq, upserted,
}
use author.Repository.Chunks.{chunks, for_each-chunks, concat, concat-chunks}
use author.Repository.Log.{
  entity_key, latest_entity_operation, clear_entity_tombstones_by_ids,
  latest_entity_operation-record_entity_change, outside_log, outside_log-record_entity_change,
  IsOrdered, record_entity_change-IsOrdered, unique_entity_ids, contains-unique_entity_ids,
  clear_block,
}
use author.Repository.Writes.{log_upsert, record_entity_changes}

-- A key that a batch of records of one owner and kind names.
abbrev pub names : Text → EntityKind → List Text → EntityKey → Bool
names owner kind ids key = text_eq owner key.owner && (kind_eq kind key.kind && contains ids key.id)

module _ (owner : Text) (kind : EntityKind) where
  record_entity_changes_lem :
      (stamps : List (Text × Text)) (db : Db)
      → record_entity_changes owner kind stamps db ≡ for_each (log_upsert owner kind) db stamps
  unfolding record_entity_changes
  record_entity_changes_lem stamps db =
      for_each-chunks (log_upsert owner kind) 200 db stamps (omega arith)

  latest_entity_operation-for_each :
      (stamps : List (Text × Text)) (db : Db) (key : EntityKey)
      → latest_entity_operation (for_each (log_upsert owner kind) db stamps) key ≡ (
          if names owner kind (keys stamps) key
          then some upserted
          else latest_entity_operation db key)
  unfolding contains entity_key_eq
  latest_entity_operation-for_each [] db key = ground arith
  latest_entity_operation-for_each ((id, time) ∷ stamps) db key = ground (
    arith,
    latest_entity_operation-for_each stamps (log_upsert owner kind db (id, time)) key,
    latest_entity_operation-record_entity_change (entity_key owner kind id) upserted time db key,
  )

  pub latest_entity_operation-record_entity_changes :
      (stamps : List (Text × Text)) (db : Db) (key : EntityKey)
      → latest_entity_operation (record_entity_changes owner kind stamps db) key ≡ (
          if names owner kind (keys stamps) key
          then some upserted
          else latest_entity_operation db key)
  latest_entity_operation-record_entity_changes stamps db key =
      rw (record_entity_changes_lem stamps db) (latest_entity_operation-for_each stamps db key)

  pub outside_log-record_entity_changes :
      (stamps : List (Text × Text)) (db : Db)
      → outside_log (record_entity_changes owner kind stamps db) ≡ outside_log db
  outside_log-record_entity_changes stamps db =
      ap outside_log (record_entity_changes_lem stamps db)
      ∙ for_each_frame (log_upsert owner kind) outside_log
          (λ d s. outside_log-record_entity_change (entity_key owner kind s.0) upserted s.1 d) db
          stamps

  pub record_entity_changes-IsOrdered :
      (stamps : List (Text × Text)) (db : Db)
      → IsOrdered db.next_revision db.changes
      → IsOrdered
          (record_entity_changes owner kind stamps db).next_revision
          (record_entity_changes owner kind stamps db).changes
  record_entity_changes-IsOrdered stamps db h = rw (record_entity_changes_lem stamps db) (
      for_each_inv (λ (d : Db). IsOrdered d.next_revision d.changes) (log_upsert owner kind)
        (λ d s. record_entity_change-IsOrdered (entity_key owner kind s.0) upserted s.1 d) db stamps
        h)

  get-clear_blocks :
      (blocks : List (List Text)) (table : Table EntityKey Tombstone) (key : EntityKey)
      → get (for_each (clear_block owner kind) table blocks) key ≡ (
          if text_eq key.owner owner && (kind_eq key.kind kind && contains (concat blocks) key.id)
          then none
          else get table key)
  unfolding contains
  get-clear_blocks [] table key = ground arith
  get-clear_blocks (block ∷ blocks) table key = ground (
    arith,
    get-clear_blocks blocks (clear_block owner kind table block) key,
    get-remove_if
        (λ (k : EntityKey). text_eq k.owner owner && (kind_eq k.kind kind && contains block k.id))
        table key,
    contains-append block (concat blocks) key.id,
  )

  -- The tombstones of the named records are gone, all others stay.
  pub get-clear_entity_tombstones_by_ids :
      (ids : List Text) (db : Db) (key : EntityKey)
      → truthy key.id ≡ true
      → get (clear_entity_tombstones_by_ids owner kind ids db).tombstones key
        ≡ (if names owner kind ids key then none else get db.tombstones key)
  unfolding clear_entity_tombstones_by_ids
  get-clear_entity_tombstones_by_ids ids db key h = ground (
    arith,
    get-clear_blocks (chunks (unique_entity_ids ids) 200) db.tombstones key,
    ap (λ l. contains l key.id) (concat-chunks 200 (unique_entity_ids ids) (omega arith)),
    contains-unique_entity_ids ids key.id,
    text_eq_iff key.owner owner,
    text_eq_iff owner key.owner,
  )
