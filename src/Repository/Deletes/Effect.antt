-- ===== src/Repository/Deletes/Effect.antt =====
-- What the deletions leave of the tables, the log and the tombstones.
use author.Common.{
  ◌≡◌, ◌∙◌, ap, refl, sym, true, false, ◌&&◌, Option, none, some, List, [], ◌∷◌, Text, text_eq,
  text_eq_iff, text_Eq, arith, if◌then◌else◌, for_each, ℕ, Bool-cases, inl, inr,
}
use author.Common.Dedup.{contains, contains-append}
use author.Common.Table.{Table, get, remove_if, get-remove_if, get-put}
use author.ApiTypes.{EntityKind}
use author.Repository.Store.{
  Key, EntityKey, Tombstone, Db, deleted, upserted, Operation, key_Eq, entity_key_Eq, entity_key_eq,
  entity_key_eq_iff,
}
use author.Repository.Chunks.{chunks, concat, concat-chunks}
use author.Repository.Log.{
  entity_key, latest_entity_operation, get_entity_tombstone, put_entity_tombstone,
  latest_entity_operation-record_entity_change, outside_log, outside_log-record_entity_change,
  IsOrdered, record_entity_change-IsOrdered,
}
use author.Repository.Queries.{row_key}
use author.Repository.Writes.Batch.{names}
use author.Repository.Writes.Effect.{latest_entity_operation_of_eq}
use author.Repository.Deletes.{Clock, is_delete, bury_record, log_delete, bury_by_id, delete_rows}

-- The effect of deleting records of one owner and kind on all but their table.
pub record Buried (owner : Text) (kind : EntityKind) (ids : List Text) (before after : Db)
    : Type 0 where
  pub latest :
      (key : EntityKey)
      → latest_entity_operation after key
        ≡ (if names owner kind ids key then some deleted else latest_entity_operation before key)
  pub tombstones :
      (key : EntityKey)
      → names owner kind ids key ≡ false
      → get after.tombstones key ≡ get before.tombstones key
  pub ordered :
      IsOrdered before.next_revision before.changes → IsOrdered after.next_revision after.changes
  pub same_notes : after.notes ≡ before.notes
  pub same_notebooks : after.notebooks ≡ before.notebooks

is_delete_sound : (o : Option Operation) → is_delete o ≡ true → o ≡ some deleted
is_delete_sound none h = cc
is_delete_sound (some upserted) h = cc
is_delete_sound (some deleted) h = refl

module _ (time : Text) (k : EntityKey) (db : Db) where
  latest-log_delete :
      (key : EntityKey)
      → latest_entity_operation (log_delete time k db) key
        ≡ (if entity_key_eq k key then some deleted else latest_entity_operation db key)
  unfolding log_delete
  latest-log_delete key = elim (Bool-cases (is_delete (latest_entity_operation db k))) [
    | inl old ↦ rw old (elim (Bool-cases (entity_key_eq k key)) [
      | inl same ↦ rw same (
          ap (latest_entity_operation db) (sym ((entity_key_eq_iff k key).0 same))
          ∙ is_delete_sound (latest_entity_operation db k) old)
      | inr other ↦ rw other
    ])
    | inr new ↦ rw new (latest_entity_operation-record_entity_change k deleted time db key)
  ]

  outside_log-log_delete : outside_log (log_delete time k db) ≡ outside_log db
  unfolding log_delete
  outside_log-log_delete = ground (arith, outside_log-record_entity_change k deleted time db)

  log_delete-IsOrdered :
      IsOrdered db.next_revision db.changes
      → IsOrdered (log_delete time k db).next_revision (log_delete time k db).changes
  unfolding log_delete
  log_delete-IsOrdered h = elim (Bool-cases (is_delete (latest_entity_operation db k))) [
    | inl old ↦ rw old h
    | inr new ↦ rw new (record_entity_change-IsOrdered k deleted time db h)
  ]

-- The tombstones of a store, and all but the log and the tombstones.
abbrev outside_both : Db → Db
outside_both db = record db { changes = []; next_revision = 0; tombstones = [] }

module _ (clock : Clock) (owner : Text) (kind : EntityKind)
    (existing : Text → Option (Text × ℕ)) where
  bury_record-outside :
      (time : Text) (key : EntityKey) (author : Option (Text × ℕ)) (t : Option Tombstone) (db : Db)
      → outside_both (bury_record time key author t db) ≡ outside_both db
  unfolding put_entity_tombstone
  bury_record-outside time key (some (device, version)) t db = refl
  bury_record-outside time key none none db = refl
  bury_record-outside time key none (some u) db = refl

  bury_record-log :
      (time : Text) (key : EntityKey) (author : Option (Text × ℕ)) (t : Option Tombstone) (db : Db)
      → ((bury_record time key author t db).changes ≡ db.changes)
        × ((bury_record time key author t db).next_revision ≡ db.next_revision)
  unfolding put_entity_tombstone
  bury_record-log time key (some (device, version)) t db = (refl, refl)
  bury_record-log time key none none db = (refl, refl)
  bury_record-log time key none (some u) db = (refl, refl)

  get-bury_record :
      (time : Text) (k : EntityKey) (author : Option (Text × ℕ)) (t : Option Tombstone) (db : Db)
      (key : EntityKey)
      → entity_key_eq k key ≡ false
      → get (bury_record time k author t db).tombstones key ≡ get db.tombstones key
  unfolding put_entity_tombstone
  get-bury_record time k (some (device, version)) t db key h = get-put db.tombstones k _ key ∙ rw h
  get-bury_record time k none none db key h = get-put db.tombstones k _ key ∙ rw h
  get-bury_record time k none (some u) db key h = refl

  abbrev buried_before : Db → Text → Db
  buried_before db id =
      let key = entity_key owner kind id in
      bury_record (clock.buried id) key (existing id) (get_entity_tombstone db key) db

  abbrev round : Db → Text → Db
  round = bury_by_id clock owner kind existing

  latest-round :
      (db : Db) (id : Text) (key : EntityKey)
      → latest_entity_operation (round db id) key ≡ (
          if entity_key_eq (entity_key owner kind id) key
          then some deleted
          else latest_entity_operation db key)
  unfolding bury_by_id
  latest-round db id key =
      latest-log_delete (clock.logged id) (entity_key owner kind id) (buried_before db id) key
      ∙ rw (
          latest_entity_operation_of_eq (buried_before db id) db key
            (bury_record-log _ _ (existing id) (get_entity_tombstone db (entity_key owner kind id))
              db).0)

  outside-round : (db : Db) (id : Text) → outside_both (round db id) ≡ outside_both db
  unfolding bury_by_id
  outside-round db id =
      ap (λ (d : Db). record d { tombstones = [] })
        (outside_log-log_delete (clock.logged id) (entity_key owner kind id) (buried_before db id))
      ∙ bury_record-outside _ _ (existing id) (get_entity_tombstone db (entity_key owner kind id))
          db

  tombstones-round :
      (db : Db) (id : Text) (key : EntityKey)
      → entity_key_eq (entity_key owner kind id) key ≡ false
      → get (round db id).tombstones key ≡ get db.tombstones key
  unfolding bury_by_id
  tombstones-round db id key h =
      ap (λ (d : Db). get d.tombstones key)
        (outside_log-log_delete (clock.logged id) (entity_key owner kind id) (buried_before db id))
      ∙ get-bury_record _ _ (existing id) (get_entity_tombstone db (entity_key owner kind id)) db
          key h

  IsOrdered-round :
      (db : Db) (id : Text)
      → IsOrdered db.next_revision db.changes
      → IsOrdered (round db id).next_revision (round db id).changes
  unfolding bury_by_id
  IsOrdered-round db id h =
      let same =
        bury_record-log (clock.buried id) (entity_key owner kind id) (existing id)
          (get_entity_tombstone db (entity_key owner kind id)) db in
      log_delete-IsOrdered (clock.logged id) (entity_key owner kind id) (buried_before db id)
        (rw (same.0, same.1) h)

  names-cons :
      (id : Text) (ids : List Text) (key : EntityKey)
      → names owner kind (id ∷ ids) key ≡ false
      → (entity_key_eq (entity_key owner kind id) key ≡ false) × (names owner kind ids key ≡ false)
  unfolding contains entity_key_eq
  names-cons id ids key h = ground arith

  names-cons_latest :
      (id : Text) (ids : List Text) (key : EntityKey) (o : Option Operation)
      → (if names owner kind ids key
          then some deleted
          else (if entity_key_eq (entity_key owner kind id) key then some deleted else o))
        ≡ (if names owner kind (id ∷ ids) key then some deleted else o)
  unfolding contains entity_key_eq
  names-cons_latest id ids key o = ground arith

  pub for_each-bury_by_id-Buried :
      (ids : List Text) (db : Db) → Buried owner kind ids db (for_each round db ids)
  unfolding contains
  for_each-bury_by_id-Buried [] db = record {
    latest = λ key. ground arith;
    tombstones = λ key h. refl;
    ordered = λ h. h;
    same_notes = refl;
    same_notebooks = refl;
  }
  for_each-bury_by_id-Buried (id ∷ ids) db =
      let rest = for_each-bury_by_id-Buried ids (round db id) in
      record {
        latest = λ key.
            rest.latest key
            ∙ rw (latest-round db id key)
                (names-cons_latest id ids key (latest_entity_operation db key));
        tombstones = λ key h.
            rest.tombstones key (names-cons id ids key h).1
            ∙ tombstones-round db id key (names-cons id ids key h).0;
        ordered = λ h. rest.ordered (IsOrdered-round db id h);
        same_notes = rest.same_notes ∙ ap (λ (d : Db). d.notes) (outside-round db id);
        same_notebooks = rest.same_notebooks ∙ ap (λ (d : Db). d.notebooks) (outside-round db id);
      }

module _ {Row : Type 0} (owner : Text) where
  get-delete_blocks :
      (blocks : List (List Text)) (table : Table Key Row) (o id : Text)
      → get
          (for_each
            (λ t chunk. remove_if (λ k. text_eq k.owner owner && contains chunk k.id) t)
            table
            blocks)
          (row_key o id)
        ≡ (if text_eq o owner && contains (concat blocks) id
            then none
            else get table (row_key o id))
  unfolding contains
  get-delete_blocks [] table o id = ground arith
  get-delete_blocks (block ∷ blocks) table o id = ground (
    arith,
    get-delete_blocks blocks
        (remove_if (λ (k : Key). text_eq k.owner owner && contains block k.id) table) o id,
    get-remove_if (λ (k : Key). text_eq k.owner owner && contains block k.id) table (row_key o id),
    contains-append block (concat blocks) id,
  )

  pub get-delete_rows :
      (ids : List Text) (table : Table Key Row) (o id : Text)
      → get (delete_rows owner ids table) (row_key o id)
        ≡ (if text_eq owner o && contains ids id then none else get table (row_key o id))
  unfolding delete_rows
  get-delete_rows ids table o id = ground (
    arith,
    get-delete_blocks (chunks ids 200) table o id,
    ap (λ l. contains l id) (concat-chunks 200 ids (omega arith)),
    text_eq_iff o owner,
    text_eq_iff owner o,
  )
