-- ===== src/Repository/Maintenance/Consistency.antt =====
-- The consistency of the store and `cleanupTrash` and `pruneUnreferencedDevices`.
use author.Common.{
  ◌≡◌, refl, ap, ◌∙◌, Bool, false, Option, none, some, Text, or_else, subst, text_eq_iff, arith, ℕ,
  for_each_inv, keep_if, Option-cases, inl, inr,
}
use author.Common.Table.{remove, get-remove, get-put}
use author.ApiTypes.{note_kind, notebook_kind, device_kind}
use author.Schema.{note_retention_days}
use author.SyncSpec.Cursor.{retention_cutoff}
use author.Repository.Store.{
  Key, EntityKey, NoteRow, NotebookRow, DeviceRow, Db, key_Eq, entity_key_Eq, entity_key_eq, key_eq,
  deleted, kind_eq,
}
use author.Repository.Log.{
  entity_key, latest_entity_operation, latest_entity_operation-record_entity_change,
  record_entity_change, put_entity_tombstone, latest_entity_change,
}
use author.Repository.Queries.{row_key}
use author.Repository.Writes.{save_note_snapshot, save_notebook_snapshot}
use author.Repository.Writes.Effect.{latest_entity_operation_of_eq}
use author.Repository.Consistency.{IsConsistent}
use author.Repository.Consistency.Same.{SameRecords-IsConsistent, SameRecords-of_eq}
use author.Repository.Maintenance.{
  row_owner, bury, clean_note, clean_notebook, clean_rows, is_old_note, is_old_notebook, prune_at,
  cleanup_at, drop_unreferenced, prune_unreferenced_devices, is_unreferenced, cleanup_trash,
  prune_version_snapshots, prune_version_snapshots_before, CleanupResponse, PruneResponse,
}
use author.SyncSpec.{next_version_after}

logs_no_record :
    (a b : Db) (owner id time : Text) (key : EntityKey)
    → b.changes ≡ a.changes
    → kind_eq device_kind key.kind ≡ false
    → latest_entity_operation
        (record_entity_change (entity_key owner device_kind id) deleted time b)
        key
      ≡ latest_entity_operation a key
unfolding entity_key_eq
logs_no_record a b owner id time key e other =
    latest_entity_operation-record_entity_change (entity_key owner device_kind id) deleted time b
      key
    ∙ ground (arith, latest_entity_operation_of_eq b a key e)

module _ (logged : EntityKey → Text) (time : Text) where
  clean_note-IsConsistent :
      (db : Db) (r : Key × NoteRow) → IsConsistent db → IsConsistent (clean_note logged time db r)
  unfolding clean_note bury save_note_snapshot put_entity_tombstone record_entity_change
      latest_entity_operation latest_entity_change key_eq entity_key_eq
  clean_note-IsConsistent db (k, row) c =
      let owner = row_owner k.owner in
      let key = entity_key owner note_kind k.id in
      record {
        ordered = (omega arith, c.ordered);
        note_logged = λ o id t. ground (
          arith,
          get-remove db.notes (row_key owner k.id) (row_key o id),
          c.note_logged o id t,
          text_eq_iff o owner,
          text_eq_iff owner o,
          text_eq_iff id k.id,
          text_eq_iff k.id id,
        );
        notebook_logged = λ o id t. ground (arith, c.notebook_logged o id t);
        note_buried = λ o id t. ground (
          arith,
          get-remove db.notes (row_key owner k.id) (row_key o id),
          c.note_buried o id t,
          get-put db.tombstones key
              (record {
                deleted_at = time;
                device_id = row.device_id;
                version = next_version_after row.version;
              })
              (entity_key o note_kind id),
          text_eq_iff o owner,
          text_eq_iff owner o,
          text_eq_iff id k.id,
          text_eq_iff k.id id,
        );
        notebook_buried = λ o id t. ground (
          arith,
          c.notebook_buried o id t,
          get-put db.tombstones key
              (record {
                deleted_at = time;
                device_id = row.device_id;
                version = next_version_after row.version;
              })
              (entity_key o notebook_kind id),
        );
      }

  clean_notebook-IsConsistent :
      (db : Db) (r : Key × NotebookRow)
      → IsConsistent db
      → IsConsistent (clean_notebook logged time db r)
  unfolding clean_notebook bury save_notebook_snapshot put_entity_tombstone record_entity_change
      latest_entity_operation latest_entity_change key_eq entity_key_eq
  clean_notebook-IsConsistent db (k, row) c =
      let owner = row_owner k.owner in
      let key = entity_key owner notebook_kind k.id in
      record {
        ordered = (omega arith, c.ordered);
        notebook_logged = λ o id t. ground (
          arith,
          get-remove db.notebooks (row_key owner k.id) (row_key o id),
          c.notebook_logged o id t,
          text_eq_iff o owner,
          text_eq_iff owner o,
          text_eq_iff id k.id,
          text_eq_iff k.id id,
        );
        note_logged = λ o id t. ground (arith, c.note_logged o id t);
        notebook_buried = λ o id t. ground (
          arith,
          get-remove db.notebooks (row_key owner k.id) (row_key o id),
          c.notebook_buried o id t,
          get-put db.tombstones key
              (record {
                deleted_at = time;
                device_id = row.device_id;
                version = next_version_after row.version;
              })
              (entity_key o notebook_kind id),
          text_eq_iff o owner,
          text_eq_iff owner o,
          text_eq_iff id k.id,
          text_eq_iff k.id id,
        );
        note_buried = λ o id t. ground (
          arith,
          c.note_buried o id t,
          get-put db.tombstones key
              (record {
                deleted_at = time;
                device_id = row.device_id;
                version = next_version_after row.version;
              })
              (entity_key o note_kind id),
        );
      }

module _ (logged : EntityKey → Text) where
  drop_unreferenced-IsConsistent :
      (db : Db) (r : Key × DeviceRow)
      → IsConsistent db
      → IsConsistent (drop_unreferenced logged db r)
  unfolding drop_unreferenced record_entity_change latest_entity_operation
  drop_unreferenced-IsConsistent db (k, row) c =
      SameRecords-IsConsistent
        (record {
          same_notes = refl;
          same_notebooks = refl;
          same_tombstones = refl;
          same_latest = λ key other.
              logs_no_record db (record db { devices = remove db.devices k }) k.owner k.id
                (logged (entity_key k.owner device_kind k.id)) key refl other;
          ordered = λ o. (omega arith, o);
        })
        c

module _ (to_iso : ℕ → Text) (earlier : Text → Text → Bool) (now : ℕ) (owner : Option Text)
    (logged : EntityKey → Text) where
  clean_rows-IsConsistent :
      (cutoff : Text) (db : Db)
      → IsConsistent db
      → IsConsistent (clean_rows to_iso earlier now owner logged cutoff db)
  unfolding clean_rows
  clean_rows-IsConsistent cutoff db c =
      for_each_inv IsConsistent (clean_notebook logged (to_iso now))
        (clean_notebook-IsConsistent logged (to_iso now)) _
        (keep_if (is_old_notebook earlier owner cutoff) db.notebooks)
        (for_each_inv IsConsistent (clean_note logged (to_iso now))
          (clean_note-IsConsistent logged (to_iso now)) db
          (keep_if (is_old_note earlier owner cutoff) db.notes) c)

  prune_at-IsConsistent :
      (o : Option Text) (db after : Db) (response : PruneResponse)
      → IsConsistent db
      → prune_at to_iso earlier now owner o db ≡ some (response, after)
      → IsConsistent after
  unfolding prune_version_snapshots_before
  prune_at-IsConsistent none db after response c h = absurd (cc)
  prune_at-IsConsistent (some cutoff) db after response c h =
      let same = ap (λ o. or_else o (response, db)) h in
      subst (λ (out : PruneResponse × Db). IsConsistent out.1) same
        (SameRecords-IsConsistent (SameRecords-of_eq db _ refl refl refl refl refl) c)

  cleanup_at-IsConsistent :
      (o : Option (PruneResponse × Db)) (db after : Db) (cutoff : Text) (response : CleanupResponse)
      → ((pruned : PruneResponse) (d : Db) → o ≡ some (pruned, d) → IsConsistent d)
      → cleanup_at to_iso earlier now owner logged db cutoff o ≡ some (response, after)
      → IsConsistent after
  cleanup_at-IsConsistent none db after cutoff response k h = absurd (cc)
  cleanup_at-IsConsistent (some (pruned, d)) db after cutoff response k h =
      let same = ap (λ o. or_else o (response, db)) h in
      subst (λ (out : CleanupResponse × Db). IsConsistent out.1) same (k pruned d refl)

  -- A cleanup of the trash that succeeds on a consistent store leaves a consistent store, whether it is
  -- for one owner or for all.
  pub cleanup_trash-IsConsistent :
      (db db' : Db) (response : CleanupResponse)
      → IsConsistent db
      → cleanup_trash to_iso earlier now owner logged db ≡ some (response, db')
      → IsConsistent db'
  unfolding cleanup_trash prune_version_snapshots
  cleanup_trash-IsConsistent db db' response c h =
      elim (Option-cases (retention_cutoff to_iso now note_retention_days)) [
        | inl e ↦ absurd (ground arith)
        | inr (cutoff, e) ↦
            cleanup_at-IsConsistent _ db db' cutoff response
              (λ pruned d same.
                prune_at-IsConsistent _ _ d pruned (clean_rows-IsConsistent cutoff db c) same)
              (rw (e, cleanup_trash) at h)
      ]

-- `pruneUnreferencedDevices` keeps a consistent store consistent.
pub prune_unreferenced_devices-IsConsistent :
    (logged : EntityKey → Text) (db : Db)
    → IsConsistent db
    → IsConsistent (prune_unreferenced_devices logged db).1
unfolding prune_unreferenced_devices
prune_unreferenced_devices-IsConsistent logged db c =
    for_each_inv IsConsistent (drop_unreferenced logged)
      (λ d r k. drop_unreferenced-IsConsistent logged d r k) db
      (keep_if (is_unreferenced db) db.devices) c
