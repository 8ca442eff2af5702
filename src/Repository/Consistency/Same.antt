-- ===== src/Repository/Consistency/Same.antt =====
-- The consistency of the store and operations on its other tables, such as `upsertDevice`.
use author.Common.{◌≡◌, refl}
use author.ApiTypes.{note_kind, notebook_kind}
use author.Repository.Store.{Db, key_Eq, entity_key_Eq}
use author.Repository.Log.{entity_key}
use author.Repository.Devices.Effect.{SameRecords}
use author.Repository.Writes.Effect.{latest_entity_operation_of_eq}
use author.Repository.Consistency.{IsConsistent}

-- A store with the same records, and a log that says the same of them.
pub SameRecords-IsConsistent : {a b : Db} → SameRecords a b → IsConsistent a → IsConsistent b
SameRecords-IsConsistent s c = record {
  ordered = s.ordered c.ordered;
  note_logged = λ o id t.
      rw (s.same_latest (entity_key o note_kind id) refl, s.same_notes) (c.note_logged o id t);
  notebook_logged = λ o id t.
      rw (s.same_latest (entity_key o notebook_kind id) refl, s.same_notebooks)
        (c.notebook_logged o id t);
  note_buried = λ o id t. rw (s.same_notes, s.same_tombstones) (c.note_buried o id t);
  notebook_buried = λ o id t. rw (s.same_notebooks, s.same_tombstones) (c.notebook_buried o id t);
}

pub SameRecords-of_eq :
    (a b : Db)
    → b.notes ≡ a.notes
    → b.notebooks ≡ a.notebooks
    → b.tombstones ≡ a.tombstones
    → b.changes ≡ a.changes
    → b.next_revision ≡ a.next_revision
    → SameRecords a b
SameRecords-of_eq a b n m t c r = record {
  same_notes = n;
  same_notebooks = m;
  same_tombstones = t;
  same_latest = λ key k. latest_entity_operation_of_eq b a key c;
  ordered = λ h. rw (c, r) h;
}
