-- ===== src/Repository/Answers.antt =====
-- `accepted`, `conflictVersion` and `makeConflict`, and the lists that the loops of `pushChanges` fill.
use author.Common.{
  ℕ, Option, none, some, List, [], ◌∷◌, ◌++◌, Text, lit, truthy?, text_Eq, length, if◌then◌else◌,
  or_else,
}
use author.Common.Table.{Table}
use author.Schema.{Notebook}
use author.ApiTypes.{
  SyncEntity, note, notebook, EntityKind, Source, from_local, from_remote, ConflictVersion, Reason,
  deleted_remotely, remote_changed, SyncConflict, AcceptedChange,
}
use author.SyncSpec.{preview_text}
use author.Repository.Store.{Db}
use author.Repository.Queries.{get_device_name}
use author.Repository.Verdicts.{Verdict, refuse, keep, store}

-- What the two kinds of record have in common.
abbrev pub entity_id : SyncEntity → Text
entity_id (note n) = n.id
entity_id (notebook b) = b.id

abbrev entity_device : SyncEntity → Text
entity_device (note n) = n.device_id
entity_device (notebook b) = b.device_id

abbrev entity_updated_at : SyncEntity → Text
entity_updated_at (note n) = n.updated_at
entity_updated_at (notebook b) = b.updated_at

abbrev entity_version : SyncEntity → ℕ
entity_version (note n) = n.version
entity_version (notebook b) = b.version

abbrev entity_deleted_at : SyncEntity → Option Text
entity_deleted_at (note n) = n.deleted_at
entity_deleted_at (notebook b) = b.deleted_at

unfoldable pub accepted : EntityKind → SyncEntity → AcceptedChange
accepted kind e = record {
  entity_kind = kind;
  id = entity_id e;
  version = entity_version e;
  updated_at = entity_updated_at e;
}

unfoldable pub conflict_version :
    Db → Source → SyncEntity → Text → Option Text → ConflictVersion SyncEntity
conflict_version db source e owner device_name = record {
  source = source;
  device_id = entity_device e;
  device_name = or_else device_name (get_device_name db (entity_device e) owner);
  updated_at = entity_updated_at e;
  version = entity_version e;
  preview_text = preview_text e;
  entity = e;
}

unfoldable pub make_conflict :
    Text
    → Db
    → EntityKind
    → SyncEntity
    → SyncEntity
    → Text
    → Text
    → Option Reason
    → SyncConflict SyncEntity
make_conflict uuid db kind local remote local_device_name owner reason = record {
  id = uuid;
  entity_kind = kind;
  entity_id = entity_id local;
  reason =
      or_else reason
        (if truthy? (entity_deleted_at remote) then deleted_remotely else remote_changed);
  local_version = conflict_version db from_local local owner (some local_device_name);
  remote_version = conflict_version db from_remote remote owner none;
}

-- The variables of a loop over the changes of one kind.
pub record Pass (T : Type 0) : Type 0 where
  pub accepted_changes : List AcceptedChange
  pub conflicts : List (SyncConflict SyncEntity)
  pub to_write : List T
  pub snapshots : List (T × Text)

pub record NotebookPass : Type 0 where
  pub pass : Pass Notebook
  pub active : Table Text Notebook
  pub deleted_ids : List Text

-- Pushes of a record and of its reason onto the lists, as the verdict says.
module _ (uuid : ℕ → Text) (tx : Db) (owner device_name : Text) {T : Type 0} (kind : EntityKind)
    (wrap : T → SyncEntity) where
  unfoldable pub settle : Pass T → Verdict T → Pass T
  settle p (refuse local remote reason) = record p {
    conflicts =
        p.conflicts
        ++ make_conflict (uuid (length p.conflicts)) tx kind (wrap local) (wrap remote) device_name
            owner reason
          ∷ [];
    snapshots = p.snapshots ++ (local, lit "conflict") ∷ (remote, lit "conflict") ∷ [];
  }
  settle p (keep r) = record p {
    accepted_changes = p.accepted_changes ++ accepted kind (wrap r) ∷ [];
  }
  settle p (store r) = record p {
    accepted_changes = p.accepted_changes ++ accepted kind (wrap r) ∷ [];
    to_write = p.to_write ++ r ∷ [];
    snapshots = p.snapshots ++ (r, lit "push") ∷ [];
  }
