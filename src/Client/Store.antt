-- ===== src/Client/Store.antt =====
-- The tables of apps/web/src/lib/client/db.ts that a synchronisation reads and writes. What notes and
-- notebooks have in common is the record `Fields`: the program has each function once for notes and
-- once for notebooks. The key-value table `syncMeta` holds the texts of its values.
use author.Common.{ℕ, ◌≡◌, refl, Bool, true, false, not, Option, Text, text_Eq}
use author.Common.Table.{Table}
use author.Schema.{Note, Notebook, Device, SyncStatus, synced, pending, conflict, deleted}
use author.ApiTypes.{EntityKind, note_kind, notebook_kind, SyncEntity, note, notebook, SyncConflict}

-- LocalNote and LocalNotebook: a record with what the last synchronisation knew of it.
pub record LocalRow (T : Type 0) : Type 0 where
  pub entity : T
  pub last_synced_version : ℕ
  pub last_synced_at : Option Text

-- `unresolved` is the status that the program calls pending.
pub data ConflictStatus : Type 0 where
  unresolved resolved : ConflictStatus

pub record LocalConflict : Type 0 where
  pub id : Text
  pub entity_kind : EntityKind
  pub entity_id : Text
  pub status : ConflictStatus
  pub created_at : Text
  pub conflict : SyncConflict SyncEntity

pub record LocalDb : Type 0 where
  pub notes : Table Text (LocalRow Note)
  pub notebooks : Table Text (LocalRow Notebook)
  pub devices : Table Text Device
  pub conflicts : Table Text LocalConflict
  pub sync_meta : Table Text Text

-- The tables that the functions for one kind use.
pub record Shelf (T : Type 0) : Type 0 where
  pub rows : Table Text (LocalRow T)
  pub conflicts : Table Text LocalConflict

abbrev pub note_shelf : LocalDb → Shelf Note
note_shelf db = record { rows = db.notes; conflicts = db.conflicts }

abbrev pub notebook_shelf : LocalDb → Shelf Notebook
notebook_shelf db = record { rows = db.notebooks; conflicts = db.conflicts }

abbrev pub with_note_shelf : LocalDb → Shelf Note → LocalDb
with_note_shelf db s = record db { notes = s.rows; conflicts = s.conflicts }

abbrev pub with_notebook_shelf : LocalDb → Shelf Notebook → LocalDb
with_notebook_shelf db s = record db { notebooks = s.rows; conflicts = s.conflicts }

-- Reads and updates of the fields that both kinds have.
pub record Fields (T : Type 0) : Type 0 where
  pub kind : EntityKind
  pub wrap : T → SyncEntity
  pub id : T → Text
  pub device_id : T → Text
  pub updated_at : T → Text
  pub deleted_at : T → Option Text
  pub version : T → ℕ
  pub status : T → SyncStatus
  pub with_status : T → SyncStatus → T
  pub with_version : T → ℕ → T
  pub with_device : T → Text → T
  -- `isFavorite` is the one of the second record, where records have it.
  pub with_favorite_of : T → T → T

abbrev pub note_fields : Fields Note
note_fields = record {
  kind = note_kind;
  wrap = note;
  id = λ n. n.id;
  device_id = λ n. n.device_id;
  updated_at = λ n. n.updated_at;
  deleted_at = λ n. n.deleted_at;
  version = λ n. n.version;
  status = λ n. n.sync_status;
  with_status = λ n s. record n { sync_status = s };
  with_version = λ n v. record n { version = v };
  with_device = λ n d. record n { device_id = d };
  with_favorite_of = λ n m. record n { is_favorite = m.is_favorite };
}

abbrev pub notebook_fields : Fields Notebook
notebook_fields = record {
  kind = notebook_kind;
  wrap = notebook;
  id = λ b. b.id;
  device_id = λ b. b.device_id;
  updated_at = λ b. b.updated_at;
  deleted_at = λ b. b.deleted_at;
  version = λ b. b.version;
  status = λ b. b.sync_status;
  with_status = λ b s. record b { sync_status = s };
  with_version = λ b v. record b { version = v };
  with_device = λ b d. record b { device_id = d };
  with_favorite_of = λ b m. b;
}

-- What the proofs use of an update of the status.
pub record IsLawful {T : Type 0} (F : Fields T) : Type 0 where
  pub status-with_status : (t : T) (s : SyncStatus) → F.status (F.with_status t s) ≡ s
  pub with_status_again :
      (t : T) (r s : SyncStatus) → F.with_status (F.with_status t r) s ≡ F.with_status t s
  pub with_status_same : (t : T) → F.with_status t (F.status t) ≡ t
  pub with_version_same : (t : T) → F.with_version t (F.version t) ≡ t
  pub version-with_status : (t : T) (s : SyncStatus) → F.version (F.with_status t s) ≡ F.version t
  pub updated_at-with_status :
      (t : T) (s : SyncStatus) → F.updated_at (F.with_status t s) ≡ F.updated_at t

pub note_fields-IsLawful : IsLawful note_fields
note_fields-IsLawful = record {
  status-with_status = λ t s. refl;
  with_status_again = λ t r s. refl;
  with_status_same = λ t. refl;
  with_version_same = λ t. refl;
  version-with_status = λ t s. refl;
  updated_at-with_status = λ t s. refl;
}

pub notebook_fields-IsLawful : IsLawful notebook_fields
notebook_fields-IsLawful = record {
  status-with_status = λ t s. refl;
  with_status_again = λ t r s. refl;
  with_status_same = λ t. refl;
  with_version_same = λ t. refl;
  version-with_status = λ t s. refl;
  updated_at-with_status = λ t s. refl;
}

-- `syncStatus === 'pending'`, and a local change that the server has not accepted.
abbrev pub is_pending : SyncStatus → Bool
is_pending pending = true
is_pending _ = false

abbrev pub is_unsynced : SyncStatus → Bool
is_unsynced pending = true
is_unsynced conflict = true
is_unsynced synced = false
is_unsynced deleted = false

abbrev pub is_deleted_status : SyncStatus → Bool
is_deleted_status deleted = true
is_deleted_status _ = false

-- `syncStatus !== 'pending' && syncStatus !== 'conflict'`
unfoldable pub can_apply_remote_delete : SyncStatus → Bool
can_apply_remote_delete status = not (is_unsynced status)
