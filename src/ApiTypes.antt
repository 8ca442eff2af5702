-- ===== src/ApiTypes.antt =====
-- packages/api-types/src/index.ts: the limits, and the messages of a sync push and pull.
use author.Common.{ℕ, ◌*◌, Bool, List, Text}
use author.Schema.{Note, Notebook, Device}

-- SYNC_LIMITS
abbrev pub devices_per_account : ℕ
devices_per_account = 50

abbrev pub pull_response_bytes : ℕ
pull_response_bytes = 6 * 1024 * 1024

-- SyncEntity of packages/sync-spec: a record that synchronises.
pub data SyncEntity : Type 0 where
  note : Note → SyncEntity
  notebook : Notebook → SyncEntity

pub data EntityKind : Type 0 where
  device_kind note_kind notebook_kind : EntityKind

pub record EntityChange (T : Type 0) : Type 0 where
  pub entity : T
  pub base_version : ℕ

pub record PushRequest : Type 0 where
  pub device : Device
  pub notes : List (EntityChange Note)
  pub notebooks : List (EntityChange Notebook)

pub data Source : Type 0 where
  from_local from_remote : Source

pub record ConflictVersion (T : Type 0) : Type 0 where
  pub source : Source
  pub device_id : Text
  pub device_name : Text
  pub updated_at : Text
  pub version : ℕ
  pub preview_text : Text
  pub entity : T

pub data Reason : Type 0 where
  remote_changed deleted_remotely version_mismatch duplicate_name : Reason

pub record SyncConflict (T : Type 0) : Type 0 where
  pub id : Text
  pub entity_kind : EntityKind
  pub entity_id : Text
  pub reason : Reason
  pub local_version : ConflictVersion T
  pub remote_version : ConflictVersion T

pub record AcceptedChange : Type 0 where
  pub entity_kind : EntityKind
  pub id : Text
  pub version : ℕ
  pub updated_at : Text

pub record PushResponse : Type 0 where
  pub server_time : Text
  pub accepted : List AcceptedChange
  pub conflicts : List (SyncConflict SyncEntity)

pub record PullResponse : Type 0 where
  pub server_time : Text
  pub server_revision : ℕ
  pub devices : List Device
  pub notes : List Note
  pub notebooks : List Notebook
  pub deleted_device_ids : List Text
  pub deleted_note_ids : List Text
  pub deleted_notebook_ids : List Text
  pub has_more : Bool
