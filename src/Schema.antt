-- ===== src/Schema.antt =====
-- packages/schema/src/index.ts: notes, notebooks and devices. An optional or nullable field is an
-- `Option`; a time stamp is its text.
use author.Common.{ℕ, Bool, Option, List, Text}

pub data SyncStatus : Type 0 where
  synced pending conflict deleted : SyncStatus

pub record Note : Type 0 where
  pub id : Text
  pub title : Text
  pub body : Text
  pub title_hash : Option Text
  pub body_hash : Option Text
  pub notebook_ids : List Text
  pub notebook_id : Option Text
  pub created_at : Text
  pub updated_at : Text
  pub deleted_at : Option Text
  pub trashed_at : Option Text
  pub is_favorite : Bool
  pub device_id : Text
  pub version : ℕ
  pub sync_status : SyncStatus

pub record Notebook : Type 0 where
  pub id : Text
  pub name : Text
  pub name_hash : Option Text
  pub created_at : Text
  pub updated_at : Text
  pub deleted_at : Option Text
  pub device_id : Text
  pub version : ℕ
  pub sync_status : SyncStatus

pub record Device : Type 0 where
  pub id : Text
  pub name : Text

abbrev pub note_retention_days : ℕ
note_retention_days = 90

abbrev pub version_snapshot_retention_days : ℕ
version_snapshot_retention_days = 365
