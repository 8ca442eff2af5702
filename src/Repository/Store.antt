-- ===== src/Repository/Store.antt =====
-- The tables that repository.ts reads and writes. A row's primary key is the key of its table; the
-- rows of `entity_changes` stand newest first, that is by falling `revision`, its primary key.
-- `notebook_ids` is the parsed column: `none` where it is empty or is no JSON array.
use author.Common.{
  ℕ, ◌≡◌, ◌↔◌, Bool, true, false, ◌&&◌, Option, List, [], Text, text_eq, text_eq_iff, Eq, arith,
}
use author.Common.Table.{Table}
use author.ApiTypes.{EntityKind, device_kind, note_kind, notebook_kind}

pub record Key : Type 0 where
  pub owner : Text
  pub id : Text

pub record EntityKey : Type 0 where
  pub owner : Text
  pub kind : EntityKind
  pub id : Text

abbrev pub kind_eq : EntityKind → EntityKind → Bool
kind_eq device_kind device_kind = true
kind_eq note_kind note_kind = true
kind_eq notebook_kind notebook_kind = true
kind_eq _ _ = false

unfoldable pub key_eq : Key → Key → Bool
key_eq j k = text_eq j.owner k.owner && text_eq j.id k.id

pub key_eq_iff : (j k : Key) → (key_eq j k ≡ true) ↔ (j ≡ k)
unfolding key_eq
key_eq_iff j k = ground (arith, text_eq_iff j.owner k.owner, text_eq_iff j.id k.id)

unfoldable pub entity_key_eq : EntityKey → EntityKey → Bool
entity_key_eq j k = text_eq j.owner k.owner && (kind_eq j.kind k.kind && text_eq j.id k.id)

pub entity_key_eq_iff : (j k : EntityKey) → (entity_key_eq j k ≡ true) ↔ (j ≡ k)
unfolding entity_key_eq
entity_key_eq_iff j k = ground (arith, text_eq_iff j.owner k.owner, text_eq_iff j.id k.id)

instance abbrev pub key_Eq : Eq Key
key_Eq = record { equals = key_eq; equals_iff = key_eq_iff }

instance abbrev pub entity_key_Eq : Eq EntityKey
entity_key_Eq = record { equals = entity_key_eq; equals_iff = entity_key_eq_iff }

pub data Operation : Type 0 where
  upserted deleted : Operation

pub record NoteRow : Type 0 where
  pub title : Text
  pub body : Text
  pub title_hash : Option Text
  pub body_hash : Option Text
  pub notebook_ids : Option (List Text)
  pub notebook_id : Option Text
  pub created_at : Text
  pub updated_at : Text
  pub deleted_at : Option Text
  pub trashed_at : Option Text
  pub retention_started_at : Option Text
  pub is_favorite : Bool
  pub device_id : Text
  pub version : ℕ

pub record NotebookRow : Type 0 where
  pub name : Text
  pub name_hash : Option Text
  pub created_at : Text
  pub updated_at : Text
  pub deleted_at : Option Text
  pub retention_started_at : Option Text
  pub device_id : Text
  pub version : ℕ

pub record DeviceRow : Type 0 where
  pub name : Text
  pub last_seen_at : Text

pub record Tombstone : Type 0 where
  pub deleted_at : Text
  pub device_id : Text
  pub version : ℕ

pub record Change : Type 0 where
  pub revision : ℕ
  pub key : EntityKey
  pub operation : Operation
  pub updated_at : Text

-- A row of `note_versions` or `notebook_versions`.
pub record Snapshot (Row : Type 0) : Type 0 where
  pub key : Key
  pub row : Row
  pub saved_at : Text
  pub reason : Text

pub record Db : Type 0 where
  pub notes : Table Key NoteRow
  pub notebooks : Table Key NotebookRow
  pub devices : Table Key DeviceRow
  pub tombstones : Table EntityKey Tombstone
  pub changes : List Change
  pub next_revision : ℕ
  pub note_versions : List (Snapshot NoteRow)
  pub notebook_versions : List (Snapshot NotebookRow)
  -- (username, device_id) of `auth_sessions` and of `trusted_auth_devices`
  pub auth_sessions : List Key
  pub trusted_auth_devices : List Key

abbrev pub empty_db : Db
empty_db = record {
  notes = [];
  notebooks = [];
  devices = [];
  tombstones = [];
  changes = [];
  next_revision = 1;
  note_versions = [];
  notebook_versions = [];
  auth_sessions = [];
  trusted_auth_devices = [];
}
