-- ===== src/Client/Merge.antt =====
-- `mergeRemoteNote` and `mergeRemoteNotebook` of sync-store.ts. Encryption is the record `Crypto`; an
-- encrypted or decrypted record keeps its id. While a record is decrypted and encrypted the rest of the
-- program may write to the store: `interfere` is what it does between the read of the local record and
-- its use.
pub mod Keeps
pub mod Adopts
use author.Common.{
  ℕ, ◌<◌, Bool, true, false, not, ◌&&◌, ◌||◌, Option, none, some, List, [], ◌∷◌, Text, text_eq,
  text_eq?, text_Eq, ltb, ◌==◌, if◌then◌else◌, or_else,
}
use author.Common.Table.{Table, get, put}
use author.Schema.{Note, Notebook, Device, SyncStatus, synced, pending}
use author.ApiTypes.{
  SyncEntity, note, SyncConflict, ConflictVersion, from_local, from_remote, remote_changed,
}
use author.SyncSpec.{next_version_after, preview_text, records_differ}
use author.Client.Store.{
  LocalRow, Shelf, Fields, is_pending, is_unsynced, note_fields, notebook_fields,
}
use author.Client.Conflicts.{Outcome, save_conflict}

-- `decryptNoteFields`, `encryptNoteFields` (`none` where they throw), the check for texts of an
-- unsupported version, and the encryption of a conflict.
pub record Crypto (T : Type 0) : Type 0 where
  pub decrypt : T → Option T
  pub encrypt : T → Option T
  pub is_unsupported : T → Bool
  pub needs_republish : T → T → Bool
  pub encrypt_conflict : SyncConflict SyncEntity → SyncConflict SyncEntity

-- The fields of a note that `isUnsupportedEncryptedText` looks at, and
-- `noteNeedsEncryptionRepublish`; the same for a notebook.
abbrev pub note_is_unsupported : (Text → Bool) → Note → Bool
note_is_unsupported unsupported n = unsupported n.title || unsupported n.body

abbrev pub note_needs_republish : (Text → Bool) → Note → Note → Bool
note_needs_republish current remote stored =
    not (current remote.title)
    || not (current remote.body)
    || not (text_eq? remote.title_hash stored.title_hash)
    || not (text_eq? remote.body_hash stored.body_hash)

abbrev pub notebook_is_unsupported : (Text → Bool) → Notebook → Bool
notebook_is_unsupported unsupported b = unsupported b.name

abbrev pub notebook_needs_republish : (Text → Bool) → Notebook → Notebook → Bool
notebook_needs_republish current remote stored =
    not (current remote.name) || not (text_eq? remote.name_hash stored.name_hash)

-- This device, the names of the known ones, a fresh id, the time now, the time of the response.
pub record Session : Type 0 where
  pub device : Device
  pub devices : Table Text Device
  pub new_id : Text
  pub now : Text
  pub synced_at : Text

abbrev name_of : Text → Option Device → Text
name_of id none = id
name_of id (some d) = d.name

module _ {T : Type 0} (F : Fields T) (crypto : Crypto T) (session : Session) where
  -- `remoteLocal`: the record as it is stored if nothing local stands against it.
  unfoldable pub arrived : T → T → T → LocalRow T
  arrived remote plain stored =
      let republish = crypto.needs_republish remote stored in
      let favored = F.with_favorite_of stored plain in
      record {
        entity =
            if republish
            then F.with_status
                (F.with_version (F.with_device favored session.device.id)
                  (next_version_after (F.version remote)))
                pending
            else F.with_status favored synced;
        last_synced_version = F.version remote;
        last_synced_at = some session.synced_at;
      }

  abbrev conflict_side : Bool → T → T → Text → ConflictVersion SyncEntity
  conflict_side is_local row plain device_name = record {
    source = if is_local then from_local else from_remote;
    device_id = F.device_id row;
    device_name = device_name;
    updated_at = F.updated_at row;
    version = F.version row;
    preview_text = preview_text (F.wrap plain);
    entity = F.wrap plain;
  }

  unfoldable pub merge_conflict : T → T → T → T → SyncConflict SyncEntity
  merge_conflict local local_plain remote remote_plain = record {
    id = session.new_id;
    entity_kind = F.kind;
    entity_id = F.id remote;
    reason = remote_changed;
    local_version = conflict_side true local local_plain session.device.name;
    remote_version =
        conflict_side false remote remote_plain
          (name_of (F.device_id remote) (get session.devices (F.device_id remote)));
  }

  module _ (interfere : Shelf T → Shelf T) (interfere_saving : ℕ → Shelf T → Shelf T) where
    -- A pending local record that differs, and was based on another version.
    abbrev pub stands_against : LocalRow T → T → T → T → Bool
    stands_against local local_plain remote remote_plain =
        is_pending (F.status local.entity)
        && (not (local.last_synced_version == F.version remote)
            && records_differ (F.wrap local_plain) (F.wrap remote_plain))

    abbrev pub catch_up : LocalRow T → T → LocalRow T
    catch_up local remote = record local {
      last_synced_version = F.version remote;
      last_synced_at = some session.synced_at;
    }

    abbrev keep_own : LocalRow T → T → Shelf T → Shelf T
    keep_own local remote s =
        if ltb local.last_synced_version (F.version remote)
        then record s { rows = put s.rows (F.id remote) (catch_up local remote) }
        else s

    abbrev adopt : LocalRow T → LocalRow T → T → Shelf T → Shelf T
    adopt local incoming remote s =
        if is_unsynced (F.status local.entity)
        then s
        else record s { rows = put s.rows (F.id remote) incoming }

    unfoldable pub merge_over : LocalRow T → T → T → T → LocalRow T → Shelf T → Outcome (Shelf T)
    merge_over local local_plain remote remote_plain incoming s =
        if stands_against local local_plain remote remote_plain
        then (if text_eq (F.device_id remote) session.device.id
            then (keep_own local remote s, true)
            else save_conflict F crypto.encrypt_conflict session.now
                (merge_conflict local.entity local_plain remote remote_plain) none interfere_saving
                s)
        else (adopt local incoming remote s, true)

    abbrev merge_local : Option (LocalRow T) → T → T → LocalRow T → Shelf T → Outcome (Shelf T)
    merge_local none remote remote_plain incoming s =
        (record s { rows = put s.rows (F.id remote) incoming }, true)
    merge_local (some local) remote remote_plain incoming s = elim (crypto.decrypt local.entity) [
      | none ↦ (s, false)
      | some local_plain ↦ merge_over local local_plain remote remote_plain incoming s
    ]

    -- `false` is an error, after which the merge of the page stops.
    unfoldable pub merge_remote : T → Shelf T → Outcome (Shelf T)
    merge_remote remote s =
        if crypto.is_unsupported remote then (s, false) else elim (crypto.decrypt remote) [
          | none ↦ (interfere s, false)
          | some plain ↦ elim (crypto.encrypt plain) [
            | none ↦ (interfere s, false)
            | some stored ↦
                merge_local (get s.rows (F.id remote)) remote plain (arrived remote plain stored)
                  (interfere s)
          ]
        ]
