-- ===== src/Repository/Verdicts.antt =====
-- What `pushChanges` decides about one record of a push: it is refused with a conflict, the stored
-- record is kept as it is, or the pushed record is stored under a new version.
use author.Common.{
  ℕ, ◌+◌, Bool, true, false, not, ◌&&◌, ◌||◌, Option, none, some, Text, truthy?, text_Eq, head?,
  keep_if, max, ltb, ◌==◌, if◌then◌else◌,
}
use author.Common.Table.{Table, get}
use author.Schema.{Note, Notebook, synced}
use author.ApiTypes.{SyncEntity, note, notebook, Reason, deleted_remotely, duplicate_name}
use author.SyncSpec.{records_differ, should_conflict, next_version_after}
use author.Repository.Store.{Tombstone}
use author.Repository.Refs.{note_notebook_ids, note_notebook_refs_changed}

pub record PushOptions : Type 0 where
  pub allow_tombstone_overwrite : Bool
  pub preserve_record_versions : Bool
  pub preserve_new_record_versions : Bool
  pub enforce_record_limits : Bool

abbrev pub default_options : PushOptions
default_options = record {
  allow_tombstone_overwrite = false;
  preserve_record_versions = false;
  preserve_new_record_versions = false;
  enforce_record_limits = false;
}

abbrev pub preserves_versions : PushOptions → Bool
preserves_versions options =
    options.preserve_record_versions || options.preserve_new_record_versions

pub data Verdict (T : Type 0) : Type 0 where
  refuse : T → T → Option Reason → Verdict T
  keep : T → Verdict T
  store : T → Verdict T

unfoldable pub deleted_remote_note : Note → Tombstone → Note
deleted_remote_note local t = record local {
  deleted_at = some t.deleted_at;
  updated_at = t.deleted_at;
  device_id = t.device_id;
  version = t.version;
  sync_status = synced;
}

unfoldable pub deleted_remote_notebook : Notebook → Tombstone → Notebook
deleted_remote_notebook local t = record local {
  deleted_at = some t.deleted_at;
  updated_at = t.deleted_at;
  device_id = t.device_id;
  version = t.version;
  sync_status = synced;
}

-- The comparison by dates, where both are valid and differ; otherwise by versions, then by devices.
abbrev newer_than_tombstone : Option ℕ → Option ℕ → ℕ → ℕ → Bool → Bool
newer_than_tombstone (some s) (some t) version tomb_version by_device =
    if s == t
    then (if version == tomb_version then by_device else ltb tomb_version version)
    else ltb t s
newer_than_tombstone _ _ version tomb_version by_device =
    if version == tomb_version then by_device else ltb tomb_version version

-- `parse_date` is `Date.parse`, and `not_before` is `a.localeCompare(b) >= 0`.
module _ (parse_date : Text → Option ℕ) (not_before : Text → Text → Bool) where
  unfoldable pub tombstone_overwrite_allowed : Text → ℕ → Text → Tombstone → ℕ → PushOptions → Bool
  tombstone_overwrite_allowed updated_at version device_id t base_version options =
      if base_version == t.version
      then true
      else if not options.allow_tombstone_overwrite
      then false
      else newer_than_tombstone (parse_date updated_at) (parse_date t.deleted_at) version t.version
          (not_before device_id t.device_id)

unfoldable pub accepted_new_record_version : ℕ → PushOptions → ℕ
accepted_new_record_version version options =
    if preserves_versions options then max version 1 else 1

-- The version under which an accepted record is stored.
unfoldable pub stored_version : ℕ → Option ℕ → Option Tombstone → PushOptions → ℕ
stored_version version (some remote_version) t options =
    if preserves_versions options then version else remote_version + 1
stored_version version none (some t) options = next_version_after t.version
stored_version version none none options = accepted_new_record_version version options

abbrev version_of_note : Option Note → Option ℕ
version_of_note none = none
version_of_note (some n) = some n.version

abbrev version_of_notebook : Option Notebook → Option ℕ
version_of_notebook none = none
version_of_notebook (some b) = some b.version

-- The pushed record brings nothing new: `!recordsDiffer(…) && (!preserves || equal versions)`.
abbrev pub is_unchanged : SyncEntity → SyncEntity → ℕ → ℕ → PushOptions → Bool
is_unchanged pushed remote version remote_version options =
    not (records_differ pushed remote)
    && (not (preserves_versions options) || version == remote_version)

abbrev pub live_notebook : Table Text Notebook → Text → Bool
live_notebook notebooks id = elim (get notebooks id) [
  | none ↦ false
  | some b ↦ not (truthy? b.deleted_at)
]

-- noteWithSyncableNotebookRefsFromMap
unfoldable pub note_with_syncable_notebook_refs : Note → Table Text Notebook → Note × Bool
note_with_syncable_notebook_refs n notebooks =
    let ids = keep_if (live_notebook notebooks) (note_notebook_ids n) in
    let normalized : Note = record n { notebook_ids = ids; notebook_id = head? ids } in
    (normalized, note_notebook_refs_changed n normalized)

module _ (parse_date : Text → Option ℕ) (not_before : Text → Text → Bool)
    (options : PushOptions) where
  abbrev accept_note : Note → Bool → Option Note → Option Tombstone → Verdict Note
  accept_note n changed none t =
      store (record n { version = stored_version n.version none t options; sync_status = synced })
  accept_note n changed (some remote) t =
      if not changed && is_unchanged (note n) (note remote) n.version remote.version options
      then keep remote
      else store (record n {
        version = stored_version n.version (some remote.version) t options;
        sync_status = synced;
      })

  abbrev buried_note : Note → Note × Bool → ℕ → Option Tombstone → Verdict Note
  buried_note pushed (n, changed) base none = accept_note n changed none none
  buried_note pushed (n, changed) base (some t) =
      if tombstone_overwrite_allowed parse_date not_before n.updated_at n.version n.device_id t base
        options
      then accept_note n changed none (some t)
      else refuse pushed (deleted_remote_note pushed t) (some deleted_remotely)

  -- The pushed note, the note with its syncable references, the base version, what is stored.
  unfoldable pub judge_note : Note → Note × Bool → ℕ → Option Note → Option Tombstone → Verdict Note
  judge_note pushed refs base none t = buried_note pushed refs base t
  judge_note pushed (n, changed) base (some remote) t =
      if should_conflict (note n) (some (note remote)) base
      then refuse n remote none
      else accept_note n changed (some remote) none

  abbrev accept_notebook : Notebook → Option Notebook → Option Tombstone → Verdict Notebook
  accept_notebook b none t =
      store (record b { version = stored_version b.version none t options; sync_status = synced })
  accept_notebook b (some remote) t =
      if is_unchanged (notebook b) (notebook remote) b.version remote.version options
      then keep remote
      else store (record b {
        version = stored_version b.version (some remote.version) t options;
        sync_status = synced;
      })

  abbrev unless_duplicate :
      Notebook → Option Notebook → Option Notebook → Option Tombstone → Verdict Notebook
  unless_duplicate b none remote t = accept_notebook b remote t
  unless_duplicate b (some duplicate) remote t = refuse b duplicate (some duplicate_name)

  -- The pushed notebook, the base version, an active notebook of its name, what is stored.
  unfoldable pub judge_notebook :
      Notebook → ℕ → Option Notebook → Option Notebook → Option Tombstone → Verdict Notebook
  judge_notebook b base duplicate (some remote) t =
      if should_conflict (notebook b) (some (notebook remote)) base
      then refuse b remote none
      else unless_duplicate b duplicate (some remote) none
  judge_notebook b base duplicate none none = unless_duplicate b duplicate none none
  judge_notebook b base duplicate none (some t) =
      if tombstone_overwrite_allowed parse_date not_before b.updated_at b.version b.device_id t base
        options
      then unless_duplicate b duplicate none (some t)
      else refuse b (deleted_remote_notebook b t) (some deleted_remotely)
