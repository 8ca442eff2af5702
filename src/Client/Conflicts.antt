-- ===== src/Client/Conflicts.antt =====
-- `saveConflict` and `absorbSameDevicePushConflict` of sync-store.ts. While a conflict is encrypted the
-- rest of the program may write to the store: `interfere n` is what it does in the attempt that has n
-- attempts after it.
pub mod Saved
use author.Common.{
  ℕ, zero, suc, Bool, true, false, not, ◌&&◌, ◌||◌, Option, none, some, Text, text_eq, text_Eq, max,
  ◌==◌, if◌then◌else◌,
}
use author.Common.Table.{Table, get, put}
use author.ApiTypes.{SyncEntity, SyncConflict, Reason, remote_changed}
use author.SyncSpec.{entity_version}
use author.Schema.{SyncStatus, pending, conflict, deleted}
use author.Client.Store.{LocalRow, LocalConflict, unresolved, Shelf, Fields, is_deleted_status}

-- The store after a call, and whether the call succeeded.
abbrev pub Outcome : Type 0 → Type 0
Outcome S = S × Bool

abbrev pub is_remote_changed : Reason → Bool
is_remote_changed remote_changed = true
is_remote_changed _ = false

module _ {T : Type 0} (F : Fields T) where
  -- `{ ...row, syncStatus: status }`
  abbrev pub with_row_status : LocalRow T → SyncStatus → LocalRow T
  with_row_status row status = record row { entity = F.with_status row.entity status }

  -- The version and the time of the last change are those given.
  abbrev pub is_version : LocalRow T → ℕ → Text → Bool
  is_version row version updated_at =
      F.version row.entity == version && text_eq (F.updated_at row.entity) updated_at

  -- The local side of the conflict is the record as it is stored now.
  unfoldable pub current_conflict :
      SyncConflict SyncEntity → Option (LocalRow T) → SyncConflict SyncEntity
  current_conflict c none = c
  current_conflict c (some row) = record c {
    local_version = record (c.local_version) {
      device_id = F.device_id row.entity;
      updated_at = F.updated_at row.entity;
      version = F.version row.entity;
      entity = F.wrap row.entity;
    };
  }

  -- The record changed between its read and the transaction, or since it was pushed.
  abbrev pub is_stale : Option (LocalRow T) → Option (LocalRow T) → Option (ℕ × Text) → Bool
  is_stale (some current) none pushed = true
  is_stale (some current) (some latest) pushed =
      not (is_version latest (F.version current.entity) (F.updated_at current.entity))
  is_stale none (some latest) (some (version, updated_at)) =
      not (is_version latest version updated_at)
  is_stale none (some latest) none = false
  is_stale none none pushed = false

  abbrev pub mark_conflict :
      Table Text (LocalRow T) → Text → Option (LocalRow T) → Table Text (LocalRow T)
  mark_conflict rows id none = rows
  mark_conflict rows id (some latest) = put rows id (with_row_status latest conflict)

  abbrev write_conflict :
      SyncConflict SyncEntity
      → SyncConflict SyncEntity
      → Text
      → Option (LocalRow T)
      → Shelf T
      → Shelf T
  write_conflict c stored created_at latest s = record {
    rows = mark_conflict s.rows c.entity_id latest;
    conflicts = put s.conflicts c.id (record {
      id = c.id;
      entity_kind = c.entity_kind;
      entity_id = c.entity_id;
      status = unresolved;
      created_at = created_at;
      conflict = stored;
    });
  }

  module _ (encrypt_conflict : SyncConflict SyncEntity → SyncConflict SyncEntity)
      (created_at : Text) (c : SyncConflict SyncEntity) (pushed : Option (ℕ × Text))
      (interfere : ℕ → Shelf T → Shelf T) where
    -- One attempt, with `left` attempts after it: the read, what others do, the transaction.
    abbrev attempt : ℕ → Shelf T → Outcome (Shelf T) → Outcome (Shelf T)
    attempt left s again =
        let current = get s.rows c.entity_id in
        let s' = interfere left s in
        let latest = get s'.rows c.entity_id in
        if is_stale current latest pushed then again else (
          write_conflict c (encrypt_conflict (current_conflict c current)) created_at latest s',
          true,
        )

    unfoldable pub save_attempts : ℕ → Shelf T → Outcome (Shelf T)
    save_attempts zero s = (s, false)
    save_attempts (suc left) s =
        let again = save_attempts left (interfere left s) in attempt left s again

    -- `false` is the error that the record kept changing.
    unfoldable pub save_conflict : Shelf T → Outcome (Shelf T)
    unfolding save_attempts
    save_conflict s = save_attempts 3 s

  abbrev pub absorbed : Text → ℕ → LocalRow T → LocalRow T
  absorbed synced_at remote_version row = record row {
    entity =
        F.with_status row.entity
          (if is_deleted_status (F.status row.entity) then deleted else pending);
    last_synced_version = max row.last_synced_version remote_version;
    last_synced_at = some synced_at;
  }

  abbrev pub absorb_row : Text → SyncConflict SyncEntity → Shelf T → Option (LocalRow T) → Shelf T
  absorb_row synced_at c s none = s
  absorb_row synced_at c s (some row) = record s {
    rows = put s.rows c.entity_id (absorbed synced_at (entity_version c.remote_version.entity) row);
  }

  -- `true` where the conflict is with a change of this very device. The record is read, and written after
  -- what others do meanwhile.
  unfoldable pub absorb_same_device_push_conflict :
      (Shelf T → Shelf T) → Text → Text → SyncConflict SyncEntity → Shelf T → Outcome (Shelf T)
  absorb_same_device_push_conflict interfere own_device synced_at c s =
      if is_remote_changed c.reason && text_eq c.remote_version.device_id own_device
      then (absorb_row synced_at c (interfere s) (get s.rows c.entity_id), true)
      else (s, false)
