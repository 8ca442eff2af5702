-- ===== src/Client/Pulling.antt =====
-- `mergeRemoteChanges` of sync-store.ts and the pull loop of `runSyncUnlocked` in sync.ts. The server, the
-- encryption and what the rest of the program does to the store meanwhile are parameters. A table
-- `syncMeta` holds texts: `show` and `read` are `String` and `Number`.
pub mod Ends
pub mod Reaches
use author.Common.{
  ℕ, zero, suc, ◌+◌, Bool, true, false, not, ◌&&◌, Option, none, some, List, [], ◌∷◌, Text, lit,
  text_Eq, truthy?, length, ltb, if◌then◌else◌, Number, natural, safe_natural, or_else,
}
use author.Common.Table.{Table, get, put, remove}
use author.Schema.{Note, Notebook, Device}
use author.ApiTypes.{PullResponse}
use author.SyncSpec.Cursor.{safe_revision_cursor, moved_to, Cursor}
use author.Client.Store.{
  LocalRow, LocalDb, Shelf, Fields, note_fields, notebook_fields, note_shelf, notebook_shelf,
  with_note_shelf, with_notebook_shelf, can_apply_remote_delete,
}
use author.Client.Conflicts.{Outcome}
use author.Client.Merge.{Crypto, Session, merge_remote}
use author.Client.Deletes.{save_devices, apply_remote_deletes}
use author.Client.References.{remove_deleted_references}

abbrev pub pull_batch_size : ℕ
pull_batch_size = 1000

pub record PullRequest : Type 0 where
  pub since : Option Text
  pub since_revision : ℕ
  pub limit : ℕ

-- What the merge of one kind of records works with; the session is that of one record and response.
pub record Workings (T : Type 0) : Type 0 where
  pub crypto : Crypto T
  pub session : T → Text → Session
  pub interfere : Shelf T → Shelf T
  pub interfere_saving : ℕ → Shelf T → Shelf T
  pub interfere_references : Table Text (LocalRow Note) → Table Text (LocalRow Note)

-- A loop of merges stops at the first error.
unfoldable pub merge_all :
    {T : Type 0} → Fields T → Workings T → Text → List T → Shelf T → Outcome (Shelf T)
merge_all F w synced_at [] s = (s, true)
merge_all F w synced_at (remote ∷ remotes) s =
    let (s', merged) =
      merge_remote F w.crypto (w.session remote synced_at) w.interfere w.interfere_saving remote
        s in
    let rest = merge_all F w synced_at remotes s' in if merged then rest else (s', false)

abbrev is_deleted_here : Table Text (LocalRow Notebook) → Notebook → Bool
is_deleted_here rows b = truthy? b.deleted_at && elim (get rows b.id) [
  | none ↦ false
  | some row ↦ truthy? row.entity.deleted_at && can_apply_remote_delete row.entity.sync_status
]

unfoldable pub deleted_notebooks : Table Text (LocalRow Notebook) → List Notebook → List Text
deleted_notebooks rows [] = []
deleted_notebooks rows (b ∷ bs) =
    let rest = deleted_notebooks rows bs in if is_deleted_here rows b then b.id ∷ rest else rest

module _ (device : Device) (of_notes : Workings Note) (of_notebooks : Workings Notebook) where
  -- Notebooks come first; then the notes lose their references to the deleted ones.
  unfoldable pub merge_remote_changes : List Note → List Notebook → Text → LocalDb → Outcome LocalDb
  merge_remote_changes notes notebooks synced_at db =
      let (shelf, notebooks_merged) =
        merge_all notebook_fields of_notebooks synced_at notebooks (notebook_shelf db) in
      let db1 = with_notebook_shelf db shelf in
      let (shelf2, notes_merged) =
        merge_all note_fields of_notes synced_at notes (note_shelf db1) in
      let db2 = with_note_shelf db1 shelf2 in
      if not notebooks_merged then (db1, false) else if not notes_merged then (db2, false) else (
        record db2 {
          notes =
              remove_deleted_references of_notes.interfere_references
                (deleted_notebooks db2.notebooks notebooks) device.id synced_at db2.notes;
        },
        true,
      )

  -- The body of the loop from `saveDevices` to `removeDeletedNotebookReferences`.
  unfoldable pub apply_page : PullResponse → LocalDb → Outcome LocalDb
  apply_page r db =
      let (db1, gone) =
        apply_remote_deletes r.deleted_note_ids r.deleted_notebook_ids r.deleted_device_ids
          (save_devices r.devices db) in
      let (db2, merged) = merge_remote_changes r.notes r.notebooks r.server_time db1 in
      if merged
      then (
        record db2 {
          notes =
              remove_deleted_references of_notes.interfere_references gone device.id r.server_time
                db2.notes;
        },
        true,
      )
      else (db2, false)

-- The variables of the loop, and the store.
pub record PullState : Type 0 where
  pub db : LocalDb
  pub last_pulled_at : Option Text
  pub cursor : ℕ
  pub pulled : ℕ
  pub reset : Bool

-- What a round leads to: another one, the end of the loop, or an error that leaves it.
pub data Round : Type 0 where
  again done failed : PullState → Round

abbrev pub page_size : PullResponse → ℕ
page_size r =
    length r.notes + length r.notebooks + length r.deleted_note_ids + length r.deleted_notebook_ids

module _ (show : ℕ → Text) (device : Device) (of_notes : Workings Note)
    (of_notebooks : Workings Notebook) where
  -- The server's revision is behind the cursor: the pull starts from 0, once.
  unfoldable pub reset_cursor : PullState → PullState
  reset_cursor st = record {
    db = record (st.db) {
      sync_meta =
          remove (put st.db.sync_meta (lit "lastPulledRevision") (lit "0")) (lit "lastPulledAt");
    };
    last_pulled_at = none;
    cursor = 0;
    pulled = st.pulled;
    reset = true;
  }

  unfoldable pub after_page : PullResponse → ℕ → LocalDb → PullState → PullState
  after_page r next db st = record st {
    db = record db {
      sync_meta =
          put (put db.sync_meta (lit "lastPulledAt") r.server_time) (lit "lastPulledRevision")
            (show next);
    };
    cursor = next;
    pulled = st.pulled + page_size r;
  }

  unfoldable pub apply_at : PullResponse → PullState → Cursor → Round
  apply_at r st (moved_to next) =
      let (db, applied) = apply_page device of_notes of_notebooks r st.db in
      if applied
      then (if r.has_more then again (after_page r next db st) else done (after_page r next db st))
      else failed (record st { db = db })
  apply_at r st _ = failed st

  -- `safeRevisionCursor` throws before the page is applied.
  unfoldable pub pull_page_round : PullResponse → PullState → Round
  pull_page_round r st =
      apply_at r st
        (safe_revision_cursor (natural r.server_revision) (natural st.cursor) r.has_more)

  unfoldable pub pull_round : Option PullResponse → PullState → Round
  pull_round none st = failed st
  pull_round (some r) st =
      if ltb r.server_revision st.cursor && not st.reset
      then again (reset_cursor st)
      else pull_page_round r st

  -- The server's answer to a request, in each round; `none` is an error of the request, or a lost lease.
  module _ (server : ℕ → PullRequest → Option PullResponse) where
    abbrev pub request_of : PullState → PullRequest
    request_of st = record {
      since = st.last_pulled_at;
      since_revision = st.cursor;
      limit = pull_batch_size;
    }

    -- `none` means that the fuel ran out.
    unfoldable pub pull_loop : ℕ → PullState → Option Round
    pull_loop zero st = none
    pull_loop (suc fuel) st = elim (pull_round (server fuel (request_of st)) st) [
      | again st' ↦ pull_loop fuel st'
      | done st' ↦ some (done st')
      | failed st' ↦ some (failed st')
    ]

-- What the loop starts from: the stored cursor counts if it is a safe integer.
unfoldable pub pull_start : (Text → Number) → LocalDb → PullState
pull_start read db = record {
  db = db;
  last_pulled_at = get db.sync_meta (lit "lastPulledAt");
  cursor =
      or_else
        (elim (get db.sync_meta (lit "lastPulledRevision")) [
          | none ↦ some 0
          | some text ↦ safe_natural (read text)
        ])
        0;
  pulled = 0;
  reset = false;
}
