-- ===== src/Repository/Push.antt =====
-- `pushChanges`: the loop over the notebooks of a push, then the loop over its notes, in one write
-- transaction; an error leaves the store as it was. What the program does not implement, or takes from
-- its surroundings, is the record `Host`.
pub mod Commit
pub mod Accounting
pub mod Loops
pub mod Isolation
pub mod Consistency
use author.Repository.Answers.{NotebookPass, Pass, settle}
use author.Common.{
  ℕ, Bool, false, not, ◌&&◌, ◌||◌, Option, none, some, List, [], ◌∷◌, map, Text, for_each, flat_map,
  keep_if, is_some, text_Eq, if◌then◌else◌,
}
use author.Common.Dedup.{contains}
use author.Common.Table.{Table, get, put}
use author.Schema.{Note, Notebook}
use author.ApiTypes.{
  note, notebook, note_kind, notebook_kind, EntityChange, PushRequest, PushResponse,
}
use author.Repository.Store.{Db, Tombstone}
use author.Repository.Refs.{note_notebook_ids}
use author.Repository.Log.{get_entity_tombstones_by_ids}
use author.Repository.Queries.{get_notes_by_ids, get_notebooks_by_ids}
use author.Repository.Writes.{
  put_notes, put_notebooks, save_note_snapshots, save_notebook_snapshots,
}
use author.Repository.Devices.{
  Result, ok, err, duplicate_id, record_limit_exceeded, upsert_device, ◌>>=◌,
}
use author.Repository.Duplicates.{
  get_active_notebook_duplicate_candidates, first_notebook_duplicate,
  first_accepted_notebook_duplicate, remember_accepted_notebook, is_deleted_notebook,
}
use author.Repository.Verdicts.{
  PushOptions, Verdict, refuse, keep, store, judge_note, judge_notebook,
  note_with_syncable_notebook_refs,
}

-- `Date.parse`, `a.localeCompare(b) >= 0`, `toLocaleLowerCase`, SQL's `lower(trim(name))`, the n-th
-- `randomUUID()`, the clock in the snapshot writers, and `checkRecordLimits` (record-limits.ts).
pub record Host : Type 0 where
  pub parse_date : Text → Option ℕ
  pub not_before : Text → Text → Bool
  pub lower_case : Text → Text
  pub sql_name : Text → Text
  pub uuid : ℕ → Text
  pub notebook_snapshot_time : Text
  pub note_snapshot_time : Text
  pub limits_exceeded : Db → Text → PushRequest → Bool

unfoldable pub has_repeated_id : List Text → Bool
has_repeated_id [] = false
has_repeated_id (id ∷ ids) = contains ids id || has_repeated_id ids

abbrev pub change_ids : List (EntityChange Note) → List Text
change_ids changes = map (λ c. c.entity.id) changes

abbrev pub notebook_change_ids : List (EntityChange Notebook) → List Text
notebook_change_ids changes = map (λ c. c.entity.id) changes

unfoldable pub assert_unique_push_change_ids : PushRequest → Result (Unit {0})
assert_unique_push_change_ids request =
    if has_repeated_id (notebook_change_ids request.notebooks)
    then err (duplicate_id notebook_kind)
    else if has_repeated_id (change_ids request.notes)
    then err (duplicate_id note_kind)
    else ok tt

module _ (host : Host) (options : PushOptions) (owner : Text) where
  -- The stored record of a change, or else its tombstone.
  abbrev note_verdict :
      Table Text Note
      → Table Text Tombstone
      → Table Text Notebook
      → EntityChange Note
      → Verdict Note
  note_verdict remotes tombstones notebooks change =
      judge_note host.parse_date host.not_before options change.entity
        (note_with_syncable_notebook_refs change.entity notebooks) change.base_version
        (get remotes change.entity.id) (get tombstones change.entity.id)

  abbrev drop_deleted : List Text → Option Notebook → Option Notebook
  drop_deleted deleted_ids none = none
  drop_deleted deleted_ids (some b) = if contains deleted_ids b.id then none else some b

  abbrev prefer : Option Notebook → Option Notebook → Option Notebook
  prefer none other = other
  prefer (some b) other = some b

  -- `inRequestDuplicate`, `duplicateCandidate` and `duplicate`
  unfoldable pub duplicate_of :
      Table Text (List Notebook) → NotebookPass → Notebook → Option Notebook
  duplicate_of candidates p b =
      if is_deleted_notebook b
      then none
      else drop_deleted p.deleted_ids (
          prefer (first_accepted_notebook_duplicate host.lower_case host.sql_name p.active b)
            (first_notebook_duplicate host.lower_case host.sql_name b candidates))

  abbrev notebook_verdict :
      Table Text Notebook
      → Table Text Tombstone
      → Table Text (List Notebook)
      → NotebookPass
      → EntityChange Notebook
      → Verdict Notebook
  notebook_verdict remotes tombstones candidates p change =
      judge_notebook host.parse_date host.not_before options change.entity change.base_version
        (duplicate_of candidates p change.entity) (get remotes change.entity.id)
        (get tombstones change.entity.id)

  -- An accepted notebook takes its names, or, deleted, sets them free.
  abbrev note_accepted : NotebookPass → Notebook → NotebookPass
  note_accepted p b =
      if is_deleted_notebook b
      then record p { deleted_ids = b.id ∷ p.deleted_ids }
      else record p { active = remember_accepted_notebook host.lower_case host.sql_name p.active b }

  abbrev remember : NotebookPass → Verdict Notebook → NotebookPass
  remember p (refuse local remote reason) = p
  remember p (keep b) = note_accepted p b
  remember p (store b) = note_accepted p b

  module _ (tx : Db) (device_name : Text) where
    -- One round of each loop.
    unfoldable pub push_notebook :
        Table Text Notebook
        → Table Text Tombstone
        → Table Text (List Notebook)
        → NotebookPass
        → EntityChange Notebook
        → NotebookPass
    push_notebook remotes tombstones candidates p change =
        let verdict = notebook_verdict remotes tombstones candidates p change in
        remember
          (record p {
            pass = settle host.uuid tx owner device_name notebook_kind notebook p.pass verdict;
          })
          verdict

    unfoldable pub push_note :
        Table Text Note
        → Table Text Tombstone
        → Table Text Notebook
        → Pass Note
        → EntityChange Note
        → Pass Note
    push_note remotes tombstones notebooks p change =
        settle host.uuid tx owner device_name note_kind note p
          (note_verdict remotes tombstones notebooks change)

  abbrev without_row : {T : Type 0} → Table Text T → List Text → List Text
  without_row found ids = keep_if (λ id. not (is_some (get found id))) ids

  -- The notebooks of a push: the loop's result, and the store after the writes.
  unfoldable pub push_notebooks : Text → PushRequest → Db → NotebookPass × Db
  push_notebooks now request tx =
      let ids = notebook_change_ids request.notebooks in
      let remotes = get_notebooks_by_ids tx ids owner in
      let tombstones =
        get_entity_tombstones_by_ids tx owner notebook_kind (without_row remotes ids) in
      let candidates =
        get_active_notebook_duplicate_candidates host.lower_case host.sql_name tx owner
          (map (λ (c : EntityChange Notebook). c.entity) request.notebooks) in
      let start : NotebookPass = record {
        pass = record { accepted_changes = []; conflicts = []; to_write = []; snapshots = [] };
        active = [];
        deleted_ids = [];
      } in
      let end =
        for_each (push_notebook tx request.device.name remotes tombstones candidates) start
          request.notebooks in
      (
        end,
        save_notebook_snapshots owner host.notebook_snapshot_time end.pass.snapshots
            (put_notebooks owner now end.pass.to_write tx).1,
      )

  -- The notebooks that a note may refer to: the stored ones, as the push has left them.
  abbrev syncable_notebooks : Db → PushRequest → List Notebook → Table Text Notebook
  syncable_notebooks tx request written =
      for_each (λ t (b : Notebook). put t b.id b)
        (get_notebooks_by_ids tx
          (flat_map (λ (c : EntityChange Note). note_notebook_ids c.entity) request.notes) owner)
        written

  unfoldable pub push_notes : Text → PushRequest → NotebookPass × Db → Pass Note × Db
  push_notes now request (before, tx) =
      let ids = change_ids request.notes in
      let remotes = get_notes_by_ids tx ids owner in
      let tombstones = get_entity_tombstones_by_ids tx owner note_kind (without_row remotes ids) in
      let notebooks = syncable_notebooks tx request before.pass.to_write in
      let start : Pass Note = record {
        accepted_changes = before.pass.accepted_changes;
        conflicts = before.pass.conflicts;
        to_write = [];
        snapshots = [];
      } in
      let end =
        for_each (push_note tx request.device.name remotes tombstones notebooks) start
          request.notes in
      (
        end,
        save_note_snapshots owner host.note_snapshot_time end.snapshots
            (put_notes owner now end.to_write tx).1,
      )

  abbrev response : Text → Pass Note → PushResponse
  response now p = record {
    server_time = now;
    accepted = p.accepted_changes;
    conflicts = p.conflicts;
  }

  abbrev check_limits : PushRequest → Db → Result (Unit {0})
  check_limits request db =
      if options.enforce_record_limits && host.limits_exceeded db owner request
      then err record_limit_exceeded
      else ok tt

  abbrev commit : Text → PushRequest → Db → PushResponse × Db
  commit now request tx =
      let end = push_notes now request (push_notebooks now request tx) in
      (response now end.0, end.1)

  unfoldable pub push_changes : Text → PushRequest → Db → Result (PushResponse × Db)
  push_changes now request db = do
    unique ← assert_unique_push_change_ids request
    within ← check_limits request db
    tx ← upsert_device owner request.device now db
    ok (commit now request tx)
