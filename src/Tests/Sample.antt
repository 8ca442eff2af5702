-- ===== src/Tests/Sample.antt =====
-- Sample records, a host with fixed answers, and the run of a push in it.
pub mod Empty
use author.Common.{
  ◌≡◌, refl, ◌∙◌, Bool, true, ℕ, false, none, some, [], ◌∷◌, Text, lit, text_eq, text_le,
}
use author.Schema.{Note, Notebook, Device, synced}
use author.ApiTypes.{PushRequest, PushResponse}
use author.SyncSpec.{
  records_differ, notes_differ, notebooks_differ, field_differs, should_conflict,
  next_version_after, preview_text, collapse_spaces,
}
use author.SyncSpec
use author.Common.{trim, is_space, join, text_eq?}
use author.Common.Sort.{sort_texts}
use author.Common.Dedup.{dedup, contains}
use author.Common.Table.{get, put, upsert, remove_if}
use author.Repository.Store.{Db, empty_db, key_eq, entity_key_eq}
use author.Repository.Refs
use author.Repository.Refs.{to_note, to_notebook, note_row, notebook_row}
use author.Repository.Chunks.{chunks}
use author.Repository.Log.{
  record_entity_change, latest_entity_change, latest_entity_operation, unique_entity_ids,
  get_entity_tombstones_by_ids, clear_entity_tombstones_by_ids,
}
use author.Repository.Queries.{get_device_name, get_notes_by_ids, get_notebooks_by_ids}
use author.Repository.Writes.{
  insert_rows, record_entity_changes, put_notes, put_notebooks, save_note_snapshots,
  save_notebook_snapshots,
}
use author.Repository.Devices.{Result, ok, err, upsert_device}
use author.Repository.Duplicates.{
  is_encrypted_notebook_name, add_notebook_duplicate_candidate, first_some,
  notebook_duplicate_name_key, notebook_duplicate_keys, get_active_notebook_duplicate_candidates,
  first_notebook_duplicate, first_accepted_notebook_duplicate, remember_accepted_notebook,
}
use author.Repository.Verdicts.{
  default_options, deleted_remote_note, deleted_remote_notebook, tombstone_overwrite_allowed,
  accepted_new_record_version, stored_version, note_with_syncable_notebook_refs, judge_note,
  judge_notebook,
}
use author.Repository.Push.{
  Host, has_repeated_id, assert_unique_push_change_ids, duplicate_of, push_notebook, push_note,
  push_notebooks, push_notes, push_changes,
}
use author.Repository.Answers.{accepted, conflict_version, make_conflict, settle}
use Prim.Native.String.{String}

abbrev pub sample_host : Host
sample_host = record {
  parse_date = λ _. none;
  not_before = λ a b. text_le b a;
  lower_case = λ s. s;
  sql_name = λ s. s;
  uuid = λ n. n ∷ [];
  notebook_snapshot_time = lit "2026-01-02";
  note_snapshot_time = lit "2026-01-02";
  limits_exceeded = λ db owner request. false;
}

abbrev pub phone : Device
phone = record { id = lit "phone"; name = lit "Phone" }

abbrev pub sample_note : String → String → ℕ → Note
sample_note id body version = record {
  id = lit id;
  title = lit "T";
  body = lit body;
  title_hash = none;
  body_hash = none;
  notebook_ids = lit "nb" ∷ [];
  notebook_id = some (lit "nb");
  created_at = lit "2026-01-01";
  updated_at = lit "2026-01-01";
  deleted_at = none;
  trashed_at = none;
  is_favorite = false;
  device_id = lit "phone";
  version = version;
  sync_status = synced;
}

abbrev pub sample_notebook : String → String → Notebook
sample_notebook id name = record {
  id = lit id;
  name = lit name;
  name_hash = none;
  created_at = lit "2026-01-01";
  updated_at = lit "2026-01-01";
  deleted_at = none;
  device_id = lit "phone";
  version = 1;
  sync_status = synced;
}

-- A notebook, and two notes in it.
abbrev pub first_push : PushRequest
first_push = record {
  device = phone;
  notes =
      record { entity = sample_note "n1" "one" 1; base_version = 0 }
      ∷ record { entity = sample_note "n2" "two" 1; base_version = 0 }
      ∷ [];
  notebooks = record { entity = sample_notebook "nb" "Work"; base_version = 0 } ∷ [];
}

-- A change of `n1` that is based on its version, and one of `n2` that is not.
abbrev pub second_push : PushRequest
second_push = record {
  device = phone;
  notes =
      record { entity = sample_note "n1" "one more" 2; base_version = 1 }
      ∷ record { entity = sample_note "n2" "too late" 2; base_version = 0 }
      ∷ [];
  notebooks = [];
}

abbrev pub me : Text
me = lit "me"

unfoldable pub run_push : PushRequest → Db → Result (PushResponse × Db)
unfolding push_changes assert_unique_push_change_ids has_repeated_id upsert_device push_notebooks
    push_notes push_notebook push_note duplicate_of settle make_conflict conflict_version accepted
    judge_note judge_notebook note_with_syncable_notebook_refs stored_version
    accepted_new_record_version tombstone_overwrite_allowed deleted_remote_note
    deleted_remote_notebook remember_accepted_notebook first_accepted_notebook_duplicate
    first_notebook_duplicate get_active_notebook_duplicate_candidates notebook_duplicate_keys
    notebook_duplicate_name_key first_some add_notebook_duplicate_candidate
    is_encrypted_notebook_name save_notebook_snapshots save_note_snapshots put_notebooks put_notes
    record_entity_changes insert_rows get_notebooks_by_ids get_notes_by_ids get_device_name
    clear_entity_tombstones_by_ids get_entity_tombstones_by_ids unique_entity_ids
    latest_entity_operation latest_entity_change record_entity_change chunks notebook_row note_row
    to_notebook to_note key_eq entity_key_eq remove_if put upsert get contains dedup sort_texts join
    text_eq? text_eq trim is_space text_le next_version_after preview_text collapse_spaces
    records_differ notes_differ notebooks_differ field_differs should_conflict
    Refs.note_notebook_ids Refs.normalized_notebook_ids Refs.normalized_notebook_id
    Refs.note_notebook_ids_from_row Refs.note_notebook_refs_changed SyncSpec.note_notebook_ids
    SyncSpec.normalized_notebook_ids SyncSpec.normalized_notebook_id
run_push request db = push_changes sample_host default_options me (lit "2026-01-02") request db

abbrev pub response_of : Result (PushResponse × Db) → PushResponse
response_of (ok (response, db)) = response
response_of (err e) = record { server_time = []; accepted = []; conflicts = [] }

abbrev pub store_of : Result (PushResponse × Db) → Db
store_of (ok (response, db)) = db
store_of (err e) = empty_db

-- The store after the first push.
unfoldable pub first_store : Db
unfolding run_push
first_store = store_of (run_push first_push empty_db)

abbrev is_ok : Result (PushResponse × Db) → Bool
is_ok (ok out) = true
is_ok (err e) = false

of_is_ok :
    (result : Result (PushResponse × Db))
    → is_ok result ≡ true
    → result ≡ ok (response_of result, store_of result)
of_is_ok (ok (response, db)) h = refl
of_is_ok (err e) h = absurd (cc)

run_push-eq :
    (request : PushRequest) (db : Db)
    → push_changes sample_host default_options me (lit "2026-01-02") request db
      ≡ run_push request db
unfolding run_push
run_push-eq request db = refl

-- A sample push that does not fail.
pub run_push-ok :
    (request : PushRequest) (db : Db)
    → is_ok (run_push request db) ≡ true
    → push_changes sample_host default_options me (lit "2026-01-02") request db
      ≡ ok (response_of (run_push request db), store_of (run_push request db))
run_push-ok request db h = run_push-eq request db ∙ of_is_ok (run_push request db) h
