-- ===== src/Tests/Pull.antt =====
-- A pull from a store that holds one sample note.
use author.Common.{
  ◌≡◌, refl, ◌∙◌, or_else, ◌<◌, arith, ℕ, Bool, true, false, Option, none, some, [], ◌∷◌, lit,
  text_eq, natural, truthy, safe_natural,
}
use author.Common.Table.{get, put, upsert}
use author.ApiTypes.{PullResponse, note_kind, notebook_kind}
use author.SyncSpec.Cursor.{safe_revision_cursor, moved_to}
use author.Repository.Store.{Db, Change, empty_db, entity_key_eq, upserted}
use author.Repository.Devices.{Result, ok, err}
use author.Repository.Log.{
  entity_key, latest_entity_change, current_revision, as_revision, record_entity_change,
  clear_entity_tombstones_by_ids,
}
use author.Repository.Chunks.{chunks}
use author.Repository.Consistency.{IsConsistent}
use author.Repository.Writes.{put_notes, insert_rows, record_entity_changes, put_notebooks}
use author.Repository.Consistency.Write.{put_notes-IsConsistent, put_notebooks-IsConsistent}
use author.Repository.Pull.{
  pull_changes_since, pull_loop, pull_page, pull_limit, changes_between, latest_changes, by_entity,
  ids_with,
}
use author.Repository.Pull.Cursor.{pull_changes_since_total, pull_changes_since_cursor}
use author.Repository.Pull.Complete.{pull_changes_since_complete, TellsNote}
use author.Tests.Sample.{me, sample_note, sample_notebook}
use author.Tests.Sample.Empty.{empty_db-IsConsistent}
use author.Repository.Pull.CompleteNotebooks.{pull_changes_since_complete_notebooks, TellsNotebook}

abbrev stored : Db
stored = (put_notes me (lit "t") (sample_note "n1" "one" 1 ∷ []) empty_db).1

abbrev response_bytes : PullResponse → ℕ
response_bytes r = 1000

unfoldable pulled : Option (Result PullResponse)
unfolding pull_changes_since pull_loop pull_page pull_limit changes_between latest_changes by_entity
    ids_with put_notes insert_rows record_entity_changes record_entity_change safe_natural
    current_revision as_revision text_eq get put upsert
pulled = pull_changes_since response_bytes (lit "t") stored me (natural 0) (natural 10)

abbrev empty_response : PullResponse
empty_response = record {
  server_time = [];
  server_revision = 0;
  devices = [];
  notes = [];
  notebooks = [];
  deleted_device_ids = [];
  deleted_note_ids = [];
  deleted_notebook_ids = [];
  has_more = false;
}

abbrev response_of : Option (Result PullResponse) → PullResponse
response_of none = empty_response
response_of (some (err e)) = empty_response
response_of (some (ok r)) = r

pulled-eq : pull_changes_since response_bytes (lit "t") stored me (natural 0) (natural 10) ≡ pulled
unfolding pulled
pulled-eq = refl

abbrev is_ok : Option (Result PullResponse) → Bool
is_ok none = false
is_ok (some (err e)) = false
is_ok (some (ok r)) = true

of_is_ok : (o : Option (Result PullResponse)) → is_ok o ≡ true → o ≡ some (ok (response_of o))
of_is_ok none h = absurd (cc)
of_is_ok (some (err e)) h = absurd (cc)
of_is_ok (some (ok r)) h = refl

pulled-is_ok : is_ok pulled ≡ true
unfolding pulled chunks clear_entity_tombstones_by_ids
pulled-is_ok = refl

pulled_ok :
    pull_changes_since response_bytes (lit "t") stored me (natural 0) (natural 10)
    ≡ some (ok (response_of pulled))
pulled_ok = pulled-eq ∙ of_is_ok pulled pulled-is_ok

pulled_revision : (response_of pulled).server_revision ≡ 1
unfolding pulled chunks clear_entity_tombstones_by_ids
pulled_revision = refl

stored-IsConsistent : IsConsistent stored
stored-IsConsistent =
    put_notes-IsConsistent me (lit "t") (sample_note "n1" "one" 1 ∷ []) empty_db
      empty_db-IsConsistent

abbrev newest : Change
newest = record {
  revision = 1;
  key = entity_key me note_kind (lit "n1");
  operation = upserted;
  updated_at = lit "2026-01-01";
}

stored-newest : latest_entity_change stored (entity_key me note_kind (lit "n1")) ≡ some newest
unfolding latest_entity_change put_notes insert_rows record_entity_changes record_entity_change
    entity_key_eq text_eq chunks clear_entity_tombstones_by_ids
stored-newest = refl

stored_revision : current_revision stored me ≡ 1
unfolding current_revision as_revision put_notes insert_rows record_entity_changes
    record_entity_change text_eq chunks clear_entity_tombstones_by_ids
stored_revision = refl

n1_named : truthy (lit "n1") ≡ true
n1_named = refl

past_zero : or_else (safe_natural (natural 0)) 0 < 1
unfolding safe_natural
past_zero = omega arith

pull_changes_since_complete_example : TellsNote stored me (lit "n1") upserted (response_of pulled)
pull_changes_since_complete_example =
    pull_changes_since_complete response_bytes (lit "t") stored me (lit "n1") newest (natural 0)
      (natural 10) (response_of pulled) stored-IsConsistent n1_named stored-newest past_zero
      pulled_ok (omega (arith, pulled_revision))

pull_changes_since_cursor_example :
    safe_revision_cursor
      (natural (response_of pulled).server_revision)
      (natural 0)
      (response_of pulled).has_more
    ≡ moved_to (response_of pulled).server_revision
pull_changes_since_cursor_example =
    pull_changes_since_cursor response_bytes (lit "t") stored me 0 (natural 10) (response_of pulled)
      (omega arith) pulled_ok

pull_changes_since_total_example :
    (r : Result PullResponse) × (pull_changes_since response_bytes
        (lit "t")
        stored
        me
        (natural 0)
        (natural 10)
      ≡ some r)
pull_changes_since_total_example =
    pull_changes_since_total response_bytes (lit "t") stored me (natural 0) (natural 10)

-- A store that holds one notebook.
abbrev shelf : Db
shelf = (put_notebooks me (lit "t") (sample_notebook "nb" "Work" ∷ []) empty_db).1

unfoldable pulled_shelf : Option (Result PullResponse)
unfolding pull_changes_since pull_loop pull_page pull_limit changes_between latest_changes by_entity
    ids_with put_notebooks insert_rows record_entity_changes record_entity_change safe_natural
    current_revision as_revision text_eq get put upsert
pulled_shelf = pull_changes_since response_bytes (lit "t") shelf me (natural 0) (natural 10)

pulled_shelf-eq :
    pull_changes_since response_bytes (lit "t") shelf me (natural 0) (natural 10) ≡ pulled_shelf
unfolding pulled_shelf
pulled_shelf-eq = refl

pulled_shelf-is_ok : is_ok pulled_shelf ≡ true
unfolding pulled_shelf chunks clear_entity_tombstones_by_ids
pulled_shelf-is_ok = refl

pulled_shelf_revision : (response_of pulled_shelf).server_revision ≡ 1
unfolding pulled_shelf chunks clear_entity_tombstones_by_ids
pulled_shelf_revision = refl

shelf-IsConsistent : IsConsistent shelf
shelf-IsConsistent =
    put_notebooks-IsConsistent me (lit "t") (sample_notebook "nb" "Work" ∷ []) empty_db
      empty_db-IsConsistent

abbrev newest_on_shelf : Change
newest_on_shelf = record {
  revision = 1;
  key = entity_key me notebook_kind (lit "nb");
  operation = upserted;
  updated_at = lit "2026-01-01";
}

shelf_newest :
    latest_entity_change shelf (entity_key me notebook_kind (lit "nb")) ≡ some newest_on_shelf
unfolding latest_entity_change put_notebooks insert_rows record_entity_changes record_entity_change
    entity_key_eq text_eq chunks clear_entity_tombstones_by_ids
shelf_newest = refl

pull_changes_since_complete_notebooks_example :
    TellsNotebook shelf me (lit "nb") upserted (response_of pulled_shelf)
pull_changes_since_complete_notebooks_example =
    pull_changes_since_complete_notebooks response_bytes (lit "t") shelf me (lit "nb")
      newest_on_shelf (natural 0) (natural 10) (response_of pulled_shelf) shelf-IsConsistent refl
      shelf_newest past_zero (pulled_shelf-eq ∙ of_is_ok pulled_shelf pulled_shelf-is_ok)
      (omega (arith, pulled_shelf_revision))
