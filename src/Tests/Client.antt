-- ===== src/Tests/Client.antt =====
-- The client's stores: a sample note with a local change, and what comes from the server.
use author.Common.{
  ℕ, ◌≡◌, refl, true, false, none, some, List, [], ◌∷◌, Text, lit, text_eq, text_Eq, ◌&&◌, keep_if,
}
use author.Common.Table.{get, put}
use author.Common.Dedup.{contains}
use author.Schema.{Note, synced, pending}
use author.ApiTypes.{
  SyncEntity, note, note_kind, SyncConflict, ConflictVersion, from_local, from_remote,
  remote_changed, AcceptedChange,
}
use author.SyncSpec.{keep_local, should_conflict}
use author.Client.Store.{
  LocalRow, LocalConflict, unresolved, LocalDb, Shelf, resolved, notebook_fields, note_fields,
  note_fields-IsLawful,
}
use author.Client.Conflicts.{save_conflict}
use author.Client.Merge.{Crypto, Session, merge_remote, merge_over}
use author.Client.Merge.Keeps.{KeepsChange, merge_remote-KeepsChange}
use author.Client.Merge.Adopts.{adopted, is_replaceable, merge_remote_adopts}
use author.Client.Deletes.{apply_remote_deletes, is_gone}
use author.Client.Deletes.Exact.{apply_remote_deletes_lem, left_by}
use author.Client.Accept.{pushed_change, still_matches, mark_accepted_changes}
use author.Client.Accept.Edits.{
  Kept, is_of_note, mark_accepted_changes-Kept, mark_accepted_changes_settles,
}
use author.Client.Resolve.{Resolver, choose, resolve_conflict}
use author.Client.Resolve.Settles.{resolve_conflict_settles}
use author.Tests.Sample.{phone, sample_note}

abbrev pub mine : LocalRow Note
mine = record {
  entity = record (sample_note "n1" "mine" 2) { sync_status = pending };
  last_synced_version = 1;
  last_synced_at = none;
}

abbrev pub settled : LocalRow Note
settled = record {
  entity = sample_note "n2" "old" 1;
  last_synced_version = 1;
  last_synced_at = none;
}

abbrev pub local_db : LocalDb
local_db = record {
  notes = (lit "n1", mine) ∷ (lit "n2", settled) ∷ [];
  notebooks = [];
  devices = [];
  conflicts = [];
  sync_meta = [];
}

abbrev shelf : Shelf Note
shelf = record { rows = local_db.notes; conflicts = [] }

-- Encryption that leaves the texts as they are.
abbrev pub open_crypto : {T : Type 0} → Crypto T
open_crypto = record {
  decrypt = λ t. some t;
  encrypt = λ t. some t;
  is_unsupported = λ t. false;
  needs_republish = λ a b. false;
  encrypt_conflict = λ c. c;
}

abbrev pub session : Session
session = record {
  device = phone;
  devices = [];
  new_id = lit "c1";
  now = lit "now";
  synced_at = lit "then";
}

abbrev side : Note → ConflictVersion SyncEntity
side n = record {
  source = from_local;
  device_id = n.device_id;
  device_name = lit "Phone";
  updated_at = n.updated_at;
  version = n.version;
  preview_text = n.body;
  entity = note n;
}

abbrev theirs : Note
theirs = sample_note "n1" "theirs" 5

abbrev conflict_here : SyncConflict SyncEntity
conflict_here = record {
  id = lit "c1";
  entity_kind = note_kind;
  entity_id = lit "n1";
  reason = remote_changed;
  local_version = side mine.entity;
  remote_version = record (side theirs) { source = from_remote };
}

abbrev saved_shelf : Shelf Note
saved_shelf = (save_conflict note_fields (λ c. c) (lit "now") conflict_here none (λ n s. s) shelf).0

found_mine : get shelf.rows (lit "n1") ≡ some mine
unfolding get text_eq
found_mine = refl

merge_remote-KeepsChange_example :
    (row' : LocalRow Note) × (get
        (merge_remote note_fields open_crypto session (λ s. s) (λ n s. s) theirs shelf).0.rows
        (lit "n1")
      ≡ some row')
    × KeepsChange note_fields mine row'
merge_remote-KeepsChange_example =
    merge_remote-KeepsChange note_fields open_crypto session (λ s. s) (λ n s. s) theirs shelf mine
      note_fields-IsLawful found_mine refl refl (λ n t. refl)

abbrev newer : Note
newer = sample_note "n2" "new" 3

abbrev merged_shelf : Shelf Note
merged_shelf = (merge_remote note_fields open_crypto session (λ s. s) (λ n s. s) newer shelf).0

is_merged :
    merge_remote note_fields open_crypto session (λ s. s) (λ n s. s) newer shelf
    ≡ (merged_shelf, true)
unfolding merge_remote merge_over get text_eq
is_merged = refl

is_replaceable_here : is_replaceable note_fields (get shelf.rows (lit "n2")) ≡ true
unfolding get text_eq
is_replaceable_here = refl

merge_remote_adopts_example :
    (plain stored : Note) × (some newer ≡ some plain)
    × (some plain ≡ some stored)
    × (merged_shelf
        ≡ adopted note_fields open_crypto session
            (λ s. s)
            (λ n s. s)
            newer
            (record {
              entity = record stored { is_favorite = plain.is_favorite; sync_status = synced };
              last_synced_version = 3;
              last_synced_at = some (lit "then");
            })
            shelf)
merge_remote_adopts_example =
    merge_remote_adopts note_fields open_crypto session (λ s. s) (λ n s. s) newer shelf merged_shelf
      is_replaceable_here is_merged

abbrev gone_ids : List Text
gone_ids = lit "n1" ∷ lit "n2" ∷ []

apply_remote_deletes_lem_example :
    (get (apply_remote_deletes gone_ids [] [] local_db).0.notes (lit "n2")
      ≡ left_by note_fields (contains gone_ids (lit "n2")) (get local_db.notes (lit "n2")))
    × (get (apply_remote_deletes gone_ids [] [] local_db).0.notebooks (lit "n2")
        ≡ left_by notebook_fields (contains [] (lit "n2")) (get local_db.notebooks (lit "n2")))
    × (contains (apply_remote_deletes gone_ids [] [] local_db).1 (lit "n2")
        ≡ (contains [] (lit "n2") && is_gone notebook_fields (get local_db.notebooks (lit "n2"))))
apply_remote_deletes_lem_example = apply_remote_deletes_lem gone_ids [] [] local_db (lit "n2") refl

-- The server accepts version 3 of `n1`; what was pushed was version 1, and version 2 as it is stored.
abbrev pushed_version : ℕ → AcceptedChange
pushed_version version = record {
  entity_kind = note_kind;
  id = lit "n1";
  version = version;
  updated_at = lit "2026-01-01";
}

abbrev accepted_3 : List AcceptedChange
accepted_3 = pushed_version 3 ∷ []

found_1 : pushed_change note_kind (lit "n1") (pushed_version 1 ∷ []) ≡ some (pushed_version 1)
unfolding pushed_change text_eq
found_1 = refl

edited : still_matches note_fields (some (pushed_version 1)) mine ≡ false
unfolding still_matches
edited = refl

unedited :
    still_matches note_fields (pushed_change note_kind (lit "n1") (pushed_version 2 ∷ [])) mine
    ≡ true
unfolding still_matches pushed_change text_eq
unedited = refl

mark_accepted_changes-Kept_example :
    (row' : LocalRow Note) × (get
        (mark_accepted_changes accepted_3 (lit "then") (pushed_version 1 ∷ []) local_db).notes
        (lit "n1")
      ≡ some row')
    × Kept note_fields mine row'
mark_accepted_changes-Kept_example =
    mark_accepted_changes-Kept (lit "then") (pushed_version 1 ∷ []) accepted_3 local_db (lit "n1")
      (pushed_version 1) mine found_mine found_1 edited

once : keep_if (is_of_note (lit "n1")) accepted_3 ≡ pushed_version 3 ∷ []
unfolding text_eq
once = refl

mark_accepted_changes_settles_example :
    (row' : LocalRow Note) × (get
        (mark_accepted_changes accepted_3 (lit "then") (pushed_version 2 ∷ []) local_db).notes
        (lit "n1")
      ≡ some row')
    × (row'.entity ≡ record (mine.entity) { version = 3; sync_status = synced })
    × (row'.last_synced_version ≡ 3)
mark_accepted_changes_settles_example =
    mark_accepted_changes_settles (lit "then") (pushed_version 2 ∷ []) accepted_3 local_db
      (lit "n1") (pushed_version 3) mine found_mine unedited once

abbrev resolver : Resolver
resolver = record {
  note_crypto = open_crypto;
  notebook_crypto = open_crypto;
  decrypt_conflict = λ c. some c;
  parse_date = λ s. none;
  lower_case = λ s. s;
  digits = λ n. n ∷ [];
  new_id = lit "new";
  device = phone;
  now = lit "now";
  interfere = λ db. db;
  interfere_marking = λ db. db;
  interfere_references = λ rows. rows;
}

abbrev stored_conflict : LocalConflict
stored_conflict = record {
  id = lit "c1";
  entity_kind = note_kind;
  entity_id = lit "n1";
  status = unresolved;
  created_at = lit "before";
  conflict = conflict_here;
}

abbrev conflict_db : LocalDb
conflict_db = record local_db { conflicts = (lit "c1", stored_conflict) ∷ [] }

-- The local version, after the server's version 5.
abbrev kept_mine : Note
kept_mine = record (mine.entity) { version = 6 }

found_conflict : get conflict_db.conflicts (lit "c1") ≡ some stored_conflict
unfolding get text_eq
found_conflict = refl

abbrev kept_row : LocalRow Note
kept_row = record { entity = kept_mine; last_synced_version = 5; last_synced_at = none }

abbrev kept_db : LocalDb
kept_db = record conflict_db {
  notes = put conflict_db.notes (lit "n1") kept_row;
  conflicts = put conflict_db.conflicts (lit "c1") (record stored_conflict { status = resolved });
}

resolve_conflict_settles_example :
    (resolve_conflict resolver (lit "c1") (choose keep_local) conflict_db ≡ (kept_db, true))
    × (should_conflict (note kept_mine) (some (note theirs)) 5 ≡ false)
resolve_conflict_settles_example =
    resolve_conflict_settles resolver conflict_db stored_conflict conflict_here mine.entity theirs
      kept_mine true (note theirs) found_conflict refl refl refl refl refl refl refl refl
