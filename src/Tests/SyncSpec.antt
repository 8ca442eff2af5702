-- ===== src/Tests/SyncSpec.antt =====
-- The rules of synchronisation on sample records.
use Prim.Native.String.{String}
use author.Common.{
  leb, if◌then◌else◌, ◌∷◌, ◌≡◌, refl, ℕ, ◌<◌, ◌≤◌, ◌↔◌, ◌≢◌, true, false, Option, none, some, [],
  Text, lit, natural, safe_natural, max_safe_integer,
}
use author.ApiTypes.{
  SyncEntity, note_kind, note, SyncConflict, ConflictVersion, remote_changed, from_local,
}
use author.SyncSpec.{
  records_differ, should_conflict, keep_newer, keep_older, entity_version, choose_conflict_version,
}
use author.SyncSpec.Differ.{fingerprint, records_differ-eq-false_iff, should_conflict_iff}
use author.SyncSpec.Cursor.{safe_revision_cursor, moved_to, safe_revision_cursor_progress}
use author.SyncSpec.Choice.{IsNotNewer, choose_conflict_version_extremal}
use author.Tests.Sample.{sample_note}

moved : safe_revision_cursor (natural 7) (natural 4) true ≡ moved_to 7
unfolding safe_revision_cursor safe_natural
moved = refl

safe_revision_cursor_progress_example :
    (p : ℕ) × (natural 7 ≡ natural 7)
    × (natural 4 ≡ natural p)
    × (p ≤ 7)
    × (7 ≤ max_safe_integer)
    × (true ≡ true → p < 7)
safe_revision_cursor_progress_example =
    safe_revision_cursor_progress (natural 7) (natural 4) true 7 moved

records_differ-eq-false_iff_example :
    (records_differ (note (sample_note "n" "one" 1)) (note (sample_note "n" "two" 1)) ≡ false)
    ↔ (fingerprint (note (sample_note "n" "one" 1)) ≡ fingerprint (note (sample_note "n" "two" 1)))
records_differ-eq-false_iff_example =
    records_differ-eq-false_iff (note (sample_note "n" "one" 1)) (note (sample_note "n" "two" 1))

should_conflict_iff_example :
    (should_conflict (note (sample_note "n" "one" 2)) (some (note (sample_note "n" "two" 2))) 1
      ≡ true)
    ↔ ((fingerprint (note (sample_note "n" "one" 2)) ≢ fingerprint (note (sample_note "n" "two" 2)))
        × (1 ≢ entity_version (note (sample_note "n" "two" 2))))
should_conflict_iff_example =
    should_conflict_iff (note (sample_note "n" "one" 2)) (note (sample_note "n" "two" 2)) 1

abbrev sample_version : String → Text → ℕ → ConflictVersion SyncEntity
sample_version body updated_at version = record {
  source = from_local;
  device_id = lit "phone";
  device_name = lit "Phone";
  updated_at = updated_at;
  version = version;
  preview_text = lit body;
  entity = note (sample_note "n" body version);
}

abbrev sample_conflict : SyncConflict SyncEntity
sample_conflict = record {
  id = lit "c";
  entity_kind = note_kind;
  entity_id = lit "n";
  reason = remote_changed;
  local_version = sample_version "one" (lit "2026-01-02") 2;
  remote_version = sample_version "two" (lit "no date") 3;
}

-- A date that is valid exactly if it starts with a digit.
abbrev parse_date : Text → Option ℕ
parse_date [] = none
parse_date (c ∷ s) = if leb c 57 then some c else none

choose_conflict_version_extremal_example :
    IsNotNewer parse_date sample_conflict.local_version
      (choose_conflict_version parse_date sample_conflict keep_newer)
    × IsNotNewer parse_date sample_conflict.remote_version
        (choose_conflict_version parse_date sample_conflict keep_newer)
    × IsNotNewer parse_date
        (choose_conflict_version parse_date sample_conflict keep_older)
        sample_conflict.local_version
    × IsNotNewer parse_date
        (choose_conflict_version parse_date sample_conflict keep_older)
        sample_conflict.remote_version
choose_conflict_version_extremal_example =
    choose_conflict_version_extremal parse_date sample_conflict
