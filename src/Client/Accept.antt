-- ===== src/Client/Accept.antt =====
-- `markAcceptedChanges` of sync-store.ts: what the store learns from the changes that the server accepted.
pub mod Edits
use author.Common.{
  ℕ, Bool, true, false, not, ◌&&◌, ◌||◌, Option, none, some, List, [], ◌∷◌, Text, text_eq, text_Eq,
  for_each, if◌then◌else◌,
}
use author.Common.Table.{Table, get, put}
use author.ApiTypes.{EntityKind, note_kind, notebook_kind, AcceptedChange}
use author.Schema.{Note, Notebook, synced, pending}
use author.Client.Store.{LocalRow, LocalDb, Fields, note_fields, notebook_fields}
use author.Client.Conflicts.{is_version}

abbrev pub is_kind : EntityKind → EntityKind → Bool
is_kind note_kind note_kind = true
is_kind notebook_kind notebook_kind = true
is_kind _ _ = false

-- `pushedByKey.get(…)`: the map is built in order, so the last change of a key stands.
unfoldable pub pushed_change : EntityKind → Text → List AcceptedChange → Option AcceptedChange
pushed_change kind id [] = none
pushed_change kind id (change ∷ changes) =
    let later = pushed_change kind id changes in
    elim later [
      | some found ↦ some found
      | none ↦ if is_kind change.entity_kind kind && text_eq change.id id then some change else none
    ]

module _ {T : Type 0} (F : Fields T) where
  -- The row has not been edited since it was pushed.
  unfoldable pub still_matches : Option AcceptedChange → LocalRow T → Bool
  still_matches none row = true
  still_matches (some change) row = is_version F row change.version change.updated_at

  unfoldable pub accept_row :
      Text → Option AcceptedChange → AcceptedChange → LocalRow T → LocalRow T
  accept_row synced_at pushed change row =
      let still = still_matches pushed row in
      record {
        entity =
            F.with_status
              (F.with_version row.entity (if still then change.version else F.version row.entity))
              (if still then synced else pending);
        last_synced_version = change.version;
        last_synced_at = some synced_at;
      }

  unfoldable pub accept_change :
      Text
      → List AcceptedChange
      → AcceptedChange
      → Table Text (LocalRow T)
      → Table Text (LocalRow T)
  accept_change synced_at pushed change rows = elim (get rows change.id) [
    | none ↦ rows
    | some row ↦
        put rows change.id (accept_row synced_at (pushed_change F.kind change.id pushed) change row)
  ]

unfoldable pub mark_accepted_change :
    Text → List AcceptedChange → LocalDb → AcceptedChange → LocalDb
mark_accepted_change synced_at pushed db change =
    if is_kind change.entity_kind note_kind
    then record db { notes = accept_change note_fields synced_at pushed change db.notes }
    else record db {
      notebooks = accept_change notebook_fields synced_at pushed change db.notebooks;
    }

unfoldable pub mark_accepted_changes :
    List AcceptedChange → Text → List AcceptedChange → LocalDb → LocalDb
mark_accepted_changes accepted synced_at pushed db =
    for_each (mark_accepted_change synced_at pushed) db accepted
