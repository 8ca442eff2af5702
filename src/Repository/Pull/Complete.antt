-- ===== src/Repository/Pull/Complete.antt =====
-- What a response of `pullChangesSince` says of a note, and what the store holds of it.
use mathlib.Core.List.{Memᴰ}
use author.Common.{
  ℕ, suc, ◌+◌, ◌≤◌, ◌<◌, ◌≡◌, refl, ap, sym, ◌∙◌, true, false, none, some, List, Text, text_Eq,
  subst, ltb, if◌then◌else◌, Option-cases, inl, inr, take, length, get_last?, Number, safe_natural,
  or_else, truthy, is_some,
}
use mathlib.Core.Bool.{false≢true}
use author.Common.Dedup.{contains}
use author.Common.Table.{get}
use author.ApiTypes.{note_kind, PullResponse}
use author.Repository.Store.{
  Change, Db, Operation, upserted, deleted, entity_key_Eq, key_Eq, NoteRow,
}
use author.Repository.Refs.{to_note}
use author.Repository.Log.{
  entity_key, latest_entity_change, latest_entity_operation, as_revision, current_revision,
}
use author.Repository.Queries.{row_key, get_notes_by_ids, get-get_by_ids}
use author.Repository.Devices.{ok}
use author.Repository.Consistency.{IsConsistent, is_upserted}
use author.Repository.Pull.{
  changes_between, latest_changes, by_entity, ids_with, operation_eq, values, pull_page, pull_limit,
  pull_changes_since,
}
use author.Repository.Pull.Newest.{newest_covered, newest_told, latest-Says}
use author.Repository.Pull.Cursor.{pull_loop_page}
use author.Repository.Pull.Told.{
  values-All, IsFetched, get_by_ids-IsFetched, of_IsFetched, some_eq, by_entity-Tells,
  ids_with-only,
}
use author.Schema.{Note}
use author.Repository.Pull.Listed.{
  ids_with-get, values-get, none_of_empty, visible_empty, pull_limit_pos,
}

-- What a response says of a note is what the store holds: the note itself, once or more and not as
-- deleted, or that it is gone, and no note of that id.
abbrev pub TellsNote : Db → Text → Text → Operation → PullResponse → Type 0
TellsNote db owner id upserted r =
    (row : NoteRow) × (get db.notes (row_key owner id) ≡ some row)
    × Memᴰ (to_note id row) r.notes
    × ((n : Note) → Memᴰ n r.notes → n.id ≡ id → n ≡ to_note id row)
    × (contains r.deleted_note_ids id ≡ false)
TellsNote db owner id deleted r =
    (get db.notes (row_key owner id) ≡ none)
    × (contains r.deleted_note_ids id ≡ true)
    × ((n : Note) → Memᴰ n r.notes → ¬ (n.id ≡ id))

-- The notes of a response are those of their rows.
notes_stored :
    (db : Db) (owner : Text) (ids : List Text) (n : Note)
    → Memᴰ n (values (get_notes_by_ids db ids owner))
    → (row : NoteRow) × (get db.notes (row_key owner n.id) ≡ some row) × (n ≡ to_note n.id row)
unfolding get_notes_by_ids to_note
notes_stored db owner ids n m =
    let (j, fetched) =
      values-All (IsFetched to_note db.notes owner) (get_notes_by_ids db ids owner) n
        (get_by_ids-IsFetched to_note db.notes owner ids) m in
    let (row, e, same) = of_IsFetched to_note db.notes owner j n fetched in
    let own : j ≡ n.id = sym (ap (λ (x : Note). x.id) same) in
    (
      row,
      subst (λ i. get db.notes (row_key owner i) ≡ some row) own e,
      subst (λ i. n ≡ to_note i row) own same,
    )

module _ (db : Db) (owner id : Text) (c : Change) (good : IsConsistent db)
    (named : truthy id ≡ true)
    (newest : latest_entity_change db (entity_key owner note_kind id) ≡ some c) (since : ℕ)
    (after : since < c.revision) where
  operation_logged : latest_entity_operation db (entity_key owner note_kind id) ≡ some c.operation
  unfolding latest_entity_operation
  operation_logged = rw (newest, latest_entity_operation) refl

  abbrev listed : ℕ → Operation → List Text
  listed upto op = ids_with note_kind op (by_entity (latest_changes db owner since upto))

  covered_listed : (upto : ℕ) → c.revision ≤ upto → contains (listed upto c.operation) id ≡ true
  covered_listed upto within =
      ids_with-get note_kind c.operation owner id (by_entity (latest_changes db owner since upto))
        (newest_told db owner since upto note_kind id c good.ordered newest after within)

  unlisted :
      (upto : ℕ) (other : Operation)
      → c.revision ≤ upto
      → operation_eq other c.operation ≡ false
      → contains (listed upto other) id ≡ false
  unlisted upto other within differs =
      ids_with-only db owner since upto note_kind id c.operation other
        (by_entity (latest_changes db owner since upto)) differs
        (by_entity-Tells db owner since upto note_kind id c.operation
          (latest-Says db owner since upto note_kind id c good.ordered newest after within))

  stored_by_log : is_some (get db.notes (row_key owner id)) ≡ is_upserted (some c.operation)
  stored_by_log = good.note_logged owner id named ∙ ap is_upserted operation_logged

  listed_note :
      (ids : List Text) (row : NoteRow)
      → contains ids id ≡ true
      → get db.notes (row_key owner id) ≡ some row
      → Memᴰ (to_note id row) (values (get_notes_by_ids db ids owner))
  unfolding get_notes_by_ids
  listed_note ids row h e =
      values-get (get_notes_by_ids db ids owner) id (to_note id row)
        (get-get_by_ids to_note db.notes owner ids id ∙ rw (named, h, e) refl)

  page_of_tells :
      (op : Operation) (upto : ℕ) (r : PullResponse)
      → c.operation ≡ op
      → c.revision ≤ upto
      → r.notes ≡ values (get_notes_by_ids db (listed upto upserted) owner)
      → r.deleted_note_ids ≡ listed upto deleted
      → TellsNote db owner id op r
  page_of_tells upserted upto r same within notes gone =
      let member =
        ap (λ op. contains (listed upto op) id) (sym same) ∙ covered_listed upto within in
      elim (Option-cases (get db.notes (row_key owner id))) [
        | inl e ↦
            absurd (
              false≢true (sym (ap is_some e) ∙ stored_by_log ∙ ap (λ o. is_upserted (some o)) same))
        | inr (row, e) ↦ (
          row,
          e,
          subst (Memᴰ (to_note id row)) (sym notes)
              (listed_note (listed upto upserted) row member e),
          λ n m own.
              let (row', e', same_note) =
                notes_stored db owner (listed upto upserted) n (subst (Memᴰ n) notes m) in
              let one : row' ≡ row =
                some_eq (sym e' ∙ ap (λ i. get db.notes (row_key owner i)) own ∙ e) in
              same_note ∙ ap (λ i. to_note i row') own ∙ ap (λ w. to_note id w) one,
          ap (λ ids. contains ids id) gone
              ∙ unlisted upto deleted within (ap (λ o. operation_eq deleted o) same),
        )
      ]
  page_of_tells deleted upto r same within notes gone =
      let member =
        ap (λ op. contains (listed upto op) id) (sym same) ∙ covered_listed upto within in
      elim (Option-cases (get db.notes (row_key owner id))) [
        | inl e ↦ (
          e,
          ap (λ ids. contains ids id) gone ∙ member,
          λ n m own.
              let (row, e', same_note) =
                notes_stored db owner (listed upto upserted) n (subst (Memᴰ n) notes m) in
              let clash = sym e ∙ ap (λ i. get db.notes (row_key owner i)) (sym own) ∙ e' in
              absurd (false≢true (ap is_some clash)),
        )
        | inr (row, e) ↦ absurd (
            false≢true
              (sym (ap (λ o. is_upserted (some o)) same) ∙ sym stored_by_log ∙ ap is_some e))
      ]

  page_tells :
      (now : Text) (limit : ℕ)
      → 0 < limit
      → c.revision ≤ (pull_page now db owner since limit).0.server_revision
      → TellsNote db owner id c.operation (pull_page now db owner since limit).0
  unfolding pull_page
  page_tells now limit some_left within =
      let all = changes_between db owner since (current_revision db owner) in
      let rows = take (limit + 1) all in
      let visible = if ltb limit (length rows) then take limit rows else rows in
      elim (Option-cases (get_last? visible)) [
        | inl e ↦
            let bound : c.revision ≤ current_revision db owner = rw (e, pull_page) at within in
            let covered =
              newest_covered db owner since (current_revision db owner) note_kind id c good.ordered
                newest after bound in
            absurd (none_of_empty (visible_empty limit all some_left e) covered)
        | inr (last, e) ↦
            let bound : c.revision ≤ as_revision last.revision = rw (e, pull_page) at within in
            rw (e, pull_page)
              (page_of_tells c.operation (as_revision last.revision) _ refl bound refl refl)
      ]

-- In a consistent store, take a note id that is not empty and whose newest change in the owner's log is
-- later than the cursor of the request (an unsafe cursor counts as 0). If the pull gives a response and
-- its `serverRevision` has reached that change, then the response tells of the note exactly what the
-- store holds. If the change was an upsert, the store has a row of the note, the response has that
-- note and no other one of the id, and does not list the id as deleted. If it was a deletion, the store
-- has no row, and the response lists the id as deleted and has no note of the id.
pub pull_changes_since_complete :
    (response_bytes : PullResponse → ℕ) (now : Text) (db : Db) (owner id : Text) (c : Change)
    (since limit : Number) (r : PullResponse)
    → IsConsistent db
    → truthy id ≡ true
    → latest_entity_change db (entity_key owner note_kind id) ≡ some c
    → or_else (safe_natural since) 0 < c.revision
    → pull_changes_since response_bytes now db owner since limit ≡ some (ok r)
    → c.revision ≤ r.server_revision
    → TellsNote db owner id c.operation r
unfolding pull_changes_since
pull_changes_since_complete response_bytes now db owner id c since limit r good named newest after e
      within =
    let from = or_else (safe_natural since) 0 in
    let (l, some_left, same) =
      pull_loop_page response_bytes now db owner from (suc (pull_limit limit)) (pull_limit limit) r
        e in
    subst (TellsNote db owner id c.operation) (sym same) (
      page_tells db owner id c good named newest from after now l (some_left (pull_limit_pos limit))
        (subst (λ (x : PullResponse). c.revision ≤ x.server_revision) same within))
