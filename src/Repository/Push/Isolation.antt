-- ===== src/Repository/Push/Isolation.antt =====
-- Which rows a push leaves alone, and how its answers count.
use author.Common.{
  ◌+◌, ◌≡◌, ap, ◌∙◌, Text, text_Eq, arith, length, Bool, true, false, refl, sym, text_eq, ◌&&◌,
}
use author.ApiTypes.{PushRequest, PushResponse, note_kind, notebook_kind}
use author.Repository.Store.{Db, key_Eq}
use author.Repository.Devices.{ok}
use author.Repository.Verdicts.{PushOptions}
use author.Repository.Push.{Host, push_changes, push_notebooks, push_notes, commit}
use author.Repository.Push.Commit.{push_changes-Committed}
use author.Repository.Push.Loops.{
  answers-notebook_loop, answers-note_loop, notebook_loop-WritesAccepted, note_loop-WritesAccepted,
  note_loop_grows,
}
use author.Common.Dedup.{contains}
use author.Common.Table.{get}
use author.Repository.Writes.{save_note_snapshots, save_notebook_snapshots}
use author.Repository.Writes.Effect.{
  get-put_notes_absent, get-put_notebooks_absent, notebooks-put_notes, notes-put_notebooks,
}
use author.Repository.Devices.Effect.{upsert_device-SameRecords}
use author.Repository.Queries.{row_key}
use author.Repository.Push.Accounting.{accepted_ids}
use mathlib.Core.Bool.{false≢true}

unless_mine :
    (mine written accepted : Bool)
    → (written ≡ true → accepted ≡ true)
    → mine && accepted ≡ false
    → mine && written ≡ false
unless_mine true true accepted h k = sym (h refl) ∙ k
unless_mine true false accepted h k = refl
unless_mine false written accepted h k = refl

module _ (host : Host) (options : PushOptions) (owner now : Text) (request : PushRequest) where
  commit_answers :
      (tx : Db)
      → length (commit host options owner now request tx).0.accepted
          + length (commit host options owner now request tx).0.conflicts
        ≡ length request.notes + length request.notebooks
  unfolding push_notebooks push_notes
  commit_answers tx = omega (
    arith,
    answers-note_loop host options owner _ request.device.name _ _ _ _ request.notes,
    answers-notebook_loop host options owner tx request.device.name _ _ _ _ request.notebooks,
  )

  -- A push that succeeds gives as many answers, acceptances and conflicts together, as the request has
  -- changes.
  pub push_changes_answers_all :
      (db db' : Db) (response : PushResponse)
      → push_changes host options owner now request db ≡ ok (response, db')
      → length response.accepted + length response.conflicts
        ≡ length request.notes + length request.notebooks
  push_changes_answers_all db db' response h =
      let c = push_changes-Committed host options owner now request db h in
      ap (λ (r : PushResponse × Db). length r.0.accepted + length r.0.conflicts) c.result
      ∙ commit_answers c.tx

  module _ (tx : Db) (o id : Text) where
    notes-commit :
        text_eq owner o
            && contains
                (accepted_ids note_kind (commit host options owner now request tx).0.accepted)
                id
          ≡ false
        → get (commit host options owner now request tx).1.notes (row_key o id)
          ≡ get tx.notes (row_key o id)
    unfolding push_notebooks push_notes save_note_snapshots save_notebook_snapshots contains
    notes-commit h =
        get-put_notes_absent owner now _ _ o id (
          unless_mine (text_eq owner o) _ _
            (note_loop-WritesAccepted host options owner _ request.device.name _ _ _ _ request.notes
              (λ i k. absurd (false≢true k)) id)
            h)
        ∙ ap (λ t. get t (row_key o id)) (notes-put_notebooks owner now _ tx)

    notebooks-commit :
        text_eq owner o
            && contains
                (accepted_ids notebook_kind (commit host options owner now request tx).0.accepted)
                id
          ≡ false
        → get (commit host options owner now request tx).1.notebooks (row_key o id)
          ≡ get tx.notebooks (row_key o id)
    unfolding push_notebooks push_notes save_note_snapshots save_notebook_snapshots contains
    notebooks-commit h =
        ap (λ t. get t (row_key o id)) (notebooks-put_notes owner now _ _)
        ∙ get-put_notebooks_absent owner now _ tx o id (
            unless_mine (text_eq owner o) _ _
              (λ w.
                note_loop_grows host options owner _ request.device.name _ _ _ notebook_kind id _
                  request.notes
                  (notebook_loop-WritesAccepted host options owner tx request.device.name _ _ _ _
                    request.notebooks (λ i k. absurd (false≢true k)) id w))
              h)

  -- A push that succeeds changes no stored note but those of the owner that it reports as accepted:
  -- a note of another owner, one that is not in the push, or one that is refused with a conflict has
  -- the row that it had.
  pub push_changes_only_accepted_notes :
      (db db' : Db) (response : PushResponse) (o id : Text)
      → push_changes host options owner now request db ≡ ok (response, db')
      → text_eq owner o && contains (accepted_ids note_kind response.accepted) id ≡ false
      → get db'.notes (row_key o id) ≡ get db.notes (row_key o id)
  push_changes_only_accepted_notes db db' response o id h k =
      let c = push_changes-Committed host options owner now request db h in
      let same = upsert_device-SameRecords owner request.device now db c.tx c.registered in
      ap (λ (out : PushResponse × Db). get out.1.notes (row_key o id)) c.result
      ∙ notes-commit c.tx o id (
          ap
            (λ (out : PushResponse × Db).
              text_eq owner o && contains (accepted_ids note_kind out.0.accepted) id)
            (sym c.result)
          ∙ k)
      ∙ ap (λ t. get t (row_key o id)) same.same_notes

  -- A push that succeeds changes no stored notebook but those of the owner that it reports as
  -- accepted: a notebook of another owner, one that is not in the push, or one that is refused with a
  -- conflict has the row that it had.
  pub push_changes_only_accepted_notebooks :
      (db db' : Db) (response : PushResponse) (o id : Text)
      → push_changes host options owner now request db ≡ ok (response, db')
      → text_eq owner o && contains (accepted_ids notebook_kind response.accepted) id ≡ false
      → get db'.notebooks (row_key o id) ≡ get db.notebooks (row_key o id)
  push_changes_only_accepted_notebooks db db' response o id h k =
      let c = push_changes-Committed host options owner now request db h in
      let same = upsert_device-SameRecords owner request.device now db c.tx c.registered in
      ap (λ (out : PushResponse × Db). get out.1.notebooks (row_key o id)) c.result
      ∙ notebooks-commit c.tx o id (
          ap
            (λ (out : PushResponse × Db).
              text_eq owner o && contains (accepted_ids notebook_kind out.0.accepted) id)
            (sym c.result)
          ∙ k)
      ∙ ap (λ t. get t (row_key o id)) same.same_notebooks
