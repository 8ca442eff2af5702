-- ===== src/Repository/Push/Loops.antt =====
-- The two loops of `pushChanges`.
use author.Common.{
  ◌+◌, ◌≡◌, refl, ap, true, List, [], ◌∷◌, Text, text_Eq, arith, for_each, for_each_inv, length,
}
use author.Common.Dedup.{contains}
use author.Common.Table.{Table}
use author.Schema.{Note, Notebook}
use author.ApiTypes.{EntityKind, EntityChange, note, notebook, note_kind, notebook_kind}
use author.Repository.Store.{Db, Tombstone}
use author.Repository.Writes.Effect.{note_ids, notebook_ids}
use author.Repository.Verdicts.{Verdict, refuse, keep, store, PushOptions}
use author.Repository.Push.{
  Host, remember, push_notebook, push_note, notebook_verdict, note_verdict,
}
use author.Repository.Answers.{Pass, NotebookPass, settle}
use author.Repository.Push.Accounting.{
  accepted_ids, answers, answers-settle, settle_written, settle_grows,
}

module _ (host : Host) (options : PushOptions) (owner : Text) where
  pass-remember :
      (p : NotebookPass) (v : Verdict Notebook) → (remember host options owner p v).pass ≡ p.pass
  pass-remember p (refuse local remote reason) = refl
  pass-remember p (keep b) = ground arith
  pass-remember p (store b) = ground arith

  module _ (tx : Db) (device_name : Text) where
    pass-push_notebook :
        (remotes : Table Text Notebook) (tombstones : Table Text Tombstone)
        (candidates : Table Text (List Notebook)) (p : NotebookPass) (c : EntityChange Notebook)
        → (push_notebook host options owner tx device_name remotes tombstones candidates p c).pass
          ≡ settle host.uuid tx owner device_name notebook_kind notebook p.pass
              (notebook_verdict host options owner remotes tombstones candidates p c)
    unfolding push_notebook
    pass-push_notebook remotes tombstones candidates p c = pass-remember _ _

    -- What both loops keep: records to be written are accepted.
    abbrev pub WritesAccepted : Pass Notebook → Type 0
    WritesAccepted p =
        (id : Text)
        → contains (notebook_ids p.to_write) id ≡ true
        → contains (accepted_ids notebook_kind p.accepted_changes) id ≡ true

    abbrev pub WritesAcceptedNotes : Pass Note → Type 0
    WritesAcceptedNotes p =
        (id : Text)
        → contains (note_ids p.to_write) id ≡ true
        → contains (accepted_ids note_kind p.accepted_changes) id ≡ true

    module _ (remotes : Table Text Notebook) (tombstones : Table Text Tombstone)
        (candidates : Table Text (List Notebook)) where
      abbrev notebook_loop : NotebookPass → List (EntityChange Notebook) → NotebookPass
      notebook_loop =
          for_each (push_notebook host options owner tx device_name remotes tombstones candidates)

      pub answers-notebook_loop :
          (p : NotebookPass) (changes : List (EntityChange Notebook))
          → answers (notebook_loop p changes).pass ≡ answers p.pass + length changes
      answers-notebook_loop p [] = omega arith
      answers-notebook_loop p (c ∷ cs) = omega (
        arith,
        answers-notebook_loop
            (push_notebook host options owner tx device_name remotes tombstones candidates p c) cs,
        ap answers (pass-push_notebook remotes tombstones candidates p c),
        answers-settle host.uuid tx owner device_name notebook_kind notebook p.pass
            (notebook_verdict host options owner remotes tombstones candidates p c),
      )

      pub notebook_loop-WritesAccepted :
          (p : NotebookPass) (changes : List (EntityChange Notebook))
          → WritesAccepted p.pass
          → WritesAccepted (notebook_loop p changes).pass
      notebook_loop-WritesAccepted p changes h =
          for_each_inv (λ (q : NotebookPass). WritesAccepted q.pass)
            (push_notebook host options owner tx device_name remotes tombstones candidates)
            (λ q c k id. rw (pass-push_notebook remotes tombstones candidates q c) (
              settle_written host.uuid tx owner device_name notebook_kind notebook q.pass
                (notebook_verdict host options owner remotes tombstones candidates q c) id (k id)))
            p changes h

    module _ (remotes : Table Text Note) (tombstones : Table Text Tombstone)
        (notebooks : Table Text Notebook) where
      abbrev note_loop : Pass Note → List (EntityChange Note) → Pass Note
      note_loop =
          for_each (push_note host options owner tx device_name remotes tombstones notebooks)

      pub answers-note_loop :
          (p : Pass Note) (changes : List (EntityChange Note))
          → answers (note_loop p changes) ≡ answers p + length changes
      unfolding push_note
      answers-note_loop p [] = omega arith
      answers-note_loop p (c ∷ cs) = omega (
        arith,
        answers-note_loop
            (push_note host options owner tx device_name remotes tombstones notebooks p c) cs,
        answers-settle host.uuid tx owner device_name note_kind note p
            (note_verdict host options owner remotes tombstones notebooks c),
      )

      pub note_loop-WritesAccepted :
          (p : Pass Note) (changes : List (EntityChange Note))
          → WritesAcceptedNotes p
          → WritesAcceptedNotes (note_loop p changes)
      unfolding push_note
      note_loop-WritesAccepted p changes h =
          for_each_inv WritesAcceptedNotes
            (push_note host options owner tx device_name remotes tombstones notebooks)
            (λ q c k id.
              settle_written host.uuid tx owner device_name note_kind note q
                (note_verdict host options owner remotes tombstones notebooks c) id (k id))
            p changes h

      pub note_loop_grows :
          (kind : EntityKind) (id : Text) (p : Pass Note) (changes : List (EntityChange Note))
          → contains (accepted_ids kind p.accepted_changes) id ≡ true
          → contains (accepted_ids kind (note_loop p changes).accepted_changes) id ≡ true
      unfolding push_note
      note_loop_grows kind id p changes h =
          for_each_inv
            (λ (q : Pass Note). contains (accepted_ids kind q.accepted_changes) id ≡ true)
            (push_note host options owner tx device_name remotes tombstones notebooks)
            (λ q c k.
              settle_grows host.uuid tx owner device_name note_kind note q
                (note_verdict host options owner remotes tombstones notebooks c) kind id k)
            p changes h
