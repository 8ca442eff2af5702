-- ===== src/Repository/Push/Consistency.antt =====
-- The consistency of the store and `pushChanges`.
use author.Common.{◌≡◌, refl, sym, Text, subst}
use author.ApiTypes.{PushRequest, PushResponse}
use author.Repository.Store.{Db, key_Eq, entity_key_Eq}
use author.Repository.Devices.{ok}
use author.Repository.Devices.Effect.{upsert_device-SameRecords}
use author.Repository.Writes.{save_note_snapshots, save_notebook_snapshots}
use author.Repository.Consistency.{IsConsistent}
use author.Repository.Consistency.Write.{put_notes-IsConsistent, put_notebooks-IsConsistent}
use author.Repository.Consistency.Same.{SameRecords-IsConsistent, SameRecords-of_eq}
use author.Repository.Verdicts.{PushOptions}
use author.Repository.Push.{Host, push_changes, push_notebooks, push_notes, commit}
use author.Repository.Push.Commit.{push_changes-Committed}

module _ (host : Host) (options : PushOptions) (owner now : Text) (request : PushRequest) where
  commit-IsConsistent :
      (tx : Db) → IsConsistent tx → IsConsistent (commit host options owner now request tx).1
  unfolding push_notebooks push_notes save_note_snapshots save_notebook_snapshots
  commit-IsConsistent tx c =
      SameRecords-IsConsistent (SameRecords-of_eq _ _ refl refl refl refl refl) (
        put_notes-IsConsistent owner now _ _ (
          SameRecords-IsConsistent (SameRecords-of_eq _ _ refl refl refl refl refl)
            (put_notebooks-IsConsistent owner now _ tx c)))

  -- A push that succeeds on a consistent store leaves a consistent store: the revisions fall from the
  -- newest change to the oldest and are below the next one, each note and notebook with an id that is
  -- not empty is stored exactly if its latest change is an upsert, and none is stored while it has a
  -- tombstone.
  pub push_changes-IsConsistent :
      (db db' : Db) (response : PushResponse)
      → IsConsistent db
      → push_changes host options owner now request db ≡ ok (response, db')
      → IsConsistent db'
  push_changes-IsConsistent db db' response c h =
      let m = push_changes-Committed host options owner now request db h in
      let same = upsert_device-SameRecords owner request.device now db m.tx m.registered in
      subst (λ (out : PushResponse × Db). IsConsistent out.1) (sym m.result)
        (commit-IsConsistent m.tx (SameRecords-IsConsistent same c))
