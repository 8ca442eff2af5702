-- ===== src/Repository/Push/Commit.antt =====
-- The parts of a `pushChanges` that succeeds: the checks, `upsertDevice`, the loops.
use author.Common.{◌≡◌, false, Text, text_Eq, arith}
use author.ApiTypes.{PushRequest, PushResponse}
use author.Repository.Store.{Db}
use author.Repository.Devices.{ok, upsert_device, first_of_ok}
use author.Repository.Verdicts.{PushOptions}
use author.Repository.Push.{
  Host, push_changes, commit, assert_unique_push_change_ids, check_limits, has_repeated_id,
  change_ids, notebook_change_ids,
}

pub record Committed (host : Host) (options : PushOptions) (owner now : Text)
    (request : PushRequest) (db : Db) (out : PushResponse × Db) : Type 0 where
  pub tx : Db
  pub registered : upsert_device owner request.device now db ≡ ok tx
  pub unique_notebooks : has_repeated_id (notebook_change_ids request.notebooks) ≡ false
  pub unique_notes : has_repeated_id (change_ids request.notes) ≡ false
  pub result : out ≡ commit host options owner now request tx

module _ (host : Host) (options : PushOptions) (owner now : Text) (request : PushRequest)
    (db : Db) where
  pub push_changes-Committed :
      {out : PushResponse × Db}
      → push_changes host options owner now request db ≡ ok out
      → Committed host options owner now request db out
  unfolding push_changes assert_unique_push_change_ids
  push_changes-Committed {out} h =
      let (u, unique, h1) = first_of_ok (assert_unique_push_change_ids request) _ h in
      let (w, within, h2) = first_of_ok (check_limits host options owner request db) _ h1 in
      let (tx, registered, h3) = first_of_ok (upsert_device owner request.device now db) _ h2 in
      record {
        tx = tx;
        registered = registered;
        unique_notebooks = ground arith;
        unique_notes = ground arith;
        result = ground arith;
      }
