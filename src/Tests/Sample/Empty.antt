-- ===== src/Tests/Sample/Empty.antt =====
-- The store that has no rows.
use author.Common.{refl}
use author.Common.Table.{get}
use author.Repository.Store.{empty_db}
use author.Repository.Log.{latest_entity_operation, latest_entity_change}
use author.Repository.Consistency.{IsConsistent}

pub empty_db-IsConsistent : IsConsistent empty_db
unfolding get latest_entity_operation latest_entity_change
empty_db-IsConsistent = record {
  ordered = tt;
  note_logged = λ o id t. refl;
  notebook_logged = λ o id t. refl;
  note_buried = λ o id t. refl;
  notebook_buried = λ o id t. refl;
}
