-- ===== src/Repository/Writes/Rows.antt =====
-- What a table holds after a multi-row upsert.
use author.Common.{
  ◌≡◌, refl, false, ◌&&◌, ◌||◌, List, [], ◌∷◌, Text, text_eq, text_Eq, for_each, is_some, arith,
}
use author.Common.Dedup.{contains}
use author.Common.Table.{Table, get, upsert, get-upsert, keys}
use author.Repository.Store.{Key, key_eq, key_Eq}
use author.Repository.Queries.{row_key}
use author.Repository.Chunks.{for_each-chunks}
use author.Repository.Writes.{insert_rows}

module _ {Row : Type 0} (merge : Row → Row → Row) (owner : Text) where
  abbrev pub write_row : Table Key Row → Text × Row → Table Key Row
  write_row t r = upsert merge t (row_key owner r.0) r.1

  pub insert_rows_lem :
      (rows : List (Text × Row)) (table : Table Key Row)
      → insert_rows merge owner rows table ≡ for_each write_row table rows
  unfolding insert_rows
  insert_rows_lem rows table = for_each-chunks write_row 100 table rows (omega arith)

  get-for_each-write_row_absent :
      (rows : List (Text × Row)) (table : Table Key Row) (o id : Text)
      → text_eq owner o && contains (keys rows) id ≡ false
      → get (for_each write_row table rows) (row_key o id) ≡ get table (row_key o id)
  unfolding contains key_eq
  get-for_each-write_row_absent [] table o id h = refl
  get-for_each-write_row_absent ((j, row) ∷ rows) table o id h = ground (
    arith,
    get-for_each-write_row_absent rows (write_row table (j, row)) o id,
    get-upsert merge table (row_key owner j) row (row_key o id),
  )

  -- Rows of other owners, and rows that are not named, stay as they were.
  pub get-insert_rows_absent :
      (rows : List (Text × Row)) (table : Table Key Row) (o id : Text)
      → text_eq owner o && contains (keys rows) id ≡ false
      → get (insert_rows merge owner rows table) (row_key o id) ≡ get table (row_key o id)
  get-insert_rows_absent rows table o id h =
      rw (insert_rows_lem rows table) (get-for_each-write_row_absent rows table o id h)

  is_some-for_each-write_row :
      (rows : List (Text × Row)) (table : Table Key Row) (o id : Text)
      → is_some (get (for_each write_row table rows) (row_key o id))
        ≡ (text_eq owner o && contains (keys rows) id) || is_some (get table (row_key o id))
  unfolding contains key_eq
  is_some-for_each-write_row [] table o id = ground arith
  is_some-for_each-write_row ((j, row) ∷ rows) table o id = ground (
    arith,
    is_some-for_each-write_row rows (write_row table (j, row)) o id,
    get-upsert merge table (row_key owner j) row (row_key o id),
  )

  pub is_some-insert_rows :
      (rows : List (Text × Row)) (table : Table Key Row) (o id : Text)
      → is_some (get (insert_rows merge owner rows table) (row_key o id))
        ≡ (text_eq owner o && contains (keys rows) id) || is_some (get table (row_key o id))
  is_some-insert_rows rows table o id =
      rw (insert_rows_lem rows table) (is_some-for_each-write_row rows table o id)
