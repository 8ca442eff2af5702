-- ===== src/Repository/Queries.antt =====
-- The reads by primary key: `getNote`, `getNotesByIds` and their likes.
use author.Common.{
  ap, sym, ◌≡◌, refl, ◌∙◌, Bool, true, false, ◌&&◌, Option, none, some, List, [], ◌∷◌, Text,
  for_each, truthy, if◌then◌else◌, text_eq, text_eq_iff, text_Eq, arith, Bool-cases, inl, inr,
}
use author.Common.Dedup.{contains}
use author.Common.Table.{Table, get, put, get-put}
use author.Schema.{Note, Notebook, Device}
use author.Repository.Store.{Key, DeviceRow, Db, key_Eq}
use author.Repository.Refs.{to_note, to_notebook, to_device}
use author.Repository.Chunks.{chunks, for_each-chunks}
use author.Repository.Log.{unique_entity_ids, contains-unique_entity_ids}

abbrev pub row_key : Text → Text → Key
row_key owner id = record { owner = owner; id = id }

-- A row as a record, if there is one.
abbrev pub as_record : {Row T : Type 0} → (Text → Row → T) → Text → Option Row → Option T
as_record convert id none = none
as_record convert id (some row) = some (convert id row)

unfoldable pub get_note : Db → Text → Text → Option Note
get_note db id owner = as_record to_note id (get db.notes (row_key owner id))

unfoldable pub get_notebook : Db → Text → Text → Option Notebook
get_notebook db id owner = as_record to_notebook id (get db.notebooks (row_key owner id))

-- `row ? row.name : deviceId`
unfoldable pub get_device_name : Db → Text → Text → Text
get_device_name db device_id owner = elim (get db.devices (row_key owner device_id)) [
  | none ↦ device_id
  | some row ↦ row.name
]

-- What a block adds to the records found before it.
abbrev found_in : {T : Type 0} → Bool → Option T → Option T → Option T
found_in hit none before = before
found_in hit (some r) before = if hit then some r else before

found_in-false : {T : Type 0} (o before : Option T) → found_in false o before ≡ before
found_in-false none before = refl
found_in-false (some r) before = refl

found_in_again :
    {T : Type 0} (hit : Bool) (o before : Option T)
    → found_in hit o (found_in true o before) ≡ found_in true o before
found_in_again hit none before = refl
found_in_again true (some r) before = refl
found_in_again false (some r) before = refl

module _ {Row T : Type 0} (convert : Text → Row → T) (rows : Table Key Row) (owner : Text) where
  -- `WHERE owner_username = ? AND id IN (…)` over one block: each id by the primary key.
  abbrev pub add_found : Table Text T → Text → Option Row → Table Text T
  add_found found id none = found
  add_found found id (some row) = put found id (convert id row)

  abbrev pub add_row : Table Text T → Text → Table Text T
  add_row found id = add_found found id (get rows (row_key owner id))

  unfoldable pub get_by_ids : List Text → Table Text T
  get_by_ids ids = for_each (for_each add_row) [] (chunks (unique_entity_ids ids) 200)

  abbrev pub fetch : Text → Option T
  fetch id = as_record convert id (get rows (row_key owner id))

  get-add_found :
      (found : Table Text T) (j id : Text) (o : Option Row)
      → get (add_found found j o) id
        ≡ found_in (text_eq j id) (as_record convert j o) (get found id)
  get-add_found found j id none = refl
  get-add_found found j id (some row) = get-put found j (convert j row) id

  get-for_each-add_row :
      (found : Table Text T) (ids : List Text) (id : Text)
      → get (for_each add_row found ids) id ≡ found_in (contains ids id) (fetch id) (get found id)
  unfolding contains
  get-for_each-add_row found [] id = sym (found_in-false (fetch id) (get found id))
  get-for_each-add_row found (j ∷ ids) id =
      get-for_each-add_row (add_row found j) ids id
      ∙ ap (found_in (contains ids id) (fetch id))
          (get-add_found found j id (get rows (row_key owner j)))
      ∙ (elim (Bool-cases (text_eq j id)) [
        | inl same ↦
            rw ((text_eq_iff j id).0 same, (text_eq_iff id id).1 refl)
              (found_in_again (contains ids id) (fetch id) (get found id))
        | inr other ↦ rw (other, found_in-false) refl
      ])

  -- The records found are those of the ids that were asked for, the empty id left out.
  pub get-get_by_ids :
      (ids : List Text) (id : Text)
      → get (get_by_ids ids) id ≡ (if truthy id && contains ids id then fetch id else none)
  unfolding get_by_ids get
  get-get_by_ids ids id =
      rw (for_each-chunks add_row 200 [] (unique_entity_ids ids) (omega arith)) (
        ground (
          arith,
          get-for_each-add_row [] (unique_entity_ids ids) id,
          contains-unique_entity_ids ids id,
        ))

-- getNotesByIds, getNotebooksByIds, getDevicesByIds
unfoldable pub get_notes_by_ids : Db → List Text → Text → Table Text Note
unfolding get_by_ids
get_notes_by_ids db ids owner = get_by_ids to_note db.notes owner ids

unfoldable pub get_notebooks_by_ids : Db → List Text → Text → Table Text Notebook
unfolding get_by_ids
get_notebooks_by_ids db ids owner = get_by_ids to_notebook db.notebooks owner ids

-- `WHERE id IN (…)` over one block, for all owners, in the order of the table.
abbrev add_devices : Table Key DeviceRow → Table Text Device → List Text → Table Text Device
add_devices rows found ids =
    for_each
      (λ devices (r : Key × DeviceRow).
        if contains ids r.0.id then put devices r.0.id (to_device r.0.id r.1) else devices)
      found rows

-- Without an owner the devices of all owners.
unfoldable pub get_devices_by_ids : Db → List Text → Text → Table Text Device
unfolding get_by_ids
get_devices_by_ids db ids owner =
    if truthy owner
    then get_by_ids to_device db.devices owner ids
    else for_each (add_devices db.devices) [] (chunks (unique_entity_ids ids) 200)

-- `getNotesByIds` finds, for an id that is asked for and is not empty, what `getNote` finds, and
-- nothing for another id.
pub get-get_notes_by_ids :
    (db : Db) (ids : List Text) (owner id : Text)
    → get (get_notes_by_ids db ids owner) id
      ≡ (if truthy id && contains ids id then get_note db id owner else none)
unfolding get_notes_by_ids get_note
get-get_notes_by_ids db ids owner id = get-get_by_ids to_note db.notes owner ids id
