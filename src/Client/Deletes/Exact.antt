-- ===== src/Client/Deletes/Exact.antt =====
-- Which rows `applyRemoteDeletes` deletes.
use author.Common.{
  ◌≡◌, refl, ap, ◌∙◌, Bool, true, false, ◌&&◌, ◌||◌, Option, none, List, [], ◌∷◌, ◌++◌, Text,
  text_eq, text_eq_iff, text_Eq, truthy, for_each, if◌then◌else◌, arith, Bool-cases, inl, inr,
  Option-cases,
}
use author.Common.Dedup.{contains, dedup, contains-keep_if, contains-dedup, contains-append}
use author.Common.Table.{Table, get, get-remove}
use author.Client.Store.{LocalRow, LocalDb, Fields, note_fields, notebook_fields}
use author.Client.Deletes.{
  present_ids, can_delete, is_gone, delete_row, delete_with_references, apply_remote_deletes,
}

contains-present_ids :
    (ids : List Text) (id : Text)
    → contains (present_ids ids) id ≡ (if truthy id then contains ids id else false)
unfolding present_ids
contains-present_ids ids id =
    ground (arith, contains-keep_if truthy (dedup ids) id, contains-dedup ids id)

module _ {T : Type 0} (F : Fields T) where
  abbrev pub left_by : Bool → Option (LocalRow T) → Option (LocalRow T)
  left_by named row = if named && can_delete F row then none else row

  get-delete_row :
      (rows : Table Text (LocalRow T)) (id j : Text)
      → get (delete_row F rows id) j ≡ left_by (text_eq id j) (get rows j)
  unfolding delete_row
  get-delete_row rows id j = elim (Bool-cases (text_eq id j)) [
    | inl same ↦
        let e = (text_eq_iff id j).0 same in
        ground (arith, get-remove rows id j, ap (get rows) e, text_eq_iff j id)
    | inr other ↦ ground (arith, get-remove rows id j, text_eq_iff j id, text_eq_iff id j)
  ]

  pub get-for_each-delete_row :
      (rows : Table Text (LocalRow T)) (ids : List Text) (j : Text)
      → get (for_each (delete_row F) rows ids) j ≡ left_by (contains ids j) (get rows j)
  unfolding contains
  get-for_each-delete_row rows [] j = refl
  get-for_each-delete_row rows (id ∷ ids) j =
      ground (arith, get-for_each-delete_row (delete_row F rows id) ids j, get-delete_row rows id j)

  rows-for_each-delete_with_references :
      (rows : Table Text (LocalRow T)) (gone ids : List Text)
      → (for_each (delete_with_references F) (rows, gone) ids).0 ≡ for_each (delete_row F) rows ids
  unfolding delete_with_references
  rows-for_each-delete_with_references rows gone [] = refl
  rows-for_each-delete_with_references rows gone (id ∷ ids) =
      rows-for_each-delete_with_references (delete_row F rows id)
        (if is_gone F (get rows id) then gone ++ id ∷ [] else gone) ids

  -- Whether a notebook that the ids name is gone does not depend on the other deletions.
  is_gone-delete_row :
      (rows : Table Text (LocalRow T)) (id j : Text)
      → is_gone F (get (delete_row F rows id) j) ≡ is_gone F (get rows j)
  is_gone-delete_row rows id j = elim (Option-cases (get rows j)) [
    | inl e ↦ rw (get-delete_row rows id j, e) (ground arith)
    | inr (row, e) ↦ rw (get-delete_row rows id j, e) (ground arith)
  ]

  pub contains-for_each-delete_with_references :
      (rows : Table Text (LocalRow T)) (gone ids : List Text) (j : Text)
      → contains (for_each (delete_with_references F) (rows, gone) ids).1 j
        ≡ (contains gone j || (contains ids j && is_gone F (get rows j)))
  unfolding contains delete_with_references
  contains-for_each-delete_with_references rows gone [] j = ground arith
  contains-for_each-delete_with_references rows gone (id ∷ ids) j =
      contains-for_each-delete_with_references (delete_row F rows id)
        (if is_gone F (get rows id) then gone ++ id ∷ [] else gone) ids j
      ∙ elim (Bool-cases (text_eq id j)) [
        | inl same ↦
            let e = (text_eq_iff id j).0 same in
            ground (
              arith,
              contains-append gone (id ∷ []) j,
              is_gone-delete_row rows id j,
              ap (λ k. is_gone F (get rows k)) e,
            )
        | inr other ↦ ground (arith, contains-append gone (id ∷ []) j, is_gone-delete_row rows id j)
      ]

-- After `applyRemoteDeletes`, a note that the server names as deleted is gone unless it has a local
-- change, a notebook likewise, and every other note and notebook is as it was; the notebooks whose
-- references are to be removed are the named ones that are gone. The empty id is left out.
pub apply_remote_deletes_lem :
    (note_ids notebook_ids device_ids : List Text) (db : LocalDb) (id : Text)
    → truthy id ≡ true
    → (get (apply_remote_deletes note_ids notebook_ids device_ids db).0.notes id
        ≡ left_by note_fields (contains note_ids id) (get db.notes id))
      × (get (apply_remote_deletes note_ids notebook_ids device_ids db).0.notebooks id
          ≡ left_by notebook_fields (contains notebook_ids id) (get db.notebooks id))
      × (contains (apply_remote_deletes note_ids notebook_ids device_ids db).1 id
          ≡ (contains notebook_ids id && is_gone notebook_fields (get db.notebooks id)))
unfolding apply_remote_deletes contains
apply_remote_deletes_lem note_ids notebook_ids device_ids db id named =
    let notes : contains (present_ids note_ids) id ≡ contains note_ids id =
      contains-present_ids note_ids id ∙ rw named refl in
    let notebooks : contains (present_ids notebook_ids) id ≡ contains notebook_ids id =
      contains-present_ids notebook_ids id ∙ rw named refl in
    (
      get-for_each-delete_row note_fields db.notes (present_ids note_ids) id ∙ rw notes refl,
      ap (λ t. get t id)
            (rows-for_each-delete_with_references notebook_fields db.notebooks []
              (present_ids notebook_ids))
          ∙ get-for_each-delete_row notebook_fields db.notebooks (present_ids notebook_ids) id
          ∙ rw notebooks refl,
      contains-for_each-delete_with_references notebook_fields db.notebooks []
            (present_ids notebook_ids) id
          ∙ rw notebooks (ground arith),
    )
