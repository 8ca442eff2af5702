-- ===== src/Client/Accept/Edits.antt =====
-- `markAcceptedChanges` and a row that was edited after its push.
use author.Common.{
  ◌≡◌, refl, ap, sym, ◌∙◌, Bool, true, false, not, ◌&&◌, Option, some, List, [], ◌∷◌, Text, text_eq,
  text_eq_iff, text_Eq, for_each, keep_if, if◌then◌else◌, arith, Bool-cases, Option-cases, inl, inr,
  ◌⊎◌,
}
use author.Common.Table.{Table, get, put, get-put}
use author.ApiTypes.{note_kind, notebook_kind, AcceptedChange}
use author.Schema.{Note, Notebook, synced, pending}
use author.Client.Store.{
  LocalRow, LocalDb, Fields, IsLawful, note_fields, notebook_fields, note_fields-IsLawful,
  notebook_fields-IsLawful,
}
use author.Client.Accept.{
  is_kind, pushed_change, still_matches, accept_row, accept_change, mark_accepted_change,
  mark_accepted_changes,
}

-- The accepted change is taken for this note, or for this notebook.
abbrev pub is_of_note : Text → AcceptedChange → Bool
is_of_note id change = is_kind change.entity_kind note_kind && text_eq change.id id

abbrev pub is_of_notebook : Text → AcceptedChange → Bool
is_of_notebook id change = not (is_kind change.entity_kind note_kind) && text_eq change.id id

-- The row itself, or the row made pending again.
abbrev pub Kept : {T : Type 0} → Fields T → LocalRow T → LocalRow T → Type 0
Kept F row row' = (row' ≡ row) ⊎ (row'.entity ≡ F.with_status row.entity pending)

module _ {T : Type 0} (F : Fields T) (synced_at : Text) (pushed : List AcceptedChange) where
  abbrev pub accept_all : Option AcceptedChange → LocalRow T → List AcceptedChange → LocalRow T
  accept_all q = for_each (λ row change. accept_row F synced_at q change row)

  get-put_accepted :
      (change : AcceptedChange) (rows : Table Text (LocalRow T)) (id : Text) (row w : LocalRow T)
      → get rows id ≡ some row
      → get rows change.id ≡ some w
      → get
          (put rows change.id
            (accept_row F synced_at (pushed_change F.kind change.id pushed) change w))
          id
        ≡ some (
            if text_eq change.id id
            then accept_row F synced_at (pushed_change F.kind id pushed) change row
            else row)
  get-put_accepted change rows id row w e found = elim (Bool-cases (text_eq change.id id)) [
    | inl same ↦
        let q = (text_eq_iff change.id id).0 same in
        let one : w ≡ row =
          (let r : some w ≡ some row = sym found ∙ ap (get rows) q ∙ e in ground arith) in
        get-put rows change.id
          (accept_row F synced_at (pushed_change F.kind change.id pushed) change w) id
        ∙ rw same (
            ap (λ j. some (accept_row F synced_at (pushed_change F.kind j pushed) change w)) q
            ∙ ap (λ v. some (accept_row F synced_at (pushed_change F.kind id pushed) change v)) one)
    | inr other ↦
        get-put rows change.id
          (accept_row F synced_at (pushed_change F.kind change.id pushed) change w) id
        ∙ rw other e
  ]

  get-accept_change :
      (change : AcceptedChange) (rows : Table Text (LocalRow T)) (id : Text) (row : LocalRow T)
      → get rows id ≡ some row
      → get (accept_change F synced_at pushed change rows) id
        ≡ some (
            if text_eq change.id id
            then accept_row F synced_at (pushed_change F.kind id pushed) change row
            else row)
  unfolding accept_change
  get-accept_change change rows id row e = elim (Option-cases (get rows change.id)) [
    | inr (w, found) ↦ rw (accept_change, found) (get-put_accepted change rows id row w e found)
    | inl absent ↦ elim (Bool-cases (text_eq change.id id)) [
      | inl same ↦ let q = ap (get rows) ((text_eq_iff change.id id).0 same) in ground arith
      | inr other ↦ rw (accept_change, absent, other) e
    ]
  ]

  -- One accepted change leaves an edited row pending, with its content, and still edited.
  accept_row-edited :
      (p change : AcceptedChange) (row : LocalRow T)
      → IsLawful F
      → still_matches F (some p) row ≡ false
      → ((accept_row F synced_at (some p) change row).entity ≡ F.with_status row.entity pending)
        × (still_matches F (some p) (accept_row F synced_at (some p) change row) ≡ false)
  unfolding accept_row still_matches
  accept_row-edited p change row lawful edited = (
    rw (edited, lawful.with_version_same row.entity) refl,
    rw
        (
          edited,
          lawful.with_version_same row.entity,
          lawful.version-with_status row.entity pending,
          lawful.updated_at-with_status row.entity pending,
        )
        edited,
  )

  accept_all-Kept :
      (p : AcceptedChange) (row : LocalRow T) (changes : List AcceptedChange)
      → IsLawful F
      → still_matches F (some p) row ≡ false
      → Kept F row (accept_all (some p) row changes)
  accept_all-Kept p row [] lawful edited = inl refl
  accept_all-Kept p row (change ∷ changes) lawful edited =
      let step = accept_row-edited p change row lawful edited in
      elim (accept_all-Kept p (accept_row F synced_at (some p) change row) changes lawful step.1) [
        | inl same ↦ inr (ap (λ (r : LocalRow T). r.entity) same ∙ step.0)
        | inr again ↦ inr (
            again
            ∙ ap (λ e. F.with_status e pending) step.0
            ∙ lawful.with_status_again row.entity pending pending)
      ]

module _ (synced_at : Text) (pushed : List AcceptedChange) where
  get-notes-mark_accepted_change :
      (change : AcceptedChange) (db : LocalDb) (id : Text) (row : LocalRow Note)
      → get db.notes id ≡ some row
      → get (mark_accepted_change synced_at pushed db change).notes id
        ≡ some (
            if is_of_note id change
            then accept_row note_fields synced_at
                (pushed_change note_fields.kind id pushed)
                change
                row
            else row)
  unfolding mark_accepted_change
  get-notes-mark_accepted_change change db id row e =
      elim (Bool-cases (is_kind change.entity_kind note_kind)) [
        | inl is_note ↦
            rw is_note (get-accept_change note_fields synced_at pushed change db.notes id row e)
        | inr other ↦ rw other (e)
      ]

  pub get-notes-mark_accepted_changes :
      (accepted : List AcceptedChange) (db : LocalDb) (id : Text) (row : LocalRow Note)
      → get db.notes id ≡ some row
      → get (mark_accepted_changes accepted synced_at pushed db).notes id
        ≡ some (
            accept_all note_fields synced_at pushed
              (pushed_change note_fields.kind id pushed)
              row
              (keep_if (is_of_note id) accepted))
  unfolding mark_accepted_changes
  get-notes-mark_accepted_changes [] db id row e = e
  get-notes-mark_accepted_changes (change ∷ changes) db id row e =
      let step = get-notes-mark_accepted_change change db id row e in
      let after = mark_accepted_change synced_at pushed db change in
      elim (Bool-cases (is_of_note id change)) [
        | inl named ↦
            rw (keep_if, named)
              (get-notes-mark_accepted_changes changes after id
                (accept_row note_fields synced_at (pushed_change note_fields.kind id pushed) change
                  row)
                (step ∙ rw named refl))
        | inr other ↦
            rw (keep_if, other)
              (get-notes-mark_accepted_changes changes after id row (step ∙ rw other refl))
      ]

  get-notebooks-mark_accepted_change :
      (change : AcceptedChange) (db : LocalDb) (id : Text) (row : LocalRow Notebook)
      → get db.notebooks id ≡ some row
      → get (mark_accepted_change synced_at pushed db change).notebooks id
        ≡ some (
            if is_of_notebook id change
            then accept_row notebook_fields synced_at
                (pushed_change notebook_fields.kind id pushed)
                change
                row
            else row)
  unfolding mark_accepted_change
  get-notebooks-mark_accepted_change change db id row e =
      elim (Bool-cases (is_kind change.entity_kind note_kind)) [
        | inl is_note ↦ rw is_note (e)
        | inr other ↦
            rw other
              (get-accept_change notebook_fields synced_at pushed change db.notebooks id row e)
      ]

  get-notebooks-mark_accepted_changes :
      (accepted : List AcceptedChange) (db : LocalDb) (id : Text) (row : LocalRow Notebook)
      → get db.notebooks id ≡ some row
      → get (mark_accepted_changes accepted synced_at pushed db).notebooks id
        ≡ some (
            accept_all notebook_fields synced_at pushed
              (pushed_change notebook_fields.kind id pushed)
              row
              (keep_if (is_of_notebook id) accepted))
  unfolding mark_accepted_changes
  get-notebooks-mark_accepted_changes [] db id row e = e
  get-notebooks-mark_accepted_changes (change ∷ changes) db id row e =
      let step = get-notebooks-mark_accepted_change change db id row e in
      let after = mark_accepted_change synced_at pushed db change in
      elim (Bool-cases (is_of_notebook id change)) [
        | inl named ↦
            rw (keep_if, named)
              (get-notebooks-mark_accepted_changes changes after id
                (accept_row notebook_fields synced_at (pushed_change notebook_fields.kind id pushed)
                  change row)
                (step ∙ rw named refl))
        | inr other ↦
            rw (keep_if, other)
              (get-notebooks-mark_accepted_changes changes after id row (step ∙ rw other refl))
      ]

  -- `markAcceptedChanges` loses no edit that was made while the push was under way: a note whose
  -- version or time of change is no longer the pushed one is as it was, or has its content, its version
  -- included, and is pending again, whatever changes the server has accepted.
  pub mark_accepted_changes-Kept :
      (accepted : List AcceptedChange) (db : LocalDb) (id : Text) (p : AcceptedChange)
      (row : LocalRow Note)
      → get db.notes id ≡ some row
      → pushed_change note_kind id pushed ≡ some p
      → still_matches note_fields (some p) row ≡ false
      → (row' : LocalRow Note) × (get (mark_accepted_changes accepted synced_at pushed db).notes id
          ≡ some row')
        × Kept note_fields row row'
  mark_accepted_changes-Kept accepted db id p row e found edited = (
    accept_all note_fields synced_at pushed (some p) row (keep_if (is_of_note id) accepted),
    get-notes-mark_accepted_changes accepted db id row e ∙ rw found refl,
    accept_all-Kept note_fields synced_at pushed p row (keep_if (is_of_note id) accepted)
        note_fields-IsLawful edited,
  )

  -- The same for a notebook.
  pub mark_accepted_changes-Kept_notebook :
      (accepted : List AcceptedChange) (db : LocalDb) (id : Text) (p : AcceptedChange)
      (row : LocalRow Notebook)
      → get db.notebooks id ≡ some row
      → pushed_change notebook_kind id pushed ≡ some p
      → still_matches notebook_fields (some p) row ≡ false
      → (row' : LocalRow Notebook) × (get
            (mark_accepted_changes accepted synced_at pushed db).notebooks
            id
          ≡ some row')
        × Kept notebook_fields row row'
  mark_accepted_changes-Kept_notebook accepted db id p row e found edited = (
    accept_all notebook_fields synced_at pushed (some p) row (keep_if (is_of_notebook id) accepted),
    get-notebooks-mark_accepted_changes accepted db id row e ∙ rw found refl,
    accept_all-Kept notebook_fields synced_at pushed p row (keep_if (is_of_notebook id) accepted)
        notebook_fields-IsLawful edited,
  )

  -- A note that is as it was pushed, and that the server accepts once, is synchronised with the version
  -- that the server gave it, which is the version that the next push starts from.
  pub mark_accepted_changes_settles :
      (accepted : List AcceptedChange) (db : LocalDb) (id : Text) (change : AcceptedChange)
      (row : LocalRow Note)
      → get db.notes id ≡ some row
      → still_matches note_fields (pushed_change note_kind id pushed) row ≡ true
      → keep_if (is_of_note id) accepted ≡ change ∷ []
      → (row' : LocalRow Note) × (get (mark_accepted_changes accepted synced_at pushed db).notes id
          ≡ some row')
        × (row'.entity ≡ record (row.entity) { version = change.version; sync_status = synced })
        × (row'.last_synced_version ≡ change.version)
  unfolding accept_row
  mark_accepted_changes_settles accepted db id change row e matches once = (
    accept_row note_fields synced_at (pushed_change note_kind id pushed) change row,
    get-notes-mark_accepted_changes accepted db id row e ∙ rw once refl,
    rw matches refl,
    refl,
  )
