-- ===== src/SyncSpec/Differ.antt =====
-- `recordsDiffer` and `shouldConflict`, and the fingerprint of a record.
use author.Common.{
  ℕ, ◌≢◌, ◌≡◌, ◌↔◌, Bool, true, false, Option, none, some, Text, text_eq_iff, text_eq?_iff, join,
  arith, [], ◌∷◌,
}
use author.Schema.{Note, Notebook}
use author.ApiTypes.{SyncEntity, note, notebook}
use author.SyncSpec.{
  field_differs, note_notebook_ids, normalized_notebook_id, notes_differ, notebooks_differ,
  records_differ, should_conflict, entity_version,
}

-- A field is known by its hash, if it has one that is not empty, otherwise by its text.
pub data FieldKey : Type 0 where
  hashed plain : Text → FieldKey

abbrev pub field_key : Option Text → Text → FieldKey
field_key none s = plain s
field_key (some []) s = plain s
field_key (some (c ∷ h)) s = hashed (c ∷ h)

pub data Fingerprint : Type 0 where
  of_note :
      FieldKey → FieldKey → Text → Option Text → Option Text → Option Text → Bool → Fingerprint
  of_notebook : FieldKey → Option Text → Fingerprint

abbrev pub fingerprint : SyncEntity → Fingerprint
fingerprint (note n) =
    of_note (field_key n.title_hash n.title) (field_key n.body_hash n.body)
      (join (0 ∷ []) (note_notebook_ids n)) (normalized_notebook_id n.notebook_id) n.deleted_at
      n.trashed_at n.is_favorite
fingerprint (notebook b) = of_notebook (field_key b.name_hash b.name) b.deleted_at

field_differs-eq-false_iff :
    (g h : Option Text) (s t : Text)
    → (field_differs g h s t ≡ false) ↔ (field_key g s ≡ field_key h t)
unfolding field_differs
field_differs-eq-false_iff g h s t = ground (arith, text_eq?_iff g h, text_eq_iff s t)

notes_differ-eq-false_iff :
    (a b : Note) → (notes_differ a b ≡ false) ↔ (fingerprint (note a) ≡ fingerprint (note b))
unfolding notes_differ
notes_differ-eq-false_iff a b = ground (
  arith,
  field_differs-eq-false_iff a.title_hash b.title_hash a.title b.title,
  field_differs-eq-false_iff a.body_hash b.body_hash a.body b.body,
  text_eq_iff (join (0 ∷ []) (note_notebook_ids a)) (join (0 ∷ []) (note_notebook_ids b)),
  text_eq?_iff (normalized_notebook_id a.notebook_id) (normalized_notebook_id b.notebook_id),
  text_eq?_iff a.deleted_at b.deleted_at,
  text_eq?_iff a.trashed_at b.trashed_at,
)

notebooks_differ-eq-false_iff :
    (a b : Notebook)
    → (notebooks_differ a b ≡ false) ↔ (fingerprint (notebook a) ≡ fingerprint (notebook b))
unfolding notebooks_differ
notebooks_differ-eq-false_iff a b = ground (
  arith,
  field_differs-eq-false_iff a.name_hash b.name_hash a.name b.name,
  text_eq?_iff a.deleted_at b.deleted_at,
)

-- Two records are not reported as different exactly when their fingerprints are equal: for notes the
-- keys of title and body (the hash where it is not empty, otherwise the text), the joined sorted
-- notebook ids, the notebook id, both deletion times and the favorite flag; for notebooks the key of
-- the name and the deletion time. A note and a notebook always differ.
pub records_differ-eq-false_iff :
    (a b : SyncEntity) → (records_differ a b ≡ false) ↔ (fingerprint a ≡ fingerprint b)
unfolding records_differ
records_differ-eq-false_iff (note a) (note b) = notes_differ-eq-false_iff a b
records_differ-eq-false_iff (notebook a) (notebook b) = notebooks_differ-eq-false_iff a b
records_differ-eq-false_iff (note a) (notebook b) = ground arith
records_differ-eq-false_iff (notebook a) (note b) = ground arith

-- A push conflicts exactly when there is a remote record, its fingerprint is another, and the push is
-- based on another version than the remote one.
pub should_conflict_iff :
    (local remote : SyncEntity) (base : ℕ)
    → (should_conflict local (some remote) base ≡ true)
      ↔ ((fingerprint local ≢ fingerprint remote) × (base ≢ entity_version remote))
unfolding should_conflict
should_conflict_iff local remote base = ground (arith, records_differ-eq-false_iff local remote)
