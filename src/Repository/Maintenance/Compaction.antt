-- ===== src/Repository/Maintenance/Compaction.antt =====
-- `compactEntityChanges`, and the newest change of a record.
use author.Common.{
  ℕ, ◌≤◌, ◌≡◌, refl, Bool, true, Option, some, List, [], ◌∷◌, Text, find, keep_if, arith,
  Bool-cases, inl, inr, ◌==◌,
}
use author.ApiTypes.{note_kind, notebook_kind}
use author.Repository.Store.{
  Change, EntityKey, Db, entity_key_eq, entity_key_eq_iff, key_Eq, entity_key_Eq,
}
use author.Repository.Log.{
  IsOrdered, latest_entity_change, latest_entity_operation, entity_key, max_revision,
}
use author.Repository.Log.Newest.{
  keep_if-Memᴰ, find-Memᴰ, any-Memᴰ, find-keep_if, find-Newest, Newest, All-keep_if_of,
  max_revision-Newest,
}
use author.Repository.Consistency.{IsConsistent}
use author.Repository.Maintenance.{
  owner_matches, owned_changes, outlives_compaction, compact_entity_changes,
}

IsOrdered-weaken : (m n : ℕ) (cs : List Change) → m ≤ n → IsOrdered m cs → IsOrdered n cs
IsOrdered-weaken m n [] le h = tt
IsOrdered-weaken m n (c ∷ cs) le (lt, h) = (omega arith, h)

keep_if-IsOrdered :
    (q : Change → Bool) (bound : ℕ) (cs : List Change)
    → IsOrdered bound cs
    → IsOrdered bound (keep_if q cs)
keep_if-IsOrdered q bound [] h = tt
keep_if-IsOrdered q bound (c ∷ cs) (lt, h) = elim (Bool-cases (q c)) [
  | inl t ↦ rw (t, keep_if) (lt, keep_if-IsOrdered q c.revision cs h)
  | inr f ↦
      rw (f, keep_if)
        (IsOrdered-weaken c.revision bound (keep_if q cs) (omega arith)
          (keep_if-IsOrdered q c.revision cs h))
]

-- The newest change of a record outlives the compaction.
newest_outlives :
    (owner : Option Text) (db : Db) (key : EntityKey) (c : Change)
    → IsOrdered db.next_revision db.changes
    → find (λ d. entity_key_eq d.key key) db.changes ≡ some c
    → outlives_compaction owner db.changes c ≡ true
newest_outlives owner db key c ordered found = elim (Bool-cases (owner_matches owner c.key.owner)) [
  | inr other ↦ ground arith
  | inl owned ↦
      let of_key = λ (d : Change). entity_key_eq d.key key in
      let mine = λ (d : Change). owner_matches owner d.key.owner in
      let (m, t) = find-Memᴰ of_key db.changes c found in
      let member = keep_if-Memᴰ mine db.changes c owned m in
      let most =
        max_revision-Newest key c (owned_changes owner db.changes)
          ((entity_key_eq_iff c.key key).0 t) member
          (All-keep_if_of (Newest of_key c) mine db.changes
            (find-Newest of_key db.next_revision db.changes c ordered found)) in
      let hit =
        any-Memᴰ
          (λ d.
            max_revision (keep_if (λ e. entity_key_eq e.key d.key) (owned_changes owner db.changes))
            == c.revision)
          (owned_changes owner db.changes) c member (ground arith) in
      ground arith
]

-- In a log whose revisions fall from the newest change to the oldest, `compactEntityChanges` keeps the
-- newest change of every record, whichever owner it is for.
pub latest_entity_change-compact_entity_changes :
    (owner : Option Text) (db : Db) (key : EntityKey)
    → IsOrdered db.next_revision db.changes
    → latest_entity_change (compact_entity_changes owner db).1 key ≡ latest_entity_change db key
unfolding latest_entity_change compact_entity_changes
latest_entity_change-compact_entity_changes owner db key ordered =
    find-keep_if (λ d. entity_key_eq d.key key) (outlives_compaction owner db.changes) db.changes
      (λ c found. newest_outlives owner db key c ordered found)

latest_entity_operation_of_change :
    (a b : Db) (key : EntityKey)
    → latest_entity_change a key ≡ latest_entity_change b key
    → latest_entity_operation a key ≡ latest_entity_operation b key
unfolding latest_entity_operation
latest_entity_operation_of_change a b key e = rw (e, latest_entity_operation) refl

-- `compactEntityChanges` keeps a consistent store consistent.
pub compact_entity_changes-IsConsistent :
    (owner : Option Text) (db : Db)
    → IsConsistent db
    → IsConsistent (compact_entity_changes owner db).1
unfolding compact_entity_changes
compact_entity_changes-IsConsistent owner db c =
    let after = (compact_entity_changes owner db).1 in
    let same = λ (key : EntityKey).
      latest_entity_operation_of_change after db key
        (latest_entity_change-compact_entity_changes owner db key c.ordered) in
    record {
      ordered =
          keep_if-IsOrdered (outlives_compaction owner db.changes) db.next_revision db.changes
            c.ordered;
      note_logged = λ o id t. rw (same (entity_key o note_kind id)) (c.note_logged o id t);
      notebook_logged =
          λ o id t. rw (same (entity_key o notebook_kind id)) (c.notebook_logged o id t);
      note_buried = c.note_buried;
      notebook_buried = c.notebook_buried;
    }
