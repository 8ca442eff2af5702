-- ===== src/Repository/Pull/Newest.antt =====
-- The newest change of a record, and the page of a pull whose range it is in.
use mathlib.Core.List.{Memᴰ}
use author.Common.{
  ℕ, ◌≤◌, ◌<◌, ◌≡◌, ap, sym, ◌∙◌, Bool, true, some, List, [], ◌∷◌, Text, text_eq_iff, text_Eq,
  keep_if, find, for_each, All, arith, Bool-cases, inl, inr, ◌⊎◌,
}
use author.Common.Table.{Table, get, put, get-put}
use author.ApiTypes.{EntityKind}
use author.Repository.Store.{
  Change, Db, EntityKey, Operation, entity_key_eq, entity_key_eq_iff, entity_key_Eq,
}
use author.Repository.Log.{entity_key, IsOrdered, max_revision, latest_entity_change}
use author.Repository.Log.Newest.{
  keep_if-Memᴰ, reverse_aux-Memᴰ, find-Memᴰ, All-keep_if_of, All-zip, Newest, find-Newest,
  le-max_revision, max_revision-Newest,
}
use author.Repository.Pull.{changes_between, in_range, is_latest_in, latest_changes, by_entity}
use author.Repository.Pull.Cursor.{All-reverse_aux, All-keep_if}
use mathlib.Core.Bool.{false≢true}

-- The newest change of a record is in the range of the page, and is the one that the page tells.
module _ (db : Db) (owner : Text) (since upto : ℕ) (kind : EntityKind) (id : Text) (c : Change)
    (ordered : IsOrdered db.next_revision db.changes)
    (newest : latest_entity_change db (entity_key owner kind id) ≡ some c)
    (after : since < c.revision) (within : c.revision ≤ upto) where
  abbrev key : EntityKey
  key = entity_key owner kind id

  abbrev of_key : Change → Bool
  of_key d = entity_key_eq d.key key

  found : find of_key db.changes ≡ some c
  unfolding latest_entity_change
  found = newest

  key_of_newest : c.key ≡ key
  key_of_newest =
      let (m, t) = find-Memᴰ of_key db.changes c found in (entity_key_eq_iff c.key key).0 t

  newest_in_range : in_range owner since upto c ≡ true
  newest_in_range =
      let same = ap (λ (k : EntityKey). k.owner) key_of_newest in
      ground (arith, text_eq_iff c.key.owner owner)

  pub newest_covered : Memᴰ c (changes_between db owner since upto)
  unfolding changes_between
  newest_covered =
      let (m, t) = find-Memᴰ of_key db.changes c found in
      reverse_aux-Memᴰ (keep_if (in_range owner since upto) db.changes) [] c
        (keep_if-Memᴰ (in_range owner since upto) db.changes c newest_in_range m)

  covered-Newest : All (Newest of_key c) (changes_between db owner since upto)
  unfolding changes_between
  covered-Newest =
      All-reverse_aux (Newest of_key c) (keep_if (in_range owner since upto) db.changes) []
        (All-keep_if_of (Newest of_key c) (in_range owner since upto) db.changes
          (find-Newest of_key db.next_revision db.changes c ordered found))
        tt

  newest_revision :
      max_revision (keep_if (λ d. entity_key_eq d.key c.key) (changes_between db owner since upto))
      ≡ c.revision
  newest_revision =
      max_revision-Newest key c (changes_between db owner since upto) key_of_newest newest_covered
        covered-Newest

  newest_listed : Memᴰ c (latest_changes db owner since upto)
  unfolding latest_changes
  newest_listed =
      let changes = changes_between db owner since upto in
      keep_if-Memᴰ (is_latest_in changes) changes c (ground (arith, newest_revision)) newest_covered

  -- What the newest changes of the range say of the record.
  abbrev Says : Change → Type 0
  Says d = of_key d ≡ true → d.operation ≡ c.operation

  latest_only :
      (d : Change)
      → is_latest_in (changes_between db owner since upto) d ≡ true
      → Newest of_key c d
      → Says d
  latest_only d latest n t =
      let same = (entity_key_eq_iff d.key key).0 t in
      let changes = changes_between db owner since upto in
      let least = le-max_revision (keep_if (λ e. entity_key_eq e.key d.key) changes) c (
        keep_if-Memᴰ (λ e. entity_key_eq e.key d.key) changes c
          ((entity_key_eq_iff c.key d.key).1 (key_of_newest ∙ sym same)) newest_covered) in
      let (most, equal) = n t in ap (λ (x : Change). x.operation) (equal (ground arith))

  pub latest-Says : All Says (latest_changes db owner since upto)
  unfolding latest_changes
  latest-Says =
      let changes = changes_between db owner since upto in
      All-zip latest_only (latest_changes db owner since upto)
        (All-keep_if (is_latest_in changes) changes)
        (All-keep_if_of (Newest of_key c) (is_latest_in changes) changes covered-Newest)

  by_entity-get :
      (t : Table EntityKey Operation) (cs : List Change)
      → All Says cs
      → (get t key ≡ some c.operation) ⊎ Memᴰ c cs
      → get (for_each (λ t (d : Change). put t d.key d.operation) t cs) key ≡ some c.operation
  by_entity-get t [] h (inl e) = e
  by_entity-get t [] h (inr m) = elim m [ ]
  by_entity-get t (d ∷ cs) (s, h) e =
      by_entity-get (put t d.key d.operation) cs h (elim (Bool-cases (of_key d)) [
        | inl hit ↦ inl (get-put t d.key d.operation key ∙ rw hit (ap some (s hit)))
        | inr miss ↦ elim e [
          | inl before ↦ inl (get-put t d.key d.operation key ∙ rw miss before)
          | inr (Memᴰ.head same) ↦ absurd (
              false≢true
                (sym miss ∙ ap of_key (sym same) ∙ (entity_key_eq_iff c.key key).1 key_of_newest))
          | inr (Memᴰ.tail m) ↦ inr m
        ]
      ])

  pub newest_told : get (by_entity (latest_changes db owner since upto)) key ≡ some c.operation
  unfolding by_entity
  newest_told =
      by_entity-get [] (latest_changes db owner since upto) latest-Says (inr newest_listed)
