-- ===== src/Client/Conflicts/Saved.antt =====
-- What `saveConflict` leaves of the records and stores of the conflict.
use author.Common.{
  ℕ, suc, ◌≡◌, refl, ap, ◌∙◌, true, false, Option, none, some, Text, text_eq, text_eq_iff, text_Eq,
  if◌then◌else◌, arith, Option-cases, inl, inr,
}
use author.Common.Table.{Table, get, get-put}
use author.ApiTypes.{SyncEntity, SyncConflict}
use author.Schema.{conflict}
use author.Client.Store.{LocalRow, unresolved, Shelf, Fields}
use author.Client.Conflicts.{
  with_row_status, is_version, current_conflict, is_stale, mark_conflict, save_attempts,
  save_conflict,
}

abbrev pub marked : {T : Type 0} → Fields T → Option (LocalRow T) → Option (LocalRow T)
marked F none = none
marked F (some row) = some (with_row_status F row conflict)

module _ {T : Type 0} (F : Fields T) where
  is_version_self :
      (row : LocalRow T) → is_version F row (F.version row.entity) (F.updated_at row.entity) ≡ true
  is_version_self row =
      ground (arith, text_eq_iff (F.updated_at row.entity) (F.updated_at row.entity))

  get-mark_conflict :
      (rows : Table Text (LocalRow T)) (id j : Text)
      → get (mark_conflict F rows id (get rows id)) j
        ≡ (if text_eq id j then marked F (get rows id) else get rows j)
  get-mark_conflict rows id j = elim (Option-cases (get rows id)) [
    | inl e ↦ rw e (ground (arith, text_eq_iff id j))
    | inr (row, e) ↦ rw (e, mark_conflict) (get-put rows id (with_row_status F row conflict) j)
  ]

  module _ (encrypt_conflict : SyncConflict SyncEntity → SyncConflict SyncEntity)
      (created_at : Text) (c : SyncConflict SyncEntity) (pushed : Option (ℕ × Text))
      (interfere : ℕ → Shelf T → Shelf T) where
    -- The attempts that found the record changed, from the first one to one with a store of its own; the
    -- numbers count the attempts left.
    pub data Retries : ℕ → Shelf T → ℕ → Shelf T → Type 0 where
      none_failed : (n : ℕ) (s : Shelf T) → Retries n s n s
      one_failed :
          (n m : ℕ) (s t : Shelf T)
          → is_stale F (get s.rows c.entity_id) (get (interfere n s).rows c.entity_id) pushed ≡ true
          → Retries n (interfere n s) m t
          → Retries (suc n) s m t

    -- The attempt that was saved, of those that the call makes from a store: the record is as others left it, marked as a conflict, and the
    -- conflict tells that very version of the record.
    pub record IsSaved (attempts : ℕ) (before after : Shelf T) : Type 0 where
      pub left : ℕ
      pub earlier : Shelf T
      pub found : Retries attempts before (suc left) earlier
      pub marked_rows :
          (j : Text)
          → get after.rows j ≡ (
              if text_eq c.entity_id j
              then marked F (get (interfere left earlier).rows c.entity_id)
              else get (interfere left earlier).rows j)
      pub entries :
          (j : Text)
          → get after.conflicts j ≡ (
              if text_eq c.id j
              then some (record {
                id = c.id;
                entity_kind = c.entity_kind;
                entity_id = c.entity_id;
                status = unresolved;
                created_at = created_at;
                conflict = encrypt_conflict (current_conflict F c (get earlier.rows c.entity_id));
              })
              else get (interfere left earlier).conflicts j)
      pub fresh :
          is_stale F
            (get earlier.rows c.entity_id)
            (get (interfere left earlier).rows c.entity_id)
            pushed
          ≡ false

    is_stale_self : (o : Option (LocalRow T)) → pushed ≡ none → is_stale F o o pushed ≡ false
    is_stale_self none e = refl
    is_stale_self (some row) e = rw (is_version_self row) refl

    -- Where nobody touches the record, the first attempt succeeds.
    pub save_conflict_undisturbed :
        (s : Shelf T)
        → pushed ≡ none
        → ((n : ℕ) (t : Shelf T) → get (interfere n t).rows c.entity_id ≡ get t.rows c.entity_id)
        → ((save_conflict F encrypt_conflict created_at c pushed interfere s).1 ≡ true)
          × (get
                (save_conflict F encrypt_conflict created_at c pushed interfere s).0.rows
                c.entity_id
              ≡ marked F (get s.rows c.entity_id))
    unfolding save_conflict save_attempts
    save_conflict_undisturbed s e quiet =
        let id = c.entity_id in
        let s' = interfere 2 s in
        let fresh : is_stale F (get s.rows id) (get s'.rows id) pushed ≡ false =
          rw (quiet 2 s) (is_stale_self (get s.rows id) e) in
        rw (fresh, save_conflict)
          (
            refl,
            get-mark_conflict s'.rows id id
                ∙ rw ((text_eq_iff id id).1 refl) (ap (marked F) (quiet 2 s)),
          )
