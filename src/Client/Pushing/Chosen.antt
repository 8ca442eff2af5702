-- ===== src/Client/Pushing/Chosen.antt =====
-- Which of the rows of a table `runSyncUnlocked` pushes.
use author.Common.{
  ◌≡◌, refl, ap, ◌∙◌, Bool, true, false, not, ◌&&◌, List, [], ◌∷◌, Text, text_eq, text_eq_iff,
  text_Eq, truthy?, map, keep_if, any, ◌==◌, arith,
}
use author.Common.Dedup.{contains}
use author.Common.Table.{Table}
use author.Client.Store.{LocalRow, Fields, is_pending}
use author.Client.References.{safe_base_version}
use author.Client.Pushing.{
  pending_rows, syncable_rows, is_local_only_deleted, local_only_deleted_ids,
}

-- The rows of a table.
abbrev pub rows_of : {T : Type 0} → Table Text (LocalRow T) → List (LocalRow T)
rows_of [] = []
rows_of ((key, row) ∷ rows) = row ∷ rows_of rows

module _ {A : Type 0} (p q : A → Bool) where
  keep_if-keep_if : (xs : List A) → keep_if q (keep_if p xs) ≡ keep_if (λ x. p x && q x) xs
  keep_if-keep_if [] = refl
  keep_if-keep_if (x ∷ xs) = ground (arith, keep_if-keep_if xs)

  any-keep_if : (xs : List A) → any q (keep_if p xs) ≡ any (λ x. p x && q x) xs
  any-keep_if [] = refl
  any-keep_if (x ∷ xs) = ground (arith, any-keep_if xs)

  keep_if-agree : ((x : A) → p x ≡ q x) → (xs : List A) → keep_if p xs ≡ keep_if q xs
  keep_if-agree same [] = refl
  keep_if-agree same (x ∷ xs) = ground (arith, same x, keep_if-agree same xs)

any-agree :
    {A : Type 0} (p q : A → Bool) → ((x : A) → p x ≡ q x) → (xs : List A) → any p xs ≡ any q xs
any-agree p q same [] = refl
any-agree p q same (x ∷ xs) = ground (arith, same x, any-agree p q same xs)

and_assoc : (a b c : Bool) → (a && (b && c)) ≡ (a && b && c)
and_assoc true b c = refl
and_assoc false b c = refl

contains-map :
    {A : Type 0} (f : A → Text) (xs : List A) (id : Text)
    → contains (map f xs) id ≡ any (λ x. text_eq (f x) id) xs
unfolding contains
contains-map f [] id = refl
contains-map f (x ∷ xs) id =
    ground (arith, contains-map f xs id, text_eq_iff (f x) id, text_eq_iff id (f x))

module _ {T : Type 0} (F : Fields T) where
  -- A pending record that was deleted and that the server never had.
  abbrev pub never_reached : LocalRow T → Bool
  never_reached row =
      is_pending (F.status row.entity)
      && ((safe_base_version row == 0) && truthy? (F.deleted_at row.entity))

  -- A pending record, where none of its id is one that never reached the server.
  abbrev pub is_pushed : List (LocalRow T) → LocalRow T → Bool
  is_pushed rows row =
      is_pending (F.status row.entity)
      && not (any (λ r. never_reached r && text_eq (F.id r.entity) (F.id row.entity)) rows)

  pending_rows_lem :
      (t : Table Text (LocalRow T))
      → pending_rows F t ≡ keep_if (λ r. is_pending (F.status r.entity)) (rows_of t)
  unfolding pending_rows
  pending_rows_lem [] = refl
  pending_rows_lem ((key, row) ∷ t) = ground (arith, pending_rows_lem t)

  abbrev is_dropped : List (LocalRow T) → LocalRow T → Bool
  is_dropped rows row = contains (local_only_deleted_ids F rows) (F.id row.entity)

  is_dropped_lem :
      (rows : List (LocalRow T)) (row : LocalRow T)
      → is_dropped (keep_if (λ r. is_pending (F.status r.entity)) rows) row
        ≡ any (λ r. never_reached r && text_eq (F.id r.entity) (F.id row.entity)) rows
  unfolding local_only_deleted_ids is_local_only_deleted
  is_dropped_lem rows row =
      let id = F.id row.entity in
      let pending_ones = keep_if (λ (r : LocalRow T). is_pending (F.status r.entity)) rows in
      contains-map (λ (r : LocalRow T). F.id r.entity)
        (keep_if (is_local_only_deleted F) pending_ones) id
      ∙ any-keep_if (is_local_only_deleted F) (λ r. text_eq (F.id r.entity) id) pending_ones
      ∙ any-keep_if (λ r. is_pending (F.status r.entity))
          (λ r. is_local_only_deleted F r && text_eq (F.id r.entity) id) rows
      ∙ any-agree _ _
          (λ r.
            and_assoc (is_pending (F.status r.entity)) (is_local_only_deleted F r)
              (text_eq (F.id r.entity) id))
          rows

  pub syncable_rows_lem :
      (t : Table Text (LocalRow T))
      → syncable_rows F (pending_rows F t) ≡ keep_if (is_pushed (rows_of t)) (rows_of t)
  unfolding syncable_rows
  syncable_rows_lem t = rw (pending_rows_lem t) (
      keep_if-keep_if (λ (r : LocalRow T). is_pending (F.status r.entity))
        (λ r. not (is_dropped (keep_if (λ r. is_pending (F.status r.entity)) (rows_of t)) r))
        (rows_of t)
      ∙ keep_if-agree _ (is_pushed (rows_of t))
          (λ r. ap (λ b. is_pending (F.status r.entity) && not b) (is_dropped_lem (rows_of t) r))
          (rows_of t))
