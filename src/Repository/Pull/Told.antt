-- ===== src/Repository/Pull/Told.antt =====
-- What the lists of a page of `pullChangesSince` leave out.
use mathlib.Core.List.{Memᴰ}
use author.Common.{
  ℕ, ◌≡◌, refl, ap, sym, ◌∙◌, true, false, ◌&&◌, some, List, [], ◌∷◌, Text, text_eq, text_eq_iff,
  text_Eq, Eq, keep_if, or_else, for_each, for_each_inv, All, arith, Bool-cases, Option-cases, inl,
  inr,
}
use author.Common.Dedup.{contains}
use author.Common.Table.{Table, get, put, upsert}
use author.ApiTypes.{EntityKind, device_kind, notebook_kind, note_kind}
use author.Repository.Store.{
  Change, Db, EntityKey, Operation, entity_key_eq, entity_key_eq_iff, entity_key_Eq, kind_eq, Key,
  key_Eq,
}
use author.Repository.Chunks.{for_each-chunks}
use author.Repository.Log.{entity_key, unique_entity_ids}
use author.Repository.Log.Newest.{All-keep_if_of}
use author.Repository.Queries.{row_key, as_record, get_by_ids, add_row}
use author.Repository.Pull.{
  changes_between, in_range, is_latest_in, latest_changes, by_entity, ids_with, operation_eq,
  values,
}
use author.Repository.Pull.Cursor.{All-reverse_aux, All-keep_if}

module _ {ℓ κ} {K : Type ℓ} {V : Type κ} ⦃e : Eq K⦄ (P : K × V → Type 0) where
  pub All-put :
      (t : Table K V) (k : K) (v : V)
      → ((j : K) → e.equals j k ≡ true → P (j, v))
      → P (k, v)
      → All P t
      → All P (put t k v)
  unfolding put upsert
  All-put [] k v same new h = (new, tt)
  All-put ((j, w) ∷ t) k v same new (p, h) = elim (Bool-cases (e.equals j k)) [
    | inl hit ↦ rw hit (same j hit, h)
    | inr miss ↦ rw miss (p, All-put t k v same new h)
  ]

pub some_eq : {T : Type 0} {a b : T} → some a ≡ some b → a ≡ b
some_eq {a = a} e = ap (λ o. or_else o a) e

pub values-All :
    {T : Type 0} (P : Text × T → Type 0) (t : Table Text T) (v : T)
    → All P t
    → Memᴰ v (values t)
    → (id : Text) × P (id, v)
values-All P [] v h m = elim m [ ]
values-All P ((id, w) ∷ t) v (p, h) (Memᴰ.head same) = (id, rw same p)
values-All P ((id, w) ∷ t) v (p, h) (Memᴰ.tail m) = values-All P t v h m

-- The records of a bulk read are those of their rows.
module _ {Row T : Type 0} (convert : Text → Row → T) (rows : Table Key Row) (owner : Text) where
  abbrev pub IsFetched : Text × T → Type 0
  IsFetched (id, r) = as_record convert id (get rows (row_key owner id)) ≡ some r

  add_row-IsFetched :
      (found : Table Text T) (id : Text)
      → All IsFetched found
      → All IsFetched (add_row convert rows owner found id)
  add_row-IsFetched found id h = elim (Option-cases (get rows (row_key owner id))) [
    | inl e ↦ rw e h
    | inr (row, e) ↦
        let here : IsFetched (id, convert id row) = rw e refl in
        rw e (
          All-put IsFetched found id (convert id row) (λ j hit. rw ((text_eq_iff j id).0 hit) here)
            here h)
  ]

  pub get_by_ids-IsFetched : (ids : List Text) → All IsFetched (get_by_ids convert rows owner ids)
  unfolding get_by_ids
  get_by_ids-IsFetched ids =
      rw (for_each-chunks (add_row convert rows owner) 200 [] (unique_entity_ids ids) (omega arith))
        (for_each_inv (All IsFetched) (add_row convert rows owner) add_row-IsFetched []
          (unique_entity_ids ids) tt)

  pub of_IsFetched :
      (id : Text) (r : T)
      → IsFetched (id, r)
      → (row : Row) × (get rows (row_key owner id) ≡ some row) × (r ≡ convert id row)
  of_IsFetched id r h = elim (Option-cases (get rows (row_key owner id))) [
    | inl e ↦ absurd (let h1 = rw e at h in ground (arith))
    | inr (row, e) ↦ (row, e, let h1 = rw e at h in ground (arith))
  ]

kind_eq_comm : (a b : EntityKind) → kind_eq a b ≡ kind_eq b a
kind_eq_comm device_kind device_kind = refl
kind_eq_comm device_kind notebook_kind = refl
kind_eq_comm device_kind note_kind = refl
kind_eq_comm notebook_kind device_kind = refl
kind_eq_comm notebook_kind notebook_kind = refl
kind_eq_comm notebook_kind note_kind = refl
kind_eq_comm note_kind device_kind = refl
kind_eq_comm note_kind notebook_kind = refl
kind_eq_comm note_kind note_kind = refl

-- Every id that is listed for a kind and an operation was last changed by that operation.
module _ (db : Db) (owner : Text) (since upto : ℕ) (kind : EntityKind) (id : Text)
    (op : Operation) where
  abbrev Tells : EntityKey × Operation → Type 0
  Tells (k, o) = (entity_key_eq k (entity_key owner kind id) ≡ true → o ≡ op) × (k.owner ≡ owner)

  abbrev Says : Change → Type 0
  Says d = entity_key_eq d.key (entity_key owner kind id) ≡ true → d.operation ≡ op

  owned :
      (cs : List Change)
      → All (λ d. in_range owner since upto d ≡ true) cs
      → All (λ d. d.key.owner ≡ owner) cs
  owned [] h = tt
  owned (d ∷ cs) (p, h) = (ground (arith, text_eq_iff d.key.owner owner), owned cs h)

  latest_owned : All (λ d. d.key.owner ≡ owner) (latest_changes db owner since upto)
  unfolding latest_changes changes_between
  latest_owned =
      let changes = changes_between db owner since upto in
      All-keep_if_of (λ (d : Change). d.key.owner ≡ owner) (is_latest_in changes) changes
        (All-reverse_aux (λ (d : Change). d.key.owner ≡ owner)
          (keep_if (in_range owner since upto) db.changes) []
          (owned (keep_if (in_range owner since upto) db.changes)
            (All-keep_if (in_range owner since upto) db.changes))
          tt)

  fold-Tells :
      (t : Table EntityKey Operation) (cs : List Change)
      → All Tells t
      → All Says cs
      → All (λ d. d.key.owner ≡ owner) cs
      → All Tells (for_each (λ t (d : Change). put t d.key d.operation) t cs)
  fold-Tells t [] h s o = h
  fold-Tells t (d ∷ cs) h (s, ss) (o, os) =
      fold-Tells (put t d.key d.operation) cs
        (All-put Tells t d.key d.operation
          (λ j hit.
            let same = (entity_key_eq_iff j d.key).0 hit in
            (
              λ mine. s (ap (λ k. entity_key_eq k (entity_key owner kind id)) (sym same) ∙ mine),
              ap (λ (k : EntityKey). k.owner) same ∙ o,
            ))
          (s, o) h)
        ss os

  pub by_entity-Tells :
      All Says (latest_changes db owner since upto)
      → All Tells (by_entity (latest_changes db owner since upto))
  unfolding by_entity
  by_entity-Tells says = fold-Tells [] (latest_changes db owner since upto) tt says latest_owned

  apart_keys :
      (k : EntityKey)
      → k.owner ≡ owner
      → entity_key_eq k (entity_key owner kind id) ≡ false
      → (kind_eq kind k.kind && text_eq k.id id) ≡ false
  unfolding entity_key_eq
  apart_keys k owned other = ground (arith, kind_eq_comm kind k.kind, text_eq_iff k.owner owner)

  pub ids_with-only :
      (other : Operation) (t : Table EntityKey Operation)
      → operation_eq other op ≡ false
      → All Tells t
      → contains (ids_with kind other t) id ≡ false
  unfolding ids_with contains
  ids_with-only other [] differs h = refl
  ids_with-only other ((k, o) ∷ t) differs ((p, owned), h) =
      let rest = ids_with-only other t differs h in
      elim (Bool-cases (entity_key_eq k (entity_key owner kind id))) [
        | inl mine ↦
            let o_op = p mine in
            let out : operation_eq other o ≡ false = rw o_op differs in
            rw (ids_with, out) (ground (arith, rest))
        | inr other_key ↦
            let apart : (kind_eq kind k.kind && text_eq k.id id) ≡ false =
              apart_keys k owned other_key in
            ground (arith, rest, apart, text_eq_iff k.id id)
      ]
