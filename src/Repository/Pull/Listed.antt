-- ===== src/Repository/Pull/Listed.antt =====
-- The lists of ids and of records that a page of `pullChangesSince` is made of.
use mathlib.Core.List.{Memᴰ}
use author.Common.{
  ℕ, zero, suc, ◌+◌, ◌<◌, ◌≡◌, refl, ap, true, none, some, List, [], ◌∷◌, Text, text_eq,
  text_eq_iff, text_Eq, subst, ltb, if◌then◌else◌, arith, Bool-cases, Option-cases, inl, inr, take,
  length, get_last?, Number, safe_natural,
}
use author.Common.Dedup.{contains}
use author.Common.Table.{Table, get}
use author.ApiTypes.{EntityKind, device_kind, notebook_kind, note_kind}
use author.Repository.Store.{
  EntityKey, Operation, upserted, deleted, entity_key_eq, entity_key_eq_iff, entity_key_Eq, kind_eq,
  key_Eq,
}
use author.Repository.Log.{entity_key}
use author.Repository.Pull.{ids_with, operation_eq, values, pull_limit}

kind_eq_self : (kind : EntityKind) → kind_eq kind kind ≡ true
kind_eq_self device_kind = refl
kind_eq_self note_kind = refl
kind_eq_self notebook_kind = refl

operation_eq_self : (op : Operation) → operation_eq op op ≡ true
operation_eq_self upserted = refl
operation_eq_self deleted = refl

pub ids_with-get :
    (kind : EntityKind) (op : Operation) (owner id : Text) (t : Table EntityKey Operation)
    → get t (entity_key owner kind id) ≡ some op
    → contains (ids_with kind op t) id ≡ true
unfolding ids_with contains get
ids_with-get kind op owner id [] h = absurd (cc)
ids_with-get kind op owner id ((k, o) ∷ t) h =
    elim (Bool-cases (entity_key_eq k (entity_key owner kind id))) [
      | inl hit ↦
          let same = (entity_key_eq_iff k (entity_key owner kind id)).0 hit in
          let kinds = ap (λ (x : EntityKey). x.kind) same in
          let ids = ap (λ (x : EntityKey). x.id) same in
          let ops : o ≡ op = ground arith in
          rw (kinds, ops, ids, kind_eq_self kind, operation_eq_self op, (text_eq_iff id id).1 refl)
            refl
      | inr miss ↦ let found = ids_with-get kind op owner id t (ground arith) in ground arith
    ]

pub values-get :
    {T : Type 0} (t : Table Text T) (id : Text) (r : T) → get t id ≡ some r → Memᴰ r (values t)
unfolding get
values-get [] id r h = absurd (cc)
values-get ((k, s) ∷ t) id r h = elim (Bool-cases (text_eq k id)) [
  | inl hit ↦ Memᴰ.head (ground arith)
  | inr miss ↦ Memᴰ.tail (values-get t id r (ground arith))
]

last_none {ℓ} : {A : Type ℓ} (x : A) (xs : List A) → get_last? (x ∷ xs) ≡ none → ⊥
last_none x [] e = cc
last_none x (y ∷ xs) e = last_none y xs e

take_more {ℓ} : {A : Type ℓ} (n : ℕ) (xs : List A) → 0 < n → get_last? (take n xs) ≡ none → xs ≡ []
take_more zero xs h e = absurd (omega arith)
take_more (suc n) [] h e = refl
take_more (suc n) (x ∷ xs) h e = absurd (last_none x (take n xs) e)

pub none_of_empty : {A : Type 0} {xs : List A} {x : A} → xs ≡ [] → Memᴰ x xs → ⊥
none_of_empty {x = x} e m = elim (subst (Memᴰ x) e m) [ ]

pub visible_empty {ℓ} :
    {A : Type ℓ} (n : ℕ) (xs : List A)
    → 0 < n
    → get_last?
        (if ltb n (length (take (n + 1) xs)) then take n (take (n + 1) xs) else take (n + 1) xs)
      ≡ none
    → xs ≡ []
visible_empty n xs h e =
    let rows = take (n + 1) xs in
    take_more (n + 1) xs (omega arith) (elim (Bool-cases (ltb n (length rows))) [
      | inl more ↦ ap get_last? (take_more n rows h (rw more at e))
      | inr last ↦ rw last at e
    ])

pub pull_limit_pos : (limit : Number) → 0 < pull_limit limit
unfolding pull_limit
pull_limit_pos limit = elim (Option-cases (safe_natural limit)) [
  | inl e ↦ rw (e, pull_limit) (omega arith)
  | inr (n, e) ↦ rw (e, pull_limit) (ground arith)
]
