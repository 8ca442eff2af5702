-- ===== src/Repository/Push/Accounting.antt =====
-- What a round of the loops of `pushChanges` answers and writes.

use author.Common.{
  ℕ, ◌+◌, ◌≡◌, refl, true, List, [], ◌∷◌, ◌++◌, map, Text, text_Eq, arith, length, length-append,
  if◌then◌else◌,
}
use mathlib.Core.List.{map-append}
use author.Common.Dedup.{contains, contains-append}
use author.ApiTypes.{SyncEntity, EntityKind, AcceptedChange}
use author.Repository.Store.{Db, kind_eq}
use author.Repository.Verdicts.{Verdict, refuse, keep, store}
use author.Repository.Answers.{Pass, settle, accepted, entity_id}

-- The ids of the accepted records of a kind.
abbrev pub accepted_ids : EntityKind → List AcceptedChange → List Text
accepted_ids kind [] = []
accepted_ids kind (a ∷ rest_changes) =
    let rest = accepted_ids kind rest_changes in
    if kind_eq kind a.entity_kind then a.id ∷ rest else rest

accepted_ids-append :
    (kind : EntityKind) (xs ys : List AcceptedChange)
    → accepted_ids kind (xs ++ ys) ≡ accepted_ids kind xs ++ accepted_ids kind ys
accepted_ids-append kind [] ys = refl
accepted_ids-append kind (x ∷ xs) ys = ground (arith, accepted_ids-append kind xs ys)

abbrev pub answers : {T : Type 0} → Pass T → ℕ
answers p = length p.accepted_changes + length p.conflicts

module _ (uuid : ℕ → Text) (tx : Db) (owner device_name : Text) {T : Type 0} (kind : EntityKind)
    (wrap : T → SyncEntity) where
  pub answers-settle :
      (p : Pass T) (v : Verdict T)
      → answers (settle uuid tx owner device_name kind wrap p v) ≡ answers p + 1
  unfolding settle
  answers-settle p (refuse local remote reason) = omega (arith, length-append {0} p.conflicts)
  answers-settle p (keep r) = omega (arith, length-append {0} p.accepted_changes)
  answers-settle p (store r) = omega (arith, length-append {0} p.accepted_changes)

  abbrev pub written_ids : Pass T → List Text
  written_ids p = map (λ r. entity_id (wrap r)) p.to_write

  -- What is to be written has been accepted; other kinds are not touched.
  pub settle_written :
      (p : Pass T) (v : Verdict T) (id : Text)
      → (contains (written_ids p) id ≡ true
          → contains (accepted_ids kind p.accepted_changes) id ≡ true)
      → contains (written_ids (settle uuid tx owner device_name kind wrap p v)) id ≡ true
      → contains
          (accepted_ids kind (settle uuid tx owner device_name kind wrap p v).accepted_changes)
          id
        ≡ true
  unfolding settle accepted contains
  settle_written p (refuse local remote reason) id h k = h k
  settle_written p (keep r) id h k = ground (
    arith,
    accepted_ids-append kind p.accepted_changes (accepted kind (wrap r) ∷ []),
    contains-append (accepted_ids kind p.accepted_changes) (entity_id (wrap r) ∷ []) id,
  )
  settle_written p (store r) id h k = ground (
    arith,
    map-append (λ t. entity_id (wrap t)) p.to_write (r ∷ []),
    contains-append (written_ids p) (entity_id (wrap r) ∷ []) id,
    accepted_ids-append kind p.accepted_changes (accepted kind (wrap r) ∷ []),
    contains-append (accepted_ids kind p.accepted_changes) (entity_id (wrap r) ∷ []) id,
  )

  -- Accepted records of any kind stay accepted.
  pub settle_grows :
      (p : Pass T) (v : Verdict T) (k : EntityKind) (id : Text)
      → contains (accepted_ids k p.accepted_changes) id ≡ true
      → contains
          (accepted_ids k (settle uuid tx owner device_name kind wrap p v).accepted_changes)
          id
        ≡ true
  unfolding settle contains
  settle_grows p (refuse local remote reason) k id h = h
  settle_grows p (keep r) k id h = ground (
    arith,
    accepted_ids-append k p.accepted_changes (accepted kind (wrap r) ∷ []),
    contains-append (accepted_ids k p.accepted_changes)
        (accepted_ids k (accepted kind (wrap r) ∷ [])) id,
  )
  settle_grows p (store r) k id h = ground (
    arith,
    accepted_ids-append k p.accepted_changes (accepted kind (wrap r) ∷ []),
    contains-append (accepted_ids k p.accepted_changes)
        (accepted_ids k (accepted kind (wrap r) ∷ [])) id,
  )
