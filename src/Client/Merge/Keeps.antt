-- ===== src/Client/Merge/Keeps.antt =====
-- What `mergeRemoteNote` and `mergeRemoteNotebook` do with the local record.
use author.Common.{
  ℕ, ◌≡◌, refl, sym, ◌∙◌, true, none, some, Text, text_eq, text_eq_iff, text_Eq, ltb, Bool-cases,
  Option-cases, inl, inr,
}
use author.Common.Table.{get, get-put}
use author.Schema.{conflict}
use author.Client.Store.{LocalRow, Shelf, Fields, IsLawful, is_unsynced}
use author.Client.Conflicts.{Outcome, with_row_status}
use author.Client.Conflicts.Saved.{save_conflict_undisturbed}
use author.Client.Merge.{
  Crypto, Session, arrived, merge_conflict, merge_over, merge_remote, merge_local, stands_against,
  catch_up,
}

-- A record with the content of another one, and a local change that is still to be pushed or resolved.
pub record KeepsChange {T : Type 0} (F : Fields T) (row row' : LocalRow T) : Type 0 where
  pub same_content : row'.entity ≡ F.with_status row.entity (F.status row'.entity)
  pub unsynced : is_unsynced (F.status row'.entity) ≡ true

module _ {T : Type 0} (F : Fields T) (crypto : Crypto T) (session : Session)
    (interfere : Shelf T → Shelf T) (interfere_saving : ℕ → Shelf T → Shelf T) (remote : T) where
  abbrev id : Text
  id = F.id remote

  abbrev merged : Shelf T → Outcome (Shelf T)
  merged = merge_remote F crypto session interfere interfere_saving remote

  KeepsChange-self :
      (row : LocalRow T)
      → IsLawful F
      → is_unsynced (F.status row.entity) ≡ true
      → KeepsChange F row row
  KeepsChange-self row lawful u = record {
    same_content = sym (lawful.with_status_same row.entity);
    unsynced = u;
  }

  KeepsChange-catch_up :
      (row : LocalRow T)
      → IsLawful F
      → is_unsynced (F.status row.entity) ≡ true
      → KeepsChange F row (catch_up F crypto session interfere interfere_saving row remote)
  KeepsChange-catch_up row lawful u = record {
    same_content = sym (lawful.with_status_same row.entity);
    unsynced = u;
  }

  KeepsChange-conflict :
      (row : LocalRow T) → IsLawful F → KeepsChange F row (with_row_status F row conflict)
  KeepsChange-conflict row lawful = record {
    same_content = rw (lawful.status-with_status row.entity conflict) refl;
    unsynced = rw (lawful.status-with_status row.entity conflict) refl;
  }

  merge_over-KeepsChange :
      (row incoming : LocalRow T) (local_plain remote_plain : T) (s : Shelf T)
      → IsLawful F
      → get s.rows id ≡ some row
      → is_unsynced (F.status row.entity) ≡ true
      → ((n : ℕ) (t : Shelf T) → get (interfere_saving n t).rows id ≡ get t.rows id)
      → (row' : LocalRow T) × (get
            (merge_over F crypto session interfere interfere_saving row local_plain remote
              remote_plain incoming s).0.rows
            id
          ≡ some row')
        × KeepsChange F row row'
  unfolding merge_over merge_conflict
  merge_over-KeepsChange row incoming local_plain remote_plain s lawful e u quiet =
      elim (Bool-cases (
        stands_against F crypto session interfere interfere_saving row local_plain remote
          remote_plain)) [
            | inr aside ↦ (row, rw (aside, u, merge_over) e, KeepsChange-self row lawful u)
            | inl against ↦ elim (Bool-cases (text_eq (F.device_id remote) session.device.id)) [
              | inl own ↦ elim (Bool-cases (ltb row.last_synced_version (F.version remote))) [
                | inr behind ↦
                    (row, rw (against, own, behind, merge_over) e, KeepsChange-self row lawful u)
                | inl newer ↦ (
                  catch_up F crypto session interfere interfere_saving row remote,
                  rw (against, own, newer, merge_over)
                      (get-put s.rows id _ id ∙ rw ((text_eq_iff id id).1 refl) refl),
                  KeepsChange-catch_up row lawful u,
                )
              ]
              | inr other ↦ (
                with_row_status F row conflict,
                rw (against, other, merge_over)
                    ((save_conflict_undisturbed F crypto.encrypt_conflict session.now
                        (merge_conflict F crypto session row.entity local_plain remote remote_plain)
                        none interfere_saving s refl quiet).1
                      ∙ rw e refl),
                KeepsChange-conflict row lawful,
              )
            ]
          ]

  merge_local-KeepsChange :
      (row incoming : LocalRow T) (remote_plain : T) (s : Shelf T)
      → IsLawful F
      → get s.rows id ≡ some row
      → is_unsynced (F.status row.entity) ≡ true
      → ((n : ℕ) (t : Shelf T) → get (interfere_saving n t).rows id ≡ get t.rows id)
      → (row' : LocalRow T) × (get
            (merge_local F crypto session interfere interfere_saving
              (some row)
              remote
              remote_plain
              incoming
              s).0.rows
            id
          ≡ some row')
        × KeepsChange F row row'
  merge_local-KeepsChange row incoming remote_plain s lawful e u quiet =
      elim (Option-cases (crypto.decrypt row.entity)) [
        | inl fails ↦ (row, rw (fails, merge_local) e, KeepsChange-self row lawful u)
        | inr (plain, works) ↦
            rw (works, merge_local)
              (merge_over-KeepsChange row incoming plain remote_plain s lawful e u quiet)
      ]

  -- A merge loses no local change, whether it succeeds or not: where a local record is pending or in
  -- conflict, and the rest of the program leaves it alone while the merge waits, the store has it after
  -- the merge with the same content, and still pending or in conflict.
  pub merge_remote-KeepsChange :
      (s : Shelf T) (row : LocalRow T)
      → IsLawful F
      → get s.rows id ≡ some row
      → is_unsynced (F.status row.entity) ≡ true
      → get (interfere s).rows id ≡ get s.rows id
      → ((n : ℕ) (t : Shelf T) → get (interfere_saving n t).rows id ≡ get t.rows id)
      → (row' : LocalRow T) × (get (merged s).0.rows id ≡ some row') × KeepsChange F row row'
  unfolding merge_remote
  merge_remote-KeepsChange s row lawful e u quiet quiet_saving =
      let kept = quiet ∙ e in
      elim (Bool-cases (crypto.is_unsupported remote)) [
        | inl old ↦ (row, rw (old, merge_remote) e, KeepsChange-self row lawful u)
        | inr current ↦ elim (Option-cases (crypto.decrypt remote)) [
          | inl fails ↦ (row, rw (current, fails, merge_remote) kept, KeepsChange-self row lawful u)
          | inr (plain, works) ↦ elim (Option-cases (crypto.encrypt plain)) [
            | inl fails ↦
                (row, rw (current, works, fails, merge_remote) kept, KeepsChange-self row lawful u)
            | inr (stored, encrypts) ↦
                rw (current, works, encrypts, e, merge_remote)
                  (merge_local-KeepsChange row (arrived F crypto session remote plain stored) plain
                    (interfere s) lawful kept u quiet_saving)
          ]
        ]
      ]
