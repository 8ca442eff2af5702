-- ===== src/Client/Merge/Adopts.antt =====
-- What `mergeRemoteNote` and `mergeRemoteNotebook` store where there is no local change.
use author.Common.{
  ℕ, ◌+◌, ◌≡◌, refl, if◌then◌else◌, ap, sym, Bool, true, false, not, Option, none, some, text_Eq,
  arith, Bool-cases, Option-cases, inl, inr,
}
use mathlib.Core.Bool.{false≢true}
use author.Common.Table.{get, put}
use author.Schema.{SyncStatus, synced, pending, conflict, deleted}
use author.SyncSpec.{next_version_after}
use author.Client.Store.{LocalRow, Shelf, Fields, is_pending, is_unsynced}
use author.Client.Conflicts.{Outcome}
use author.Client.Merge.{Crypto, Session, arrived, merge_over, merge_remote, merge_local}

-- There is no local record, or one without a local change.
abbrev pub is_replaceable : {T : Type 0} → Fields T → Option (LocalRow T) → Bool
is_replaceable F none = true
is_replaceable F (some row) = not (is_unsynced (F.status row.entity))

pending_is_unsynced : (s : SyncStatus) → is_unsynced s ≡ false → is_pending s ≡ false
pending_is_unsynced pending h = cc
pending_is_unsynced synced h = refl
pending_is_unsynced conflict h = refl
pending_is_unsynced deleted h = refl

module _ {T : Type 0} (F : Fields T) (crypto : Crypto T) (session : Session)
    (interfere : Shelf T → Shelf T) (interfere_saving : ℕ → Shelf T → Shelf T) (remote : T) where
  abbrev pub adopted : LocalRow T → Shelf T → Shelf T
  adopted incoming s = record s { rows = put s.rows (F.id remote) incoming }

  merge_local_adopts :
      (o : Option (LocalRow T)) (plain : T) (incoming : LocalRow T) (s after : Shelf T)
      → is_replaceable F o ≡ true
      → merge_local F crypto session interfere interfere_saving o remote plain incoming s
        ≡ (after, true)
      → after ≡ adopted incoming s
  unfolding merge_over
  merge_local_adopts none plain incoming s after r h =
      sym (ap (λ (out : Outcome (Shelf T)). out.0) h)
  merge_local_adopts (some row) plain incoming s after r h =
      let free : is_unsynced (F.status row.entity) ≡ false = ground arith in
      let aside = pending_is_unsynced (F.status row.entity) free in
      elim (Option-cases (crypto.decrypt row.entity)) [
        | inl fails ↦
            absurd
              (false≢true (ap (λ (out : Outcome (Shelf T)). out.1) (rw (fails, merge_local) at h)))
        | inr (local_plain, works) ↦
            sym
              (ap (λ (out : Outcome (Shelf T)). out.0) (rw (works, merge_local, aside, free) at h))
      ]

  -- Where the local record is absent or has no local change, a merge that succeeds stores the remote
  -- record in its place, decrypted and encrypted again, with the remote version as the known one and as
  -- synced; or, where its encryption is of an old kind, as this device's pending change of the version
  -- after the remote one. It is stored over what the rest of the program left of the store while the merge
  -- waited, and no other record and no conflict is changed.
  pub merge_remote_adopts :
      (s after : Shelf T)
      → is_replaceable F (get s.rows (F.id remote)) ≡ true
      → merge_remote F crypto session interfere interfere_saving remote s ≡ (after, true)
      → (plain stored : T) × (crypto.decrypt remote ≡ some plain)
        × (crypto.encrypt plain ≡ some stored)
        × (after
            ≡ adopted
                (record {
                  entity =
                      if crypto.needs_republish remote stored
                      then F.with_status
                          (F.with_version
                            (F.with_device (F.with_favorite_of stored plain) session.device.id)
                            (F.version remote + 1))
                          pending
                      else F.with_status (F.with_favorite_of stored plain) synced;
                  last_synced_version = F.version remote;
                  last_synced_at = some session.synced_at;
                })
                (interfere s))
  unfolding merge_remote arrived next_version_after
  merge_remote_adopts s after r h = elim (Bool-cases (crypto.is_unsupported remote)) [
    | inl old ↦
        absurd (false≢true (ap (λ (out : Outcome (Shelf T)). out.1) (rw (old, merge_remote) at h)))
    | inr current ↦ elim (Option-cases (crypto.decrypt remote)) [
      | inl fails ↦ absurd (
          false≢true
            (ap (λ (out : Outcome (Shelf T)). out.1) (rw (current, fails, merge_remote) at h)))
      | inr (plain, works) ↦ elim (Option-cases (crypto.encrypt plain)) [
        | inl fails ↦ absurd (
            false≢true (
              ap (λ (out : Outcome (Shelf T)). out.1)
                (rw (current, works, fails, merge_remote) at h)))
        | inr (stored, encrypts) ↦ (
          plain,
          stored,
          works,
          encrypts,
          merge_local_adopts (get s.rows (F.id remote)) plain
              (arrived F crypto session remote plain stored) (interfere s) after r
              (rw (current, works, encrypts, merge_remote) at h),
        )
      ]
    ]
  ]
