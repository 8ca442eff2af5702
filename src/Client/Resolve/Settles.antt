-- ===== src/Client/Resolve/Settles.antt =====
-- A resolved conflict of a note, and the next push of the note.
use author.Common.{
  ℕ, ◌+◌, ◌≡◌, refl, ap, ◌∙◌, Bool, true, false, none, some, Text, text_Eq, if◌then◌else◌, arith,
  Bool-cases, inl, inr,
}
use author.Common.Table.{Table, get, put}
use author.Schema.{Note, pending, synced}
use author.ApiTypes.{SyncEntity, note, SyncConflict, ConflictVersion, from_local, from_remote}
use author.SyncSpec.{
  ConflictChoice, keep_local, keep_remote, next_version_after, choose_conflict_version,
  should_conflict, entity_version, records_differ,
}
use author.Client.Store.{LocalRow, LocalConflict, unresolved, resolved, LocalDb, note_fields}
use author.Client.Resolve.{
  choose, is_remote, put_encrypted, resolved_record, keep_selected, Resolver, keep_note,
  resolve_by_kind, resolve_conflict,
}

should_conflict_again :
    (local remote : SyncEntity) (base : ℕ)
    → entity_version remote ≡ base
    → should_conflict local (some remote) base ≡ false
unfolding should_conflict
should_conflict_again local remote base e = elim (Bool-cases (records_differ local remote)) [
  | inl differ ↦ rw differ (ground arith)
  | inr same ↦ rw same refl
]

-- The store once the conflict is marked, after what others did before that.
abbrev pub marked_resolved : Resolver → LocalConflict → LocalDb → LocalDb
marked_resolved R stored kept = record (R.interfere_marking kept) {
  conflicts =
      put (R.interfere_marking kept).conflicts stored.id (record stored { status = resolved });
}

module _ (R : Resolver) (db : LocalDb) (stored : LocalConflict) (c : SyncConflict SyncEntity)
    (by : ConflictChoice) (local remote n encrypted : Note) where
  abbrev selected : ConflictVersion SyncEntity
  selected = choose_conflict_version R.parse_date c by

  abbrev pub row : LocalRow Note
  row = record {
    entity = encrypted;
    last_synced_version = c.remote_version.version;
    last_synced_at = if is_remote selected.source then some R.now else none;
  }

  abbrev pub kept : LocalDb
  kept = record (R.interfere db) { notes = put (R.interfere db).notes n.id row }

  abbrev record_kept : Note
  record_kept =
      resolved_record note_fields R.note_crypto R.now R.device selected c.remote_version.version n

  id-record_kept : note_fields.id record_kept ≡ n.id
  id-record_kept = elim (Bool-cases (is_remote selected.source)) [
    | inl theirs ↦ rw theirs refl
    | inr ours ↦ rw ours refl
  ]

  put_kept :
      R.note_crypto.encrypt record_kept ≡ some encrypted
      → put_encrypted note_fields R.note_crypto R.now
          (R.interfere db).notes
          record_kept
          c.remote_version.version
          (if is_remote selected.source then some R.now else none)
        ≡ (put (R.interfere db).notes n.id row, true)
  unfolding put_encrypted
  put_kept works =
      rw (put_encrypted, works)
        (ap {B = Table Text (LocalRow Note) × Bool} (λ k. (put (R.interfere db).notes k row, true))
          id-record_kept)

  keep_note_lem :
      selected.entity ≡ note n
      → R.note_crypto.encrypt record_kept ≡ some encrypted
      → keep_note R by c (R.interfere db) ≡ (kept, true)
  unfolding keep_note keep_selected
  keep_note_lem e works =
      ap (λ (o : Table Text (LocalRow Note) × Bool). (record (R.interfere db) { notes = o.0 }, o.1))
        (rw e (put_kept works))

  resolve_by_kind_lem :
      c.local_version.entity ≡ note local
      → c.remote_version.entity ≡ note remote
      → selected.entity ≡ note n
      → R.note_crypto.encrypt record_kept ≡ some encrypted
      → resolve_by_kind R
          (choose by)
          c
          c.local_version.entity
          c.remote_version.entity
          (R.interfere db)
        ≡ (kept, true)
  resolve_by_kind_lem l r e works =
      ap (λ x. resolve_by_kind R (choose by) c x c.remote_version.entity (R.interfere db)) l
      ∙ ap (λ y. resolve_by_kind R (choose by) c (note local) y (R.interfere db)) r
      ∙ keep_note_lem e works

  resolve_conflict-kept :
      get db.conflicts stored.id ≡ some stored
      → stored.status ≡ unresolved
      → R.decrypt_conflict stored.conflict ≡ some c
      → c.local_version.entity ≡ note local
      → c.remote_version.entity ≡ note remote
      → selected.entity ≡ note n
      → R.note_crypto.encrypt record_kept ≡ some encrypted
      → resolve_conflict R stored.id (choose by) db ≡ (marked_resolved R stored kept, true)
  unfolding resolve_conflict
  resolve_conflict-kept there open_one decrypts l r e works =
      rw (resolve_conflict, there, open_one, decrypts, resolve_by_kind_lem l r e works) refl

module _ (R : Resolver) (db : LocalDb) (stored : LocalConflict) (c : SyncConflict SyncEntity)
    (local remote encrypted : Note) where
  -- One of the two versions is kept: the one of this device, or the other one.
  abbrev pub keeping : Bool → ConflictChoice
  keeping true = keep_local
  keeping false = keep_remote

  -- The local version becomes this device's pending change after the server's version; the remote version
  -- is stored as synced.
  abbrev pub wanted : Bool → Note
  wanted true = record local {
    device_id = R.device.id;
    version = c.remote_version.version + 1;
    sync_status = pending;
  }
  wanted false = record remote { version = c.remote_version.version; sync_status = synced }

  abbrev pub wanted_row : Bool → LocalRow Note
  wanted_row ours = record {
    entity = encrypted;
    last_synced_version = c.remote_version.version;
    last_synced_at = if ours then none else some R.now;
  }

  abbrev pub settled : Bool → LocalDb
  settled ours = marked_resolved R stored (record (R.interfere db) {
    notes = put (R.interfere db).notes (wanted ours).id (wanted_row ours);
  })

  resolve_conflict_keeps :
      (ours : Bool)
      → get db.conflicts stored.id ≡ some stored
      → stored.status ≡ unresolved
      → R.decrypt_conflict stored.conflict ≡ some c
      → c.local_version.entity ≡ note local
      → c.remote_version.entity ≡ note remote
      → c.local_version.source ≡ from_local
      → c.remote_version.source ≡ from_remote
      → R.note_crypto.encrypt (wanted ours) ≡ some encrypted
      → resolve_conflict R stored.id (choose (keeping ours)) db ≡ (settled ours, true)
  unfolding choose_conflict_version next_version_after
  resolve_conflict_keeps true there open_one decrypts l r from_here from_there works =
      let args =
        resolve_conflict-kept R db stored c keep_local local remote local encrypted there open_one
          decrypts l r l in
      let as_wanted : record_kept R db stored c keep_local local remote local encrypted
          ≡ wanted true =
        rw from_here refl in
      let as_row : row R db stored c keep_local local remote local encrypted ≡ wanted_row true =
        rw from_here refl in
      args (ap R.note_crypto.encrypt as_wanted ∙ works)
      ∙ ap {B = LocalDb × Bool}
          (λ (w : LocalRow Note). (
            marked_resolved R stored
                (record (R.interfere db) { notes = put (R.interfere db).notes local.id w }),
            true,
          ))
          as_row
  resolve_conflict_keeps false there open_one decrypts l r from_here from_there works =
      let args =
        resolve_conflict-kept R db stored c keep_remote local remote remote encrypted there open_one
          decrypts l r r in
      let as_wanted : record_kept R db stored c keep_remote local remote remote encrypted
          ≡ wanted false =
        rw from_there refl in
      let as_row : row R db stored c keep_remote local remote remote encrypted ≡ wanted_row false =
        rw from_there refl in
      args (ap R.note_crypto.encrypt as_wanted ∙ works)
      ∙ ap {B = LocalDb × Bool}
          (λ (w : LocalRow Note). (
            marked_resolved R stored
                (record (R.interfere db) { notes = put (R.interfere db).notes remote.id w }),
            true,
          ))
          as_row

  -- A conflict of a note is resolved by keeping the local or the remote version, where the conflict can be
  -- decrypted and the record encrypted. Then the call succeeds and the conflict is marked as resolved. The
  -- local version is stored as this device's pending change of the version after the server's, the remote
  -- one as synced, over what the rest of the program made of the store meanwhile, and either with the
  -- server's version as the one it knows: while the server has a record of that version, whatever its
  -- content, a push of the note does not conflict again.
  pub resolve_conflict_settles :
      (ours : Bool) (server : SyncEntity)
      → get db.conflicts stored.id ≡ some stored
      → stored.status ≡ unresolved
      → R.decrypt_conflict stored.conflict ≡ some c
      → c.local_version.entity ≡ note local
      → c.remote_version.entity ≡ note remote
      → c.local_version.source ≡ from_local
      → c.remote_version.source ≡ from_remote
      → R.note_crypto.encrypt (wanted ours) ≡ some encrypted
      → entity_version server ≡ c.remote_version.version
      → (resolve_conflict R stored.id (choose (keeping ours)) db ≡ (settled ours, true))
        × (should_conflict
              (note (wanted_row ours).entity)
              (some server)
              (wanted_row ours).last_synced_version
            ≡ false)
  resolve_conflict_settles ours server there open_one decrypts l r from_here from_there works same =
      (
        resolve_conflict_keeps ours there open_one decrypts l r from_here from_there works,
        should_conflict_again (note encrypted) server c.remote_version.version same,
      )
