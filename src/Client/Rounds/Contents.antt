-- ===== src/Client/Rounds/Contents.antt =====
-- What the rounds of a push leave of the notes.
use author.Common.{
  ℕ, zero, suc, ◌≡◌, refl, ap, sym, ◌∙◌, subst, Bool, true, false, ◌&&◌, Option, none, some, List,
  [], ◌∷◌, Text, text_eq, text_eq_iff, text_Eq, keep_if, length, if◌then◌else◌, arith, Bool-cases,
  Option-cases, inl, inr,
}
use author.Common.Table.{Table, get, put, get-put}
use author.Schema.{Note, Device, SyncStatus, conflict}
use author.ApiTypes.{SyncEntity, SyncConflict, PushRequest, PushResponse, AcceptedChange, note_kind}
use author.Client.Store.{LocalRow, LocalDb, Shelf, note_fields, note_shelf}
use author.Client.Conflicts.{
  with_row_status, is_stale, save_attempts, save_conflict, absorb_row, mark_conflict,
  is_remote_changed, absorb_same_device_push_conflict,
}
use author.Client.Accept.{is_kind, pushed_change, accept_row}
use author.Client.Accept.Edits.{is_of_note, accept_all, get-notes-mark_accepted_changes}
use author.Client.Rounds.{
  Saving, Progress, settle_on_shelf, settle_conflict, settle_conflicts, push_round, push_rounds,
  pushed_changes, pushed_version, remember_pushed_device,
}

-- The same note but for its version and its status.
abbrev pub SameContent : Note → LocalRow Note → Type 0
SameContent n row =
    (version : ℕ) × (status : SyncStatus) × (row.entity
      ≡ record n { version = version; sync_status = status })

-- The table has a row of the note with that content.
abbrev pub HasContent : Note → Text → Table Text (LocalRow Note) → Type 0
HasContent n id rows = (row : LocalRow Note) × (get rows id ≡ some row) × SameContent n row

module _ (n : Note) where
  SameContent-update :
      (row : LocalRow Note) (v : ℕ) (s : SyncStatus) (row' : LocalRow Note)
      → row'.entity ≡ record (row.entity) { version = v; sync_status = s }
      → SameContent n row
      → SameContent n row'
  SameContent-update row v s row' e (v0, s0, e0) =
      (v, s, e ∙ ap (λ (m : Note). record m { version = v; sync_status = s }) e0)

  accept_all-SameContent :
      (synced_at : Text) (pushed : List AcceptedChange) (q : Option AcceptedChange)
      (row : LocalRow Note) (changes : List AcceptedChange)
      → SameContent n row
      → SameContent n (accept_all note_fields synced_at pushed q row changes)
  unfolding accept_row
  accept_all-SameContent synced_at pushed q row [] h = h
  accept_all-SameContent synced_at pushed q row (change ∷ changes) h =
      accept_all-SameContent synced_at pushed q (accept_row note_fields synced_at q change row)
        changes (SameContent-update row _ _ (accept_row note_fields synced_at q change row) refl h)

  module _ (id : Text) where
    -- A write of what was read, over rows that have the content as well.
    put-HasContent :
        (rows rows' : Table Text (LocalRow Note)) (k : Text) (w new : LocalRow Note) (v : ℕ)
        (s : SyncStatus)
        → get rows k ≡ some w
        → new.entity ≡ record (w.entity) { version = v; sync_status = s }
        → HasContent n id rows
        → HasContent n id rows'
        → HasContent n id (put rows' k new)
    put-HasContent rows rows' k w new v s there e (row, found, same) (row', found', same') =
        elim (Bool-cases (text_eq k id)) [
          | inl here ↦
              let one : some w ≡ some row =
                sym there ∙ ap (get rows) ((text_eq_iff k id).0 here) ∙ found in
              let equal : row ≡ w = ground arith in
              (
                new,
                get-put rows' k new id ∙ rw here refl,
                SameContent-update w v s new e (subst (SameContent n) equal same),
              )
          | inr other ↦ (row', get-put rows' k new id ∙ rw other found', same')
        ]

    absorb_row-HasContent :
        (synced_at : Text) (c : SyncConflict SyncEntity) (s s' : Shelf Note)
        → HasContent n id s.rows
        → HasContent n id s'.rows
        → HasContent n id (absorb_row note_fields synced_at c s' (get s.rows c.entity_id)).rows
    absorb_row-HasContent synced_at c s s' h h' = elim (Option-cases (get s.rows c.entity_id)) [
      | inl absent ↦ rw absent h'
      | inr (w, there) ↦
          rw there (put-HasContent s.rows s'.rows c.entity_id w _ _ _ there refl h h')
    ]

    mark_conflict-HasContent :
        (rows : Table Text (LocalRow Note)) (k : Text)
        → HasContent n id rows
        → HasContent n id (mark_conflict note_fields rows k (get rows k))
    mark_conflict-HasContent rows k h = elim (Option-cases (get rows k)) [
      | inl absent ↦ rw absent h
      | inr (w, there) ↦
          rw there (
            put-HasContent rows rows k w (with_row_status note_fields w conflict) _ _ there refl h
              h)
    ]

    module _ (encrypt : SyncConflict SyncEntity → SyncConflict SyncEntity) (now : Text)
        (c : SyncConflict SyncEntity) (pushed : Option (ℕ × Text))
        (interfere : ℕ → Shelf Note → Shelf Note)
        (quiet : (left : ℕ) (s : Shelf Note)
          → HasContent n id s.rows
          → HasContent n id (interfere left s).rows) where
      save_attempts-HasContent :
          (left : ℕ) (s : Shelf Note)
          → HasContent n id s.rows
          → HasContent n id (save_attempts note_fields encrypt now c pushed interfere left s).0.rows
      unfolding save_attempts
      save_attempts-HasContent zero s h = h
      save_attempts-HasContent (suc left) s h =
          let s' = interfere left s in
          let h' : HasContent n id s'.rows = quiet left s h in
          elim (Bool-cases
            (is_stale note_fields (get s.rows c.entity_id) (get s'.rows c.entity_id) pushed)) [
              | inl stale ↦ rw stale (save_attempts-HasContent left s' h')
              | inr fresh ↦ rw fresh (mark_conflict-HasContent s'.rows c.entity_id h')
            ]

    either-HasContent :
        (b : Bool) (p q : Progress)
        → HasContent n id p.db.notes
        → HasContent n id q.db.notes
        → HasContent n id (if b then p else q).db.notes
    either-HasContent true p q h k = h
    either-HasContent false p q h k = k

    module _ (device : Device) (saving : Saving)
        (quiet : (left : ℕ) (s : Shelf Note)
          → HasContent n id s.rows
          → HasContent n id (saving.interfere_notes left s).rows)
        (quiet_absorbing : (s : Shelf Note)
          → HasContent n id s.rows
          → HasContent n id (saving.interfere_absorbing_note s).rows)
        (quiet_requesting : (db : LocalDb)
          → HasContent n id db.notes
          → HasContent n id (saving.interfere_requesting db).notes)
        (quiet_settling : (db : LocalDb)
          → HasContent n id db.notes
          → HasContent n id (saving.interfere_settling db).notes) where
      settle_on_shelf-HasContent :
          (synced_at : Text) (c : SyncConflict SyncEntity) (pushed : Option (ℕ × Text))
          (s : Shelf Note)
          → HasContent n id s.rows
          → HasContent n id
              (settle_on_shelf device saving note_fields saving.interfere_notes
                saving.interfere_absorbing_note synced_at c pushed s).0.rows
      unfolding settle_on_shelf absorb_same_device_push_conflict save_conflict
      settle_on_shelf-HasContent synced_at c pushed s h =
          elim (Bool-cases
            (is_remote_changed c.reason && text_eq c.remote_version.device_id device.id)) [
              | inl own ↦ rw own (
                  absorb_row-HasContent synced_at c s (saving.interfere_absorbing_note s) h
                    (quiet_absorbing s h))
              | inr other ↦ rw other (
                  save_attempts-HasContent saving.encrypt_conflict saving.now c pushed
                    saving.interfere_notes quiet 3 s h)
            ]

      settle_conflict-HasContent :
          (payload : PushRequest) (synced_at : Text) (p : Progress) (c : SyncConflict SyncEntity)
          → HasContent n id p.db.notes
          → HasContent n id (settle_conflict device saving payload synced_at p c).db.notes
      unfolding settle_conflict
      settle_conflict-HasContent payload synced_at p c h = elim (Bool-cases p.running) [
        | inr stopped ↦ rw stopped h
        | inl runs ↦ elim (Bool-cases (is_kind c.entity_kind note_kind)) [
          | inr notebook ↦ rw (runs, notebook) (quiet_settling p.db h)
          | inl is_note ↦
              rw (runs, is_note)
                (settle_on_shelf-HasContent synced_at c
                  (pushed_version note_fields c.entity_id payload.notes)
                  (note_shelf (saving.interfere_settling p.db)) (quiet_settling p.db h))
        ]
      ]

      settle_conflicts-HasContent :
          (payload : PushRequest) (synced_at : Text) (cs : List (SyncConflict SyncEntity))
          (p : Progress)
          → HasContent n id p.db.notes
          → HasContent n id (settle_conflicts device saving payload synced_at cs p).db.notes
      unfolding settle_conflicts
      settle_conflicts-HasContent payload synced_at [] p h = h
      settle_conflicts-HasContent payload synced_at (c ∷ cs) p h =
          settle_conflicts-HasContent payload synced_at cs
            (settle_conflict device saving payload synced_at p c)
            (settle_conflict-HasContent payload synced_at p c h)

      push_round-HasContent :
          (payload : PushRequest) (answer : Option PushResponse) (p : Progress)
          → HasContent n id p.db.notes
          → HasContent n id (push_round device saving payload answer p).db.notes
      unfolding push_round remember_pushed_device
      push_round-HasContent payload none p h = h
      push_round-HasContent payload (some response) p h =
          let (row, found, same) = quiet_requesting p.db h in
          settle_conflicts-HasContent payload response.server_time response.conflicts _ (
            accept_all note_fields response.server_time (pushed_changes payload)
                (pushed_change note_kind id (pushed_changes payload)) row
                (keep_if (is_of_note id) response.accepted),
            get-notes-mark_accepted_changes response.server_time (pushed_changes payload)
                response.accepted (remember_pushed_device device (saving.interfere_requesting p.db))
                id row found,
            accept_all-SameContent response.server_time (pushed_changes payload)
                (pushed_change note_kind id (pushed_changes payload)) row
                (keep_if (is_of_note id) response.accepted) same,
          )

      -- The rounds of a push lose no note, and change nothing of one but its version and its status,
      -- whatever the server answers and whatever the rest of the program does to other records meanwhile.
      -- Where it leaves the content of a note alone (during the requests, before each conflict, and while
      -- one is saved or absorbed), that note has its content before the push still afterwards, also where
      -- an error ended the push.
      pub push_rounds-HasContent :
          (server : ℕ → PushRequest → Option PushResponse) (payloads : List PushRequest)
          (p : Progress)
          → HasContent n id p.db.notes
          → HasContent n id (push_rounds device saving server payloads p).db.notes
      unfolding push_rounds
      push_rounds-HasContent server [] p h = h
      push_rounds-HasContent server (payload ∷ payloads) p h =
          let next = push_round device saving payload (server (length payloads) payload) p in
          either-HasContent p.running (push_rounds device saving server payloads next) p
            (push_rounds-HasContent server payloads next
              (push_round-HasContent payload (server (length payloads) payload) p h))
            h
