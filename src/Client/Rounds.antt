-- ===== src/Client/Rounds.antt =====
-- The rounds of the push in `runSyncUnlocked` of sync.ts: for each request the answer of the server, what is
-- stored of it, and the conflicts. The server, the encryption of conflicts and what the rest of the program
-- does to the store meanwhile are parameters.
pub mod Contents
use author.Common.{
  ℕ, suc, ◌+◌, Bool, true, false, Option, none, some, List, [], ◌∷◌, ◌++◌, Text, lit, text_eq,
  text_Eq, map, find, length, if◌then◌else◌,
}
use author.Common.Table.{Table, get, put}
use author.Schema.{Note, Notebook, Device}
use author.ApiTypes.{
  EntityKind, note_kind, notebook_kind, SyncEntity, EntityChange, SyncConflict, PushRequest,
  PushResponse, AcceptedChange,
}
use author.Client.Store.{
  LocalDb, Shelf, Fields, note_fields, notebook_fields, note_shelf, notebook_shelf, with_note_shelf,
  with_notebook_shelf,
}
use author.Client.Conflicts.{Outcome, absorb_same_device_push_conflict, save_conflict}
use author.Client.Accept.{is_kind, mark_accepted_changes}

abbrev last_pushed_device_signature_key : Text
last_pushed_device_signature_key = lit "lastPushedDeviceSignature"

unfoldable pub device_signature : Device → Text
device_signature device = device.id ++ 0 ∷ device.name

unfoldable pub remember_pushed_device : Device → LocalDb → LocalDb
remember_pushed_device device db = record db {
  sync_meta = put db.sync_meta last_pushed_device_signature_key (device_signature device);
}

-- The versions of a request, as `markAcceptedChanges` gets them.
module _ {T : Type 0} (F : Fields T) where
  abbrev pushed_of : EntityChange T → AcceptedChange
  pushed_of change = record {
    entity_kind = F.kind;
    id = F.id change.entity;
    version = F.version change.entity;
    updated_at = F.updated_at change.entity;
  }

  -- The version and the time of the record that was pushed.
  unfoldable pub pushed_version : Text → List (EntityChange T) → Option (ℕ × Text)
  pushed_version id changes =
      elim (find (λ (c : EntityChange T). text_eq (F.id c.entity) id) changes) [
        | none ↦ none
        | some c ↦ some (F.version c.entity, F.updated_at c.entity)
      ]

unfoldable pub pushed_changes : PushRequest → List AcceptedChange
pushed_changes payload =
    map (pushed_of note_fields) payload.notes ++ map (pushed_of notebook_fields) payload.notebooks

-- What a round works with, and what the rest of the program does to the store while a conflict is saved
-- or absorbed, during a request, and before each conflict of its response.
pub record Saving : Type 0 where
  pub encrypt_conflict : SyncConflict SyncEntity → SyncConflict SyncEntity
  pub now : Text
  pub interfere_notes : ℕ → Shelf Note → Shelf Note
  pub interfere_notebooks : ℕ → Shelf Notebook → Shelf Notebook
  pub interfere_absorbing_note : Shelf Note → Shelf Note
  pub interfere_absorbing_notebook : Shelf Notebook → Shelf Notebook
  pub interfere_requesting : LocalDb → LocalDb
  pub interfere_settling : LocalDb → LocalDb

-- The store, the number of conflicts, and `false` for an error that leaves the loop.
pub record Progress : Type 0 where
  pub db : LocalDb
  pub pushed : ℕ
  pub conflicts : ℕ
  pub running : Bool

module _ (device : Device) (saving : Saving) where
  module _ {T : Type 0} (F : Fields T) (interfere : ℕ → Shelf T → Shelf T)
      (interfere_absorbing : Shelf T → Shelf T) where
    -- A conflict with a change of this device is absorbed and not counted.
    unfoldable pub settle_on_shelf :
        Text → SyncConflict SyncEntity → Option (ℕ × Text) → Shelf T → Shelf T × (ℕ × Bool)
    settle_on_shelf synced_at c pushed s =
        let (absorbed, own) =
          absorb_same_device_push_conflict F interfere_absorbing device.id synced_at c s in
        let (saved, stored) =
          save_conflict F saving.encrypt_conflict saving.now c pushed interfere s in
        if own then (absorbed, (0, true)) else (saved, (1, stored))

  unfoldable pub settle_conflict :
      PushRequest → Text → Progress → SyncConflict SyncEntity → Progress
  settle_conflict payload synced_at p c =
      let db = saving.interfere_settling p.db in
      let (notes, note_end) =
        settle_on_shelf note_fields saving.interfere_notes saving.interfere_absorbing_note synced_at
          c (pushed_version note_fields c.entity_id payload.notes) (note_shelf db) in
      let (notebooks, notebook_end) =
        settle_on_shelf notebook_fields saving.interfere_notebooks
          saving.interfere_absorbing_notebook synced_at c
          (pushed_version notebook_fields c.entity_id payload.notebooks) (notebook_shelf db) in
      if p.running
      then (if is_kind c.entity_kind note_kind
          then record p {
            db = with_note_shelf db notes;
            conflicts = p.conflicts + note_end.0;
            running = note_end.1;
          }
          else record p {
            db = with_notebook_shelf db notebooks;
            conflicts = p.conflicts + notebook_end.0;
            running = notebook_end.1;
          })
      else p

  unfoldable pub settle_conflicts :
      PushRequest → Text → List (SyncConflict SyncEntity) → Progress → Progress
  settle_conflicts payload synced_at [] p = p
  settle_conflicts payload synced_at (c ∷ cs) p =
      settle_conflicts payload synced_at cs (settle_conflict payload synced_at p c)

  -- One round; `none` is a failed request, or a lost lease.
  unfoldable pub push_round : PushRequest → Option PushResponse → Progress → Progress
  push_round payload none p = record p { running = false }
  push_round payload (some response) p =
      let db =
        mark_accepted_changes response.accepted response.server_time (pushed_changes payload)
          (remember_pushed_device device (saving.interfere_requesting p.db)) in
      settle_conflicts payload response.server_time response.conflicts (record p {
        db = db;
        pushed = p.pushed + (length payload.notes + length payload.notebooks);
      })

  -- The server answers the request of a round; rounds are counted down.
  unfoldable pub push_rounds :
      (ℕ → PushRequest → Option PushResponse) → List PushRequest → Progress → Progress
  push_rounds server [] p = p
  push_rounds server (payload ∷ payloads) p =
      let next = push_round payload (server (length payloads) payload) p in
      if p.running then push_rounds server payloads next else p
