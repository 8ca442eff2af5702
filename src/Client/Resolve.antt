-- ===== src/Client/Resolve.antt =====
-- `resolveConflict` and `resolveDuplicateNotebookNameConflict` of sync-store.ts. Encryption, `Date.parse`,
-- `toLocaleLowerCase`, the decimal digits of a number and the fresh ids are parameters.
pub mod Settles
pub mod Names
use author.Common.{
  ℕ, zero, suc, ◌+◌, Bool, true, false, not, ◌&&◌, ◌||◌, Option, none, some, List, [], ◌∷◌, ◌++◌,
  Text, lit, text_eq, text_Eq, truthy, truthy?, trim, map, keep_if, length, if◌then◌else◌,
}
use author.Common.Dedup.{contains}
use author.Common.Table.{Table, get, put, remove}
use author.Schema.{Note, Notebook, Device, SyncStatus, synced, pending}
use author.ApiTypes.{
  EntityKind, note_kind, notebook_kind, SyncEntity, note, notebook, SyncConflict, ConflictVersion,
  Source, from_local, from_remote, Reason, duplicate_name,
}
use author.SyncSpec.{ConflictChoice, choose_conflict_version, next_version_after}
use author.Client.Store.{
  LocalRow, LocalConflict, resolved, LocalDb, Fields, note_fields, notebook_fields,
}
use author.Client.Conflicts.{Outcome}
use author.Client.Merge.{Crypto}
use author.Client.References.{remap_local_references, Interference, remove_local_references}

-- ConflictChoice of the client.
pub data Choice : Type 0 where
  choose : ConflictChoice → Choice
  duplicate_both : Choice

abbrev pub as_note : SyncEntity → Option Note
as_note (note n) = some n
as_note (notebook b) = none

abbrev pub as_notebook : SyncEntity → Option Notebook
as_notebook (note n) = none
as_notebook (notebook b) = some b

abbrev pub is_remote : Source → Bool
is_remote from_remote = true
is_remote from_local = false

abbrev is_duplicate_name : EntityKind → Reason → Bool
is_duplicate_name notebook_kind duplicate_name = true
is_duplicate_name _ _ = false

module _ {T : Type 0} (F : Fields T) (crypto : Crypto T) (now : Text) where
  -- The record and what it knows of the server, stored unless the encryption throws.
  unfoldable pub put_encrypted :
      Table Text (LocalRow T) → T → ℕ → Option Text → Outcome (Table Text (LocalRow T))
  put_encrypted rows t last_synced_version last_synced_at = elim (crypto.encrypt t) [
    | none ↦ (rows, false)
    | some stored ↦ (
      put rows (F.id t) (record {
        entity = stored;
        last_synced_version = last_synced_version;
        last_synced_at = last_synced_at;
      }),
      true,
    )
  ]

  abbrev pub put_remote : T → Table Text (LocalRow T) → Outcome (Table Text (LocalRow T))
  put_remote remote rows =
      put_encrypted rows (F.with_status remote synced) (F.version remote) (some now)

  -- The selected version, as the server has it, or as a change after the server's.
  abbrev pub resolved_record : Device → ConflictVersion SyncEntity → ℕ → T → T
  resolved_record device selected remote_version t =
      if is_remote selected.source
      then F.with_status (F.with_version t remote_version) synced
      else F.with_status
          (F.with_version (F.with_device t device.id) (next_version_after remote_version)) pending

  unfoldable pub keep_selected :
      (SyncEntity → Option T)
      → Device
      → ConflictVersion SyncEntity
      → ℕ
      → Table Text (LocalRow T)
      → Outcome (Table Text (LocalRow T))
  keep_selected unwrap device selected remote_version rows = elim (unwrap selected.entity) [
    | none ↦ (rows, false)
    | some t ↦
        put_encrypted rows (resolved_record device selected remote_version t) remote_version
          (if is_remote selected.source then some now else none)
  ]

-- The copy of a local record, which the server does not know.
abbrev note_copy : Text → Text → Text → Note → Note
note_copy new_id now device_id n = record n {
  id = new_id;
  title = if truthy n.title then n.title ++ lit " copy" else [];
  created_at = now;
  updated_at = now;
  device_id = device_id;
  version = 1;
  sync_status = pending;
}

abbrev notebook_copy : Text → Text → Text → Text → Notebook → Notebook
notebook_copy new_id name now device_id b = record b {
  id = new_id;
  name = name;
  created_at = now;
  updated_at = now;
  device_id = device_id;
  version = 1;
  sync_status = pending;
}

-- What the functions below are called with, and what the rest of the program does to the store: while the
-- conflict and the records are decrypted and encrypted, before the conflict is marked, and while the
-- references to a notebook are replaced.
pub record Resolver : Type 0 where
  pub note_crypto : Crypto Note
  pub notebook_crypto : Crypto Notebook
  pub decrypt_conflict : SyncConflict SyncEntity → Option (SyncConflict SyncEntity)
  pub parse_date : Text → Option ℕ
  pub lower_case : Text → Text
  pub digits : ℕ → Text
  pub new_id : Text
  pub device : Device
  pub now : Text
  pub interfere : LocalDb → LocalDb
  pub interfere_marking : LocalDb → LocalDb
  pub interfere_references : Interference

-- `and then`: the next step where this one did not throw.
abbrev pub then_next : {S : Type 0} → Outcome S → (S → Outcome S) → Outcome S
then_next (s, true) next = next s
then_next (s, false) next = (s, false)

module _ (R : Resolver) where
  abbrev pub normalized_name : Text → Text
  normalized_name name = R.lower_case (trim name)

  -- The names of the notebooks that count, decrypted.
  unfoldable pub taken_names : List Text → Table Text (LocalRow Notebook) → Option (List Text)
  taken_names excluded [] = some []
  taken_names excluded ((key, row) ∷ rows) =
      let rest = taken_names excluded rows in
      elim (R.notebook_crypto.decrypt row.entity) [
        | none ↦ none
        | some b ↦ elim rest [
          | none ↦ none
          | some names ↦ some (
              if truthy? b.deleted_at || contains excluded b.id
              then names
              else normalized_name b.name ∷ names)
        ]
      ]

  -- The loop over the suffixes; the fuel bounds how many are tried.
  unfoldable pub free_name : ℕ → List Text → Text → ℕ → Text → Option Text
  free_name zero taken base suffix candidate = none
  free_name (suc fuel) taken base suffix candidate =
      let later =
        free_name fuel taken base (suffix + 1) (base ++ lit " copy " ++ R.digits suffix) in
      if contains taken (normalized_name candidate) then later else some candidate

  abbrev base_name : Text → Text
  base_name name = if truthy (trim name) then trim name else lit "Notebook"

  unfoldable pub notebook_copy_name : Text → List Text → Option Text
  notebook_copy_name name taken =
      let base = base_name name in free_name (suc (length taken)) taken base 2 (base ++ lit " copy")

  abbrev notebooks_step :
      (Table Text (LocalRow Notebook) → Outcome (Table Text (LocalRow Notebook)))
      → LocalDb
      → Outcome LocalDb
  notebooks_step f db =
      let (notebooks, stored) = f db.notebooks in (record db { notebooks = notebooks }, stored)

  abbrev notes_step :
      (Table Text (LocalRow Note) → Outcome (Table Text (LocalRow Note)))
      → LocalDb
      → Outcome LocalDb
  notes_step f db = let (notes, stored) = f db.notes in (record db { notes = notes }, stored)

  abbrev remap : Text → Text → LocalDb → LocalDb
  remap from to db = record db {
    notes = remap_local_references R.interfere_references from to R.device.id R.now db.notes;
  }

  -- The local notebook goes, unless its id is the other one's.
  abbrev drop_notebook : Text → Text → LocalDb → LocalDb
  drop_notebook id other db =
      if text_eq id other then db else record db { notebooks = remove db.notebooks id }

  abbrev copy_local : Notebook → Notebook → LocalDb → Outcome LocalDb
  copy_local local remote db =
      elim (taken_names (local.id ∷ remote.id ∷ R.new_id ∷ []) db.notebooks) [
        | none ↦ (db, false)
        | some taken ↦ elim (notebook_copy_name local.name taken) [
          | none ↦ (db, false)
          | some name ↦
              let copy = notebook_copy R.new_id name R.now R.device.id local in
              then_next
                (notebooks_step
                  (λ rows.
                    put_encrypted notebook_fields R.notebook_crypto R.now rows
                      (record copy { name_hash = none }) 0 none)
                  db)
                (λ db'. (drop_notebook local.id R.new_id (remap local.id R.new_id db'), true))
        ]
      ]

  unfoldable pub resolve_duplicate_name :
      SyncConflict SyncEntity → Choice → Notebook → Notebook → LocalDb → Outcome LocalDb
  resolve_duplicate_name c choice local remote db =
      then_next (notebooks_step (put_remote notebook_fields R.notebook_crypto R.now remote) db)
        (λ db'. elim choice [
          | duplicate_both ↦ copy_local local remote db'
          | choose by ↦
              if is_remote (choose_conflict_version R.parse_date c by).source
              then (drop_notebook local.id remote.id (remap local.id remote.id db'), true)
              else copy_local local remote db'
        ])

  unfoldable pub duplicate_note : Note → Note → LocalDb → Outcome LocalDb
  duplicate_note local remote db =
      then_next (notes_step (put_remote note_fields R.note_crypto R.now remote) db) (
        notes_step (λ rows.
          put_encrypted note_fields R.note_crypto R.now rows
            (note_copy R.new_id R.now R.device.id local) 0 none))

  unfoldable pub duplicate_notebook : Notebook → Notebook → LocalDb → Outcome LocalDb
  duplicate_notebook local remote db =
      then_next (notebooks_step (put_remote notebook_fields R.notebook_crypto R.now remote) db)
        (λ db'.
          then_next
            (notebooks_step
              (λ rows.
                put_encrypted notebook_fields R.notebook_crypto R.now rows
                  (notebook_copy R.new_id (local.name ++ lit " copy") R.now R.device.id local) 0
                  none)
              db')
            (λ db2. (remap local.id R.new_id db2, true)))

  unfoldable pub keep_note : ConflictChoice → SyncConflict SyncEntity → LocalDb → Outcome LocalDb
  keep_note by c db =
      notes_step
        (keep_selected note_fields R.note_crypto R.now as_note R.device
          (choose_conflict_version R.parse_date c by) c.remote_version.version)
        db

  abbrev without_deleted : ConflictVersion SyncEntity → LocalDb → LocalDb
  without_deleted selected db = elim (as_notebook selected.entity) [
    | none ↦ db
    | some b ↦
        if is_remote selected.source && truthy? b.deleted_at
        then record db {
          notes = remove_local_references R.interfere_references b.id R.device.id R.now db.notes;
        }
        else db
  ]

  unfoldable pub keep_notebook :
      ConflictChoice → SyncConflict SyncEntity → LocalDb → Outcome LocalDb
  keep_notebook by c db =
      let selected = choose_conflict_version R.parse_date c by in
      then_next
        (notebooks_step
          (keep_selected notebook_fields R.notebook_crypto R.now as_notebook R.device selected
            c.remote_version.version)
          db)
        (λ db'. (without_deleted selected db', true))

  -- By the kind and the reason of the conflict, and by the choice.
  abbrev pub resolve_by_kind :
      Choice → SyncConflict SyncEntity → SyncEntity → SyncEntity → LocalDb → Outcome LocalDb
  resolve_by_kind choice c (notebook local) (notebook remote) db =
      if is_duplicate_name c.entity_kind c.reason
      then resolve_duplicate_name c choice local remote db
      else elim choice [
        | duplicate_both ↦ duplicate_notebook local remote db
        | choose by ↦ keep_notebook by c db
      ]
  resolve_by_kind duplicate_both c (note local) (note remote) db = duplicate_note local remote db
  resolve_by_kind (choose by) c (note local) (note remote) db = keep_note by c db
  resolve_by_kind choice c local remote db = (db, false)

  -- A missing or resolved conflict is left alone; one that is resolved is marked so.
  unfoldable pub resolve_conflict : Text → Choice → LocalDb → Outcome LocalDb
  resolve_conflict id choice db = elim (get db.conflicts id) [
    | none ↦ (db, true)
    | some stored ↦ elim (stored.status) [
      | resolved ↦ (db, true)
      | _ ↦ elim (R.decrypt_conflict stored.conflict) [
        | none ↦ (db, false)
        | some c ↦
            then_next
              (resolve_by_kind choice c c.local_version.entity c.remote_version.entity
                (R.interfere db))
              (λ db'.
                let after = R.interfere_marking db' in
                (
                  record after {
                    conflicts = put after.conflicts stored.id (record stored { status = resolved });
                  },
                  true,
                ))
      ]
    ]
  ]
