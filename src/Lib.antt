-- ===== src/Lib.antt =====
-- The synchronisation of the note application, from the client's stores to the server's: a model of
-- apps/web/src/lib/server/repository.ts, packages/sync-spec/src/index.ts, the types of
-- packages/schema/src/index.ts and packages/api-types/src/index.ts, of sync-store.ts and sync.ts in
-- apps/web/src/lib/client, and of the parts of hono.ts, payload-validation.ts and auth.ts in
-- apps/web/src/lib/server that stand before the store.
--
-- A client pushes changed notes and notebooks, each with the version that it is based on. The store
-- compares each change with what it holds, accepts it or answers with a conflict, and logs every
-- accepted record. A client then pulls the log after its cursor, page by page. Maintenance empties the
-- trash, compacts the log and prunes devices and old snapshots.
--
-- Files:
-- - Common and its children: texts as lists of UTF-16 code units, tables with a primary key (an
--   association list), lists, sorting, and JavaScript's numbers as far as the cursors need them.
-- - Schema, ApiTypes: the record types of packages/schema and packages/api-types.
-- - SyncSpec: recordsDiffer, shouldConflict, chooseConflictVersion, previewText, nextVersionAfter; its
--   child Cursor has safeRevisionCursor and retentionCutoff. Dates are milliseconds since the earliest
--   date that JavaScript has, and Date.parse is a parameter.
-- - Repository: apps/web/src/lib/server/repository.ts. Store has the tables (Db), Refs the conversion of
--   rows to records, Chunks the blocks of bulk queries, Log the tables entity_changes and
--   entity_tombstones, Queries the reads by id, Writes putNotes, putNotebooks and the snapshots, Devices
--   upsertDevice, Deletes the deletions by id, Duplicates the search for notebooks of one name, Verdicts
--   what a push decides on one record, Answers the conflicts and acceptances, Push pushChanges, Pull pullChangesSince with
--   pullMirrorChangesSinceRevision, Maintenance cleanupTrash, pruneUnreferencedDevices,
--   compactEntityChanges and pruneVersionSnapshots. Consistency states what the store promises to a
--   client that mirrors it (IsConsistent).
-- - Client: apps/web/src/lib/client. Store has the tables of db.ts and the record Fields, through which
--   each function that the program has once for notes and once for notebooks is written once; Conflicts
--   saveConflict and absorbSameDevicePushConflict, Merge mergeRemoteNote and mergeRemoteNotebook, Deletes
--   applyRemoteDeletes, Accept markAcceptedChanges, References the references of notes to notebooks,
--   Resolve resolveConflict (all of sync-store.ts); Pushing what runSyncUnlocked pushes, Batches its
--   requests, Rounds what it does with their answers, Lease the lease between tabs, Pulling the loop over the pages with mergeRemoteChanges (all
--   of sync.ts, but for mergeRemoteChanges).
-- - Server: Attempts has the rate limits of hono.ts, Payloads payload-validation.ts, PushRoute the route
--   of a push in hono.ts, Base32 the encoding of secrets in auth.ts.
-- - Tests: sample data, runs of the model, and the theorems applied to them.
--
-- A write transaction is a function from a store to a result with a store: an error leaves the store as
-- it was. The rows of entity_changes stand newest first, with their revisions; next_revision is the key
-- that the table gives next. What the program takes from its surroundings is a parameter: the record
-- Host of Repository/Push (Date.parse, localeCompare, toLocaleLowerCase, SQL's lower and trim,
-- randomUUID, the clock of the snapshot writers, and the check of record-limits.ts), the times that the
-- deletions read (Clock), and for a pull the length of the response as JSON. A row's column
-- notebook_ids is modelled as parsed.
--
-- On the client, an await lets the rest of the program write to the store. What it does is a parameter
-- (interfere), any change of the tables: for a merge between its read and its write, for saveConflict
-- before its transaction, for absorbSameDevicePushConflict and the replacement of references between
-- read and write, for the preparation of a push before bulkDelete and before bulkPut, for a round of the
-- push during its request and before each conflict, and for resolveConflict before its first write and
-- before it marks the conflict. Elsewhere, between the records of a page, between pages and between the
-- two writes of one resolution, the model has no other writer. A transaction is one step. An error is a false beside the store that it leaves. The parameter
-- Crypto stands for the encryption, where none is an error; the server that the pull loop asks is a
-- function of the request and of the round, and one instance of it is pullChangesSince of a store. The
-- tabs of a browser are a step relation (Lease), whose steps are the transactions of the lease,
-- clearLocalWorkspace, which deletes the lease of any tab, the passing of time, and a clock that is set
-- back.
--
-- IsConsistent says: the revisions of the log fall from the newest change to the oldest and are below
-- the next revision; a note or notebook whose id is not empty is stored exactly if its newest change is
-- an upsert; and none is stored while it has a tombstone. The empty id is left out, as the bulk reads
-- leave it out.
--
-- These loops run on fuel: chunks on the length of its list; a pull on one more than its limit, which
-- suffices since the limit falls in each round; the requests of a push on one more than the pending
-- records, since each request takes one; the client's pull loop on twice the safe integers, since its
-- cursor rises and goes back once; the search for a free name of a notebook on one more than the names
-- that are taken, since the candidates differ; the emission of base32 on the bits that are left.
--
-- The revision of a response is a natural number. The source refuses any other in safeRevisionCursor, a
-- negative one after it has sent the cursor back to 0 once; the model has no such response.
--
-- Not modelled: the other routes of the HTTP server, accounts and sessions, encryption, the editing functions
-- of the client's stores, the remote mirror, record limits (a parameter of the push), SQL itself, the
-- user interface, and the Android application, which is written in Kotlin.
pub mod Common
pub mod Schema
pub mod ApiTypes
pub mod SyncSpec
pub mod Repository
pub mod Client
pub mod Server
mod Tests
