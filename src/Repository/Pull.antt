-- ===== src/Repository/Pull.antt =====
-- `pullChangesSince` and `pullMirrorChangesSinceRevision`. `serverTime` is the parameter `now`, and
-- the length of the response as JSON in UTF-8 is the parameter `response_bytes`. The revisions of the
-- log are read in the order of its primary key.
pub mod Told
pub mod Cursor
pub mod Last
pub mod Newest
pub mod Listed
pub mod Complete
pub mod CompleteNotebooks
use author.Common.{
  ℕ, zero, suc, ◌+◌, ◌/◌, Bool, true, false, ◌&&◌, Option, none, some, List, [], ◌∷◌, reverse, Text,
  text_eq, Number, safe_natural, keep_if, take, length, get_last?, for_each, min, max, ltb, leb,
  ◌==◌, if◌then◌else◌, or_else, ◌||◌,
}
use author.Common.Table.{Table, put}
use author.ApiTypes.{
  EntityKind, device_kind, note_kind, notebook_kind, PullResponse, pull_response_bytes,
}
use author.Repository.Store.{
  EntityKey, Operation, upserted, deleted, Change, Db, entity_key_eq, entity_key_Eq, kind_eq,
}
use author.Repository.Log.{current_revision, as_revision, max_revision}
use author.Repository.Queries.{get_notes_by_ids, get_notebooks_by_ids, get_devices_by_ids}
use author.Repository.Devices.{Result, ok, err, response_too_large}

-- `Number(limit) <= 0` is left for zero once the limit is known to be a safe natural.
unfoldable pub pull_limit : Number → ℕ
pull_limit limit = elim (safe_natural limit) [
  | none ↦ 1000
  | some n ↦ if n == 0 then 1000 else min n 1000
]

-- `revision > ? AND revision <= ?` of an owner's changes, `ORDER BY revision ASC`
abbrev pub in_range : Text → ℕ → ℕ → Change → Bool
in_range owner since upto c =
    text_eq c.key.owner owner && (ltb since c.revision && leb c.revision upto)

unfoldable pub changes_between : Db → Text → ℕ → ℕ → List Change
changes_between db owner since upto = reverse (keep_if (in_range owner since upto) db.changes)

-- The newest change of its record in the range: the inner join with the grouped maxima.
abbrev pub is_latest_in : List Change → Change → Bool
is_latest_in changes c =
    max_revision (keep_if (λ d. entity_key_eq d.key c.key) changes) == c.revision

unfoldable pub latest_changes : Db → Text → ℕ → ℕ → List Change
latest_changes db owner since upto =
    let changes = changes_between db owner since upto in keep_if (is_latest_in changes) changes

-- The rows a record each, in the order of the rows: `latestChanges`.
unfoldable pub by_entity : List Change → Table EntityKey Operation
by_entity changes = for_each (λ t (c : Change). put t c.key c.operation) [] changes

abbrev pub operation_eq : Operation → Operation → Bool
operation_eq upserted upserted = true
operation_eq deleted deleted = true
operation_eq _ _ = false

-- The ids of the changes of one kind and operation.
unfoldable pub ids_with : EntityKind → Operation → Table EntityKey Operation → List Text
ids_with kind operation [] = []
ids_with kind operation ((key, op) ∷ rest) =
    let ids = ids_with kind operation rest in
    if kind_eq kind key.kind && operation_eq operation op then key.id ∷ ids else ids

abbrev pub values : {T : Type 0} → Table Text T → List T
values [] = []
values ((id, r) ∷ t) = r ∷ values t

-- One page: the response, and the number of changes that it covers.
unfoldable pub pull_page : Text → Db → Text → ℕ → ℕ → PullResponse × ℕ
pull_page now db owner since limit =
    let current = current_revision db owner in
    let rows = take (limit + 1) (changes_between db owner since current) in
    let has_more = ltb limit (length rows) in
    let visible = if has_more then take limit rows else rows in
    elim (get_last? visible) [
      | none ↦ (
        record {
          server_time = now;
          server_revision = current;
          devices = [];
          notes = [];
          notebooks = [];
          deleted_device_ids = [];
          deleted_note_ids = [];
          deleted_notebook_ids = [];
          has_more = false;
        },
        0,
      )
      | some newest ↦
          let upto = as_revision newest.revision in
          let latest = by_entity (latest_changes db owner since upto) in
          (
            record {
              server_time = now;
              server_revision = upto;
              devices = values (get_devices_by_ids db (ids_with device_kind upserted latest) owner);
              notes = values (get_notes_by_ids db (ids_with note_kind upserted latest) owner);
              notebooks =
                  values (get_notebooks_by_ids db (ids_with notebook_kind upserted latest) owner);
              deleted_device_ids = ids_with device_kind deleted latest;
              deleted_note_ids = ids_with note_kind deleted latest;
              deleted_notebook_ids = ids_with notebook_kind deleted latest;
              has_more = has_more;
            },
            length visible,
          )
    ]

module _ (response_bytes : PullResponse → ℕ) (now : Text) (db : Db) (owner : Text) (since : ℕ) where
  -- A page that is too long is asked for again with half as many changes. The fuel bounds how often;
  -- `none` means that it ran out.
  unfoldable pub pull_loop : ℕ → ℕ → Option (Result PullResponse)
  pull_loop zero limit = none
  pull_loop (suc fuel) limit =
      let page = pull_page now db owner since limit in
      let again = pull_loop fuel (max 1 (page.1 / 2)) in
      if page.1 == 0 || leb (response_bytes page.0) pull_response_bytes
      then some (ok page.0)
      else if leb page.1 1
      then some (err response_too_large)
      else again

-- `Number.isSafeInteger(sinceRevision) && sinceRevision >= 0 ? sinceRevision : 0`
unfoldable pub pull_changes_since :
    (PullResponse → ℕ) → Text → Db → Text → Number → Number → Option (Result PullResponse)
pull_changes_since response_bytes now db owner since_revision limit =
    pull_loop response_bytes now db owner (or_else (safe_natural since_revision) 0)
      (suc (pull_limit limit)) (pull_limit limit)
