-- ===== src/SyncSpec.antt =====
-- packages/sync-spec/src/index.ts: when two versions of a record differ, when a push conflicts, which
-- version a resolution keeps, and how the pull cursor moves. `Date.parse` is the parameter
-- `parse_date`: `none` for an invalid date, otherwise milliseconds since the earliest date that
-- JavaScript has (so that they are natural numbers; differences and order are the same).
pub mod Differ
pub mod Choice
pub mod Cursor
use author.Common.{
  ℕ, suc, zero, ◌+◌, ◌-◌, ◌*◌, ◌≡◌, Bool, true, false, not, ◌&&◌, ◌||◌, Option, none, some, List,
  [], ◌∷◌, ◌++◌, map, Text, lit, truthy, truthy?, trim, is_space, join, text_eq, text_eq?, text_Eq,
  take, keep_if, ltb, leb, ◌==◌, if◌then◌else◌, is_some, compare, Ordering,
}
use author.Common.Dedup.{dedup}
use author.Common.Sort.{sort_texts}
use author.Schema.{Note, Notebook}
use author.ApiTypes.{SyncEntity, note, notebook, ConflictVersion, SyncConflict}

pub data ConflictChoice : Type 0 where
  keep_newer keep_older keep_local keep_remote : ConflictChoice

-- `replace(/\s+/g, ' ')`; the flag is set inside a run of white space.
unfoldable pub collapse_spaces : Bool → Text → Text
unfolding is_space
collapse_spaces in_run [] = []
collapse_spaces in_run (c ∷ s) = elim (is_space c) [
  | true ↦ elim in_run [ true ↦ collapse_spaces true s | false ↦ 32 ∷ collapse_spaces true s ]
  | false ↦ c ∷ collapse_spaces false s
]

-- `a || b` on texts
abbrev pub first_truthy : Text → Text → Text
first_truthy s t = if truthy s then s else t

unfoldable pub preview_text : SyncEntity → Text
preview_text (note n) =
    first_truthy (take 160 (collapse_spaces false (trim n.body)))
      (first_truthy n.title (lit "Empty note"))
preview_text (notebook b) = first_truthy b.name (lit "Untitled notebook")

-- Hashes decide where either side has one, the texts otherwise.
unfoldable pub field_differs : Option Text → Option Text → Text → Text → Bool
field_differs hash_a hash_b a b =
    if truthy? hash_a || truthy? hash_b then not (text_eq? hash_a hash_b) else not (text_eq a b)

unfoldable pub normalized_notebook_id : Option Text → Option Text
normalized_notebook_id none = none
normalized_notebook_id (some id) =
    let trimmed = trim id in if truthy trimmed then some trimmed else none

unfoldable pub normalized_notebook_ids : List Text → List Text
normalized_notebook_ids ids = dedup (keep_if truthy (map trim ids))

-- The source of the ids: the list, or else the single id of older records.
abbrev pub raw_notebook_ids : List Text → Option Text → List Text
raw_notebook_ids (id ∷ ids) _ = id ∷ ids
raw_notebook_ids [] none = []
raw_notebook_ids [] (some id) = if truthy id then id ∷ [] else []

unfoldable pub note_notebook_ids : Note → List Text
note_notebook_ids n =
    sort_texts (normalized_notebook_ids (raw_notebook_ids n.notebook_ids n.notebook_id))

abbrev pub xor_bool : Bool → Bool → Bool
xor_bool true b = not b
xor_bool false b = b

unfoldable pub notes_differ : Note → Note → Bool
notes_differ a b =
    field_differs a.title_hash b.title_hash a.title b.title
    || field_differs a.body_hash b.body_hash a.body b.body
    || not (text_eq (join (0 ∷ []) (note_notebook_ids a)) (join (0 ∷ []) (note_notebook_ids b)))
    || not (text_eq? (normalized_notebook_id a.notebook_id) (normalized_notebook_id b.notebook_id))
    || not (text_eq? a.deleted_at b.deleted_at)
    || not (text_eq? a.trashed_at b.trashed_at)
    || xor_bool a.is_favorite b.is_favorite

unfoldable pub notebooks_differ : Notebook → Notebook → Bool
notebooks_differ a b =
    field_differs a.name_hash b.name_hash a.name b.name || not (text_eq? a.deleted_at b.deleted_at)

unfoldable pub records_differ : SyncEntity → SyncEntity → Bool
records_differ (note a) (note b) = notes_differ a b
records_differ (notebook a) (notebook b) = notebooks_differ a b
records_differ _ _ = true

abbrev pub entity_version : SyncEntity → ℕ
entity_version (note n) = n.version
entity_version (notebook b) = b.version

unfoldable pub should_conflict : SyncEntity → Option SyncEntity → ℕ → Bool
should_conflict local none base_version = false
should_conflict local (some remote) base_version =
    if records_differ local remote then not (base_version == entity_version remote) else false

-- The sign of the number that `compareConflictVersions` returns, from the parsed dates.
compare_dates : Option ℕ → Option ℕ → ℕ → ℕ → Ordering
compare_dates (some local) (some remote) v w =
    if local == remote then compare v w else compare local remote
compare_dates (some _) none v w = Ordering.gt
compare_dates none (some _) v w = Ordering.lt
compare_dates none none v w = compare v w

module _ (parse_date : Text → Option ℕ) where
  unfoldable pub compare_conflict_versions :
      {T : Type 0} → ConflictVersion T → ConflictVersion T → Ordering
  unfolding compare_dates
  compare_conflict_versions local remote =
      compare_dates (parse_date local.updated_at) (parse_date remote.updated_at) local.version
        remote.version

  unfoldable pub choose_conflict_version :
      {T : Type 0} → SyncConflict T → ConflictChoice → ConflictVersion T
  unfolding compare_conflict_versions
  choose_conflict_version c keep_local = c.local_version
  choose_conflict_version c keep_remote = c.remote_version
  choose_conflict_version c keep_newer =
      elim (compare_conflict_versions c.local_version c.remote_version) [
        | Ordering.lt ↦ c.remote_version
        | _ ↦ c.local_version
      ]
  choose_conflict_version c keep_older =
      elim (compare_conflict_versions c.local_version c.remote_version) [
        | Ordering.gt ↦ c.remote_version
        | _ ↦ c.local_version
      ]

unfoldable pub next_version_after : ℕ → ℕ
next_version_after remote_version = remote_version + 1
