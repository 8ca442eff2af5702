-- ===== src/Repository/Duplicates.antt =====
-- The search for an active notebook of the same name: `notebookDuplicateKeys` and its users.
-- `toLocaleLowerCase` and SQL's `lower(trim(name))` are the parameters `lower_case` and `sql_name`.
use author.Common.{
  Bool, true, false, not, ◌||◌, ◌&&◌, Option, none, some, List, [], ◌∷◌, ◌++◌, map, Text, lit,
  truthy, truthy?, trim, text_eq, text_Eq, take, keep_if, find, for_each, if◌then◌else◌, or_else,
}
use author.Common.Dedup.{contains, dedup}
use author.Common.Table.{Table, get, put}
use author.Schema.{Notebook}
use author.Repository.Store.{Key, NotebookRow, Db}
use author.Repository.Refs.{to_notebook}
use author.Repository.Chunks.{chunks}

-- /^enc:v[34]:/
unfoldable pub is_encrypted_notebook_name : Text → Bool
is_encrypted_notebook_name name =
    text_eq (take 7 name) (lit "enc:v3:") || text_eq (take 7 name) (lit "enc:v4:")

-- `nameHash?.trim() ?? ''`
abbrev pub trimmed_hash : Option Text → Text
trimmed_hash none = []
trimmed_hash (some hash) = trim hash

abbrev pub hash_key : Text → Text
hash_key hash = lit "hash:" ++ hash

abbrev pub name_key : Text → Text
name_key name = lit "name:" ++ name

abbrev hash_keys : Text → List Text
hash_keys hash = if truthy hash then hash_key hash ∷ [] else []

-- `candidates.get(key)?.push(notebook)`, or a new list
unfoldable pub add_notebook_duplicate_candidate :
    Table Text (List Notebook) → Text → Notebook → Table Text (List Notebook)
add_notebook_duplicate_candidate candidates key b = elim (get candidates key) [
  | none ↦ put candidates key (b ∷ [])
  | some found ↦ put candidates key (found ++ b ∷ [])
]

abbrev is_active_row : Text → Key × NotebookRow → Bool
is_active_row owner (k, row) =
    text_eq k.owner owner && (elim row.deleted_at [ none ↦ true | some _ ↦ false ])

abbrev hash_in : List Text → Option Text → Bool
hash_in block none = false
hash_in block (some hash) = contains block hash

abbrev add_by_hash : Table Text (List Notebook) → Key × NotebookRow → Table Text (List Notebook)
add_by_hash candidates (k, row) =
    let b = to_notebook k.id row in
    if truthy? row.name_hash
    then add_notebook_duplicate_candidate candidates (hash_key (or_else row.name_hash [])) b
    else candidates

-- `notebooks.get(key)`, unless it is the notebook itself
abbrev other_than : Text → Option Notebook → Option Notebook
other_than id none = none
other_than id (some b) = if text_eq b.id id then none else some b

unfoldable pub first_some : List (Option Notebook) → Option Notebook
first_some [] = none
first_some (none ∷ os) = first_some os
first_some (some b ∷ os) = some b

abbrev pub is_deleted_notebook : Notebook → Bool
is_deleted_notebook b = truthy? b.deleted_at

module _ (lower_case sql_name : Text → Text) where
  unfoldable pub notebook_duplicate_name_key : Text → Text
  notebook_duplicate_name_key name = lower_case (trim name)

  unfoldable pub notebook_duplicate_keys : Notebook → List Text
  notebook_duplicate_keys b =
      hash_keys (trimmed_hash b.name_hash)
      ++ (if is_encrypted_notebook_name b.name
          then []
          else name_key (notebook_duplicate_name_key b.name) ∷ [])

  abbrev add_by_name : Table Text (List Notebook) → Key × NotebookRow → Table Text (List Notebook)
  add_by_name candidates (k, row) =
      let b = to_notebook k.id row in
      add_notebook_duplicate_candidate candidates (name_key (notebook_duplicate_name_key b.name)) b

  -- The two queries of `getActiveNotebookDuplicateCandidates`, one statement a block.
  abbrev add_hash_block :
      Text
      → Table Key NotebookRow
      → Table Text (List Notebook)
      → List Text
      → Table Text (List Notebook)
  add_hash_block owner rows candidates block =
      for_each add_by_hash candidates
        (keep_if (λ r. is_active_row owner r && hash_in block r.1.name_hash) rows)

  abbrev add_name_block :
      Text
      → Table Key NotebookRow
      → Table Text (List Notebook)
      → List Text
      → Table Text (List Notebook)
  add_name_block owner rows candidates block =
      for_each add_by_name candidates
        (keep_if (λ r. is_active_row owner r && contains block (sql_name r.1.name)) rows)

  unfoldable pub get_active_notebook_duplicate_candidates :
      Db → Text → List Notebook → Table Text (List Notebook)
  get_active_notebook_duplicate_candidates db owner notebooks =
      let active = keep_if (λ b. not (is_deleted_notebook b)) notebooks in
      let name_hashes =
        dedup (keep_if truthy (map (λ (b : Notebook). trimmed_hash b.name_hash) active)) in
      let plain = keep_if (λ (b : Notebook). not (is_encrypted_notebook_name b.name)) active in
      let names =
        dedup (keep_if truthy (map (λ (b : Notebook). notebook_duplicate_name_key b.name) plain)) in
      for_each (add_name_block owner db.notebooks)
        (for_each (add_hash_block owner db.notebooks) [] (chunks name_hashes 200))
        (chunks names 200)

  unfoldable pub first_notebook_duplicate : Notebook → Table Text (List Notebook) → Option Notebook
  first_notebook_duplicate b candidates = first_some (
      map
        (λ key. find (λ (d : Notebook). not (text_eq d.id b.id)) (or_else (get candidates key) []))
        (notebook_duplicate_keys b))

  unfoldable pub first_accepted_notebook_duplicate :
      Table Text Notebook → Notebook → Option Notebook
  first_accepted_notebook_duplicate notebooks b =
      first_some (map (λ key. other_than b.id (get notebooks key)) (notebook_duplicate_keys b))

  unfoldable pub remember_accepted_notebook : Table Text Notebook → Notebook → Table Text Notebook
  remember_accepted_notebook notebooks b =
      for_each (λ t key. put t key b) notebooks (notebook_duplicate_keys b)
