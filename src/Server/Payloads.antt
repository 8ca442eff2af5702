-- ===== src/Server/Payloads.antt =====
-- payload-validation.ts, and the checks of a push that hono.ts makes beside it. The values are typed here,
-- so that the tests of their JavaScript types hold; `Formats` has the length of a text in UTF-8 and the
-- test that `Date.parse` gives a number.
use author.Common.{
  ℕ, ◌+◌, ◌*◌, Bool, true, false, ◌&&◌, ◌||◌, Option, none, some, List, [], ◌∷◌, Text, lit, text_eq,
  text_Eq, truthy, trim, length, all, map, take, drop, ltb, leb, ◌==◌, if◌then◌else◌,
}
use author.Common.Dedup.{contains}
use author.Schema.{Note, Notebook, Device}
use author.ApiTypes.{EntityChange, PushRequest}

-- SYNC_LIMITS of packages/api-types.
abbrev pub entity_id_bytes : ℕ
entity_id_bytes = 128

abbrev pub device_id_bytes : ℕ
device_id_bytes = 128

abbrev pub device_name_bytes : ℕ
device_name_bytes = 256

abbrev pub title_bytes : ℕ
title_bytes = 512 * 1024

abbrev pub body_bytes : ℕ
body_bytes = 4 * 1024 * 1024

abbrev pub notebook_name_bytes : ℕ
notebook_name_bytes = 16 * 1024

abbrev pub field_hash_bytes : ℕ
field_hash_bytes = 256

abbrev pub timestamp_bytes : ℕ
timestamp_bytes = 64

abbrev pub notebook_assignments : ℕ
notebook_assignments = 128

pub record Formats : Type 0 where
  pub text_bytes : Text → ℕ
  pub is_date : Text → Bool

-- `[A-Za-z0-9_-]`
abbrev is_base64url : ℕ → Bool
is_base64url c =
    (leb 65 c && leb c 90)
    || (leb 97 c && leb c 122)
    || (leb 48 c && leb c 57)
    || (c == 95)
    || (c == 45)

-- `/^[A-Za-z0-9_-]+$/`
abbrev pub is_base64url_text : Text → Bool
is_base64url_text s = truthy s && all is_base64url s

abbrev add_to_first : ℕ → List Text → List Text
add_to_first c [] = (c ∷ []) ∷ []
add_to_first c (s ∷ parts) = (c ∷ s) ∷ parts

-- `split(':')`
unfoldable pub split_colons : Text → List Text
split_colons [] = [] ∷ []
split_colons (c ∷ s) =
    let parts = split_colons s in if c == 58 then [] ∷ parts else add_to_first c parts

-- The lengths of a 12-byte IV and of a 16-byte tag at least, in base64url without padding.
unfoldable pub is_current_encrypted_envelope : Text → Bool
is_current_encrypted_envelope value = elim (split_colons value) [
  | enc ∷ version ∷ key ∷ iv ∷ payload ∷ [] ↦
      text_eq enc (lit "enc")
      && text_eq version (lit "v4")
      && is_base64url_text key
      && is_base64url_text iv
      && is_base64url_text payload
      && (length iv == 16)
      && leb 22 (length payload)
  | _ ↦ false
]

-- `/^hash:v3:[A-Za-z0-9_-]+$/`
unfoldable pub is_current_field_hash : Option Text → Bool
is_current_field_hash none = false
is_current_field_hash (some value) =
    text_eq (take 8 value) (lit "hash:v3:") && is_base64url_text (drop 8 value)

unfoldable pub has_current_encrypted_note_fields : Note → Bool
has_current_encrypted_note_fields n =
    is_current_encrypted_envelope n.title
    && is_current_encrypted_envelope n.body
    && is_current_field_hash n.title_hash
    && is_current_field_hash n.body_hash

unfoldable pub has_current_encrypted_notebook_fields : Notebook → Bool
has_current_encrypted_notebook_fields b =
    is_current_encrypted_envelope b.name && is_current_field_hash b.name_hash

module _ (formats : Formats) where
  abbrev string_within_bytes : Text → ℕ → Bool
  string_within_bytes value max_bytes = leb (formats.text_bytes value) max_bytes

  abbrev non_empty_string_within_bytes : Text → ℕ → Bool
  non_empty_string_within_bytes value max_bytes =
      truthy (trim value) && string_within_bytes value max_bytes

  abbrev is_nullable_string_within_bytes : Option Text → ℕ → Bool
  is_nullable_string_within_bytes none max_bytes = true
  is_nullable_string_within_bytes (some value) max_bytes = string_within_bytes value max_bytes

  abbrev is_iso_date : Text → Bool
  is_iso_date value = string_within_bytes value timestamp_bytes && formats.is_date value

  abbrev is_nullable_iso_date : Option Text → Bool
  is_nullable_iso_date none = true
  is_nullable_iso_date (some value) = is_iso_date value

  abbrev is_string_array : List Text → Bool
  is_string_array value =
      leb (length value) notebook_assignments
      && all (λ item. non_empty_string_within_bytes item entity_id_bytes) value

  unfoldable pub has_note_record : Note → Bool
  has_note_record n =
      non_empty_string_within_bytes n.id entity_id_bytes
      && string_within_bytes n.title title_bytes
      && string_within_bytes n.body body_bytes
      && is_nullable_string_within_bytes n.title_hash field_hash_bytes
      && is_nullable_string_within_bytes n.body_hash field_hash_bytes
      && is_string_array n.notebook_ids
      && is_nullable_string_within_bytes n.notebook_id entity_id_bytes
      && is_iso_date n.created_at
      && is_iso_date n.updated_at
      && is_nullable_iso_date n.deleted_at
      && is_nullable_iso_date n.trashed_at
      && non_empty_string_within_bytes n.device_id device_id_bytes
      && ltb 0 n.version

  unfoldable pub has_notebook_record : Notebook → Bool
  has_notebook_record b =
      non_empty_string_within_bytes b.id entity_id_bytes
      && string_within_bytes b.name notebook_name_bytes
      && is_nullable_string_within_bytes b.name_hash field_hash_bytes
      && is_iso_date b.created_at
      && is_iso_date b.updated_at
      && is_nullable_iso_date b.deleted_at
      && non_empty_string_within_bytes b.device_id device_id_bytes
      && ltb 0 b.version

  unfoldable pub has_device_record : Device → Bool
  has_device_record device =
      non_empty_string_within_bytes device.id device_id_bytes
      && non_empty_string_within_bytes device.name device_name_bytes

unfoldable pub has_entity_changes : {T : Type 0} → (T → Bool) → List (EntityChange T) → Bool
has_entity_changes has_record changes = all (λ c. has_record c.entity) changes

-- The loop, with the set of the ids seen so far.
unfoldable pub has_unique_ids : List Text → List Text → Bool
has_unique_ids seen [] = true
has_unique_ids seen (id ∷ ids) =
    let rest = has_unique_ids (id ∷ seen) ids in if contains seen id then false else rest

unfoldable pub has_unique_entity_change_ids :
    {T : Type 0} → (T → Text) → List (EntityChange T) → Bool
has_unique_entity_change_ids id changes = has_unique_ids [] (map (λ c. id c.entity) changes)

unfoldable pub records_belong_to_device : PushRequest → Bool
records_belong_to_device body =
    all (λ (c : EntityChange Note). text_eq c.entity.device_id body.device.id) body.notes
    && all (λ (c : EntityChange Notebook). text_eq c.entity.device_id body.device.id) body.notebooks

unfoldable pub push_change_count : PushRequest → ℕ
push_change_count body = length body.notes + length body.notebooks
