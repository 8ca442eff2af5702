-- ===== src/Server/PushRoute.antt =====
-- The route of a push in hono.ts: `api.post(API_PATHS.syncPush, …)`, for a request whose session and body
-- were read.
pub mod Guards
use author.Common.{
  ℕ, Bool, true, false, not, ◌&&◌, ◌||◌, Option, none, some, List, [], ◌∷◌, ◌++◌, Text, lit,
  text_eq, truthy, truthy?, all, ltb, if◌then◌else◌, is_some, or_else,
}
use author.Schema.{Note, Notebook}
use author.ApiTypes.{EntityChange, PushRequest, PushResponse}
use author.Repository.Store.{Db}
use author.Repository.Devices.{StoreError, record_limit_exceeded, Result, ok, err}
use author.Repository.Verdicts.{PushOptions, default_options}
use author.Repository.Push.{Host, push_changes}
use author.Server.Attempts.{Limits, is_rate_limited, record_failed_auth_attempt}
use author.Server.Payloads.{
  Formats, has_note_record, has_notebook_record, has_device_record, has_entity_changes,
  has_unique_entity_change_ids, records_belong_to_device, push_change_count,
  has_current_encrypted_note_fields, has_current_encrypted_notebook_fields,
}

abbrev pub max_sync_changes_per_push : ℕ
max_sync_changes_per_push = 20

abbrev pub max_sync_pushes_per_minute : ℕ
max_sync_pushes_per_minute = 60

-- The account, the device of the session, and whether the session is of the time before accounts.
pub record AuthSession : Type 0 where
  pub owner : Text
  pub device_id : Option Text
  pub legacy : Bool

-- A response of the route: the answer to the push, an error with its status, or an exception.
pub data Reply : Type 0 where
  answered : PushResponse → Reply
  refused : ℕ → Reply
  thrown : StoreError → Reply

pub record ServerState : Type 0 where
  pub limits : Limits
  pub db : Db

abbrev pub is_other_device : Option Text → Text → Bool
is_other_device none id = false
is_other_device (some device_id) id = truthy device_id && not (text_eq device_id id)

abbrev pub reply_of : ServerState → Result (PushResponse × Db) → ServerState × Reply
reply_of s (ok (response, db)) = (record s { db = db }, answered response)
reply_of s (err record_limit_exceeded) = (s, refused 409)
reply_of s (err e) = (s, thrown e)

-- `{ enforceRecordLimits: true, … }`
abbrev pub route_options : PushOptions
route_options = record default_options { enforce_record_limits = true }

module _ (host : Host) (formats : Formats) (key_hash : Text → Text) where
  unfoldable pub is_valid_push : PushRequest → Bool
  is_valid_push body =
      has_device_record formats body.device
      && has_entity_changes (has_note_record formats) body.notes
      && has_entity_changes (has_notebook_record formats) body.notebooks
      && has_unique_entity_change_ids (λ (n : Note). n.id) body.notes
      && has_unique_entity_change_ids (λ (b : Notebook). b.id) body.notebooks
      && records_belong_to_device body

  abbrev pub is_encrypted : PushRequest → Bool
  is_encrypted body =
      all (λ (c : EntityChange Note). has_current_encrypted_note_fields c.entity) body.notes
      && all (λ (c : EntityChange Notebook). has_current_encrypted_notebook_fields c.entity)
          body.notebooks

  abbrev pub sync_rate_key : AuthSession → Text
  sync_rate_key session = lit "sync-push:" ++ session.owner

  abbrev pub has_keyring : AuthSession → Option Text → Bool
  has_keyring session keyring = not session.legacy && truthy? keyring

  -- `Date.now()` and the store's time stamp; `keyring` is the one that the account has.
  unfoldable pub sync_push :
      AuthSession → Option Text → ℕ → Text → PushRequest → ServerState → ServerState × Reply
  sync_push session keyring now time body s =
      let (limits, limited) =
        is_rate_limited key_hash (sync_rate_key session) now max_sync_pushes_per_minute s.limits in
      let counted = record_failed_auth_attempt key_hash (sync_rate_key session) now limits in
      if not (is_valid_push body)
      then (s, refused 400)
      else if ltb max_sync_changes_per_push (push_change_count body)
      then (s, refused 413)
      else if is_other_device session.device_id body.device.id
      then (s, refused 403)
      else if has_keyring session keyring && not (is_encrypted body)
      then (s, refused 400)
      else if limited
      then (record s { limits = limits }, refused 429)
      else reply_of (record s { limits = counted })
          (push_changes host route_options session.owner time body s.db)
