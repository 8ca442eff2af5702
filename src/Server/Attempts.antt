-- ===== src/Server/Attempts.antt =====
-- The limits on failed logins of hono.ts: the ones in memory, and those in the table
-- `auth_rate_limits`. Times are milliseconds; the hash of a key is a parameter.
pub mod Bounded
pub mod Blocks
use author.Common.{
  ℕ, suc, ◌+◌, Bool, true, false, not, ◌&&◌, ◌||◌, Option, none, some, List, [], ◌∷◌, Text, text_Eq,
  truthy, length, leb, if◌then◌else◌,
}
use author.Common.Table.{Table, get, put, upsert, remove}

abbrev pub login_attempt_window_ms : ℕ
login_attempt_window_ms = 60000

abbrev pub max_login_attempt_keys : ℕ
max_login_attempt_keys = 500

pub record Attempt : Type 0 where
  pub count : ℕ
  pub reset_at : ℕ

abbrev pub first_attempt : ℕ → Attempt
first_attempt now = record { count = 1; reset_at = now + login_attempt_window_ms }

abbrev pub is_expired : ℕ → Attempt → Bool
is_expired now attempt = leb attempt.reset_at now

-- `DELETE … WHERE reset_at <= now`, and the first loop of `pruneLoginAttempts`.
unfoldable pub remove_expired : ℕ → Table Text Attempt → Table Text Attempt
remove_expired now [] = []
remove_expired now ((key, attempt) ∷ t) =
    let rest = remove_expired now t in
    if is_expired now attempt then rest else (key, attempt) ∷ rest

-- The second loop: a map lists its keys in the order of their insertion.
unfoldable pub remove_oldest : Table Text Attempt → Table Text Attempt
remove_oldest [] = []
remove_oldest ((key, attempt) ∷ t) =
    let rest = remove_oldest t in
    if leb (suc (length t)) max_login_attempt_keys
    then (key, attempt) ∷ t
    else if truthy key
    then rest
    else (key, attempt) ∷ t

unfoldable pub prune_login_attempts : ℕ → Table Text Attempt → Table Text Attempt
prune_login_attempts now t = remove_oldest (remove_expired now t)

-- The attempts, and whether the key is limited.
unfoldable pub is_login_rate_limited : Text → ℕ → ℕ → Table Text Attempt → Table Text Attempt × Bool
is_login_rate_limited key now max_attempts t = elim (get t key) [
  | none ↦ (remove t key, false)
  | some attempt ↦
      if is_expired now attempt then (remove t key, false) else (t, leb max_attempts attempt.count)
]

unfoldable pub record_failed_login : Text → ℕ → Table Text Attempt → Table Text Attempt
record_failed_login key now t =
    let pruned = prune_login_attempts now t in
    elim (get pruned key) [
      | none ↦ put pruned key (first_attempt now)
      | some attempt ↦
          if is_expired now attempt
          then put pruned key (first_attempt now)
          else put pruned key (record attempt { count = attempt.count + 1 })
    ]

unfoldable pub clear_failed_logins : Text → Table Text Attempt → Table Text Attempt
clear_failed_logins key t = remove t key

-- `CASE WHEN auth_rate_limits.reset_at <= now …`
abbrev pub counted : ℕ → Attempt → Attempt → Attempt
counted now old new =
    if is_expired now old
    then record { count = 1; reset_at = new.reset_at }
    else record { count = old.count + 1; reset_at = old.reset_at }

module _ (key_hash : Text → Text) where
  unfoldable pub is_persistent_login_rate_limited :
      Text → ℕ → ℕ → Table Text Attempt → Table Text Attempt × Bool
  is_persistent_login_rate_limited key now max_attempts t =
      let live = remove_expired now t in
      (
        live,
        elim (get live (key_hash key)) [
          | none ↦ false
          | some attempt ↦ not (is_expired now attempt) && leb max_attempts attempt.count
        ],
      )

  unfoldable pub record_persistent_failed_login : Text → ℕ → Table Text Attempt → Table Text Attempt
  record_persistent_failed_login key now t =
      upsert (counted now) t (key_hash key) (first_attempt now)

  unfoldable pub clear_persistent_failed_logins : Text → Table Text Attempt → Table Text Attempt
  clear_persistent_failed_logins key t = remove t (key_hash key)

-- Both kinds of limits of a server.
pub record Limits : Type 0 where
  pub in_memory : Table Text Attempt
  pub persistent : Table Text Attempt

module _ (key_hash : Text → Text) where
  -- `||`: the persistent limits are asked where those in memory do not limit the key.
  unfoldable pub is_rate_limited : Text → ℕ → ℕ → Limits → Limits × Bool
  is_rate_limited key now max_attempts s =
      let (in_memory, limited) = is_login_rate_limited key now max_attempts s.in_memory in
      let (persistent, limited_there) =
        is_persistent_login_rate_limited key_hash key now max_attempts s.persistent in
      if limited
      then (record s { in_memory = in_memory }, true)
      else (record { in_memory = in_memory; persistent = persistent }, limited_there)

  unfoldable pub record_failed_auth_attempt : Text → ℕ → Limits → Limits
  record_failed_auth_attempt key now s = record {
    in_memory = record_failed_login key now s.in_memory;
    persistent = record_persistent_failed_login key_hash key now s.persistent;
  }

  unfoldable pub clear_failed_auth_attempts : Text → Limits → Limits
  clear_failed_auth_attempts key s = record {
    in_memory = clear_failed_logins key s.in_memory;
    persistent = clear_persistent_failed_logins key_hash key s.persistent;
  }

-- What requests do to the limits.
pub data Event : Type 0 where
  checks : Text → ℕ → ℕ → Event
  fails : Text → ℕ → Event
  clears : Text → Event

unfoldable pub apply_event : (Text → Text) → Limits → Event → Limits
apply_event key_hash s (checks key now max_attempts) =
    (is_rate_limited key_hash key now max_attempts s).0
apply_event key_hash s (fails key now) = record_failed_auth_attempt key_hash key now s
apply_event key_hash s (clears key) = clear_failed_auth_attempts key_hash key s
