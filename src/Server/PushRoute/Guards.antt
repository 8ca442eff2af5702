-- ===== src/Server/PushRoute/Guards.antt =====
-- The checks of the push route, and the store behind it.
use author.Common.{
  ℕ, ◌≤◌, ◌≡◌, refl, sym, ◌∙◌, Bool, true, false, not, ◌&&◌, ◌||◌, Option, List, [], ◌∷◌, Text,
  text_eq_iff, text_Eq, any, map, ltb, arith, Bool-cases, inl, inr, ◌⊎◌,
}
use author.Common.Dedup.{contains}
use author.Schema.{Note, Notebook}
use author.ApiTypes.{EntityChange, PushRequest, PushResponse}
use author.Repository.Store.{Db}
use author.Repository.Devices.{
  StoreError, record_limit_exceeded, device_limit_exceeded, response_too_large, duplicate_id,
  Result, ok, err, upsert_device, upsert_device-error,
}
use author.Repository.Push.{
  Host, push_changes, has_repeated_id, change_ids, notebook_change_ids,
  assert_unique_push_change_ids,
}
use author.Server.Attempts.{Limits, is_rate_limited, record_failed_auth_attempt}
use author.Server.Payloads.{
  Formats, has_unique_ids, has_unique_entity_change_ids, push_change_count,
}
use author.Server.PushRoute.{
  max_sync_changes_per_push, max_sync_pushes_per_minute, AuthSession, Reply, answered, refused,
  thrown, ServerState, is_other_device, reply_of, route_options, is_valid_push, is_encrypted,
  sync_rate_key, has_keyring, sync_push,
}

any-contains_cons :
    (id : Text) (seen ids : List Text)
    → any (contains (id ∷ seen)) ids ≡ (contains ids id || any (contains seen) ids)
unfolding contains
any-contains_cons id seen [] = refl
any-contains_cons id seen (j ∷ ids) =
    ground (arith, any-contains_cons id seen ids, text_eq_iff id j, text_eq_iff j id)

has_unique_ids_lem :
    (seen ids : List Text)
    → has_unique_ids seen ids ≡ not (has_repeated_id ids || any (contains seen) ids)
unfolding has_unique_ids has_repeated_id
has_unique_ids_lem seen [] = refl
has_unique_ids_lem seen (id ∷ ids) =
    ground (arith, has_unique_ids_lem (id ∷ seen) ids, any-contains_cons id seen ids)

abbrev none_seen : List Text
none_seen = []

any-contains_nothing : (ids : List Text) → any (contains none_seen) ids ≡ false
unfolding contains
any-contains_nothing [] = refl
any-contains_nothing (id ∷ ids) = any-contains_nothing ids

-- The test of the route, which stops at the first repetition, and that of the store, which counts, agree.
pub has_unique_entity_change_ids_lem :
    (T : Type 0) (id : T → Text) (changes : List (EntityChange T))
    → has_unique_entity_change_ids id changes
      ≡ not (has_repeated_id (map (λ (c : EntityChange T). id c.entity) changes))
unfolding has_unique_entity_change_ids
has_unique_entity_change_ids_lem T id changes =
    let ids = map (λ (c : EntityChange T). id c.entity) changes in
    ground (arith, has_unique_ids_lem [] ids, any-contains_nothing ids)

Result-cases :
    {T : Type 0} (r : Result T) → ((e : StoreError) × (r ≡ err e)) ⊎ ((v : T) × (r ≡ ok v))
Result-cases (err e) = inl (e, refl)
Result-cases (ok v) = inr (v, refl)

module _ (host : Host) (owner time : Text) (body : PushRequest) (db : Db) where
  -- A request with distinct ids fails for a limit, if it fails.
  push_changes-error :
      (e : StoreError)
      → has_repeated_id (notebook_change_ids body.notebooks) ≡ false
      → has_repeated_id (change_ids body.notes) ≡ false
      → push_changes host route_options owner time body db ≡ err e
      → (e ≡ record_limit_exceeded) ⊎ (e ≡ device_limit_exceeded)
  unfolding push_changes assert_unique_push_change_ids
  push_changes-error e notebooks notes h =
      let h1 = rw (notebooks, notes) at h in
      elim (Bool-cases (host.limits_exceeded db owner body)) [
        | inl over ↦ inl (let failed = rw over at h1 in ground arith)
        | inr within ↦ elim (Result-cases (upsert_device owner body.device time db)) [
          | inl (reason, failed) ↦
              let device = upsert_device-error owner body.device time db reason failed in
              let h2 = rw (within, failed) at h1 in
              inr (let same : reason ≡ e = ground arith in sym same ∙ device)
          | inr (tx, works) ↦ absurd (let h2 = rw (within, works) at h1 in ground arith)
        ]
      ]

module _ (host : Host) (formats : Formats) (key_hash : Text → Text) (session : AuthSession)
    (keyring : Option Text) (now : ℕ) (time : Text) (body : PushRequest) (s : ServerState) where
  abbrev is_valid : Bool
  is_valid = is_valid_push host formats key_hash body

  abbrev encrypted : Bool
  encrypted = is_encrypted host formats key_hash body

  abbrev with_keyring : Bool
  with_keyring = has_keyring host formats key_hash session keyring

  -- What holds of each kind of reply and of the state that the route leaves.
  abbrev pub Explains : ServerState × Reply → Type 0
  Explains (s', answered response) =
      (is_valid_push host formats key_hash body ≡ true)
      × (push_change_count body ≤ max_sync_changes_per_push)
      × (is_other_device session.device_id body.device.id ≡ false)
      × ((has_keyring host formats key_hash session keyring
            && not (is_encrypted host formats key_hash body))
          ≡ false)
      × ((is_rate_limited key_hash (sync_rate_key host formats key_hash session) now
            max_sync_pushes_per_minute s.limits).1
          ≡ false)
      × (s'.limits
          ≡ record_failed_auth_attempt key_hash (sync_rate_key host formats key_hash session) now
              (is_rate_limited key_hash (sync_rate_key host formats key_hash session) now
                max_sync_pushes_per_minute s.limits).0)
      × (push_changes host route_options session.owner time body s.db ≡ ok (response, s'.db))
  Explains (s', refused status) = s'.db ≡ s.db
  Explains (s', thrown reason) = (s'.db ≡ s.db) × (reason ≡ device_limit_exceeded)

  abbrev rate_check : Limits × Bool
  rate_check =
      is_rate_limited key_hash (sync_rate_key host formats key_hash session) now
        max_sync_pushes_per_minute s.limits

  abbrev counted_limits : Limits
  counted_limits =
      record_failed_auth_attempt key_hash (sync_rate_key host formats key_hash session) now
        rate_check.0

  valid_ids :
      is_valid ≡ true
      → (has_repeated_id (notebook_change_ids body.notebooks) ≡ false)
        × (has_repeated_id (change_ids body.notes) ≡ false)
  unfolding is_valid_push
  valid_ids valid =
      let of_notes = has_unique_entity_change_ids_lem Note (λ n. n.id) body.notes in
      let of_notebooks = has_unique_entity_change_ids_lem Notebook (λ b. b.id) body.notebooks in
      (ground arith, ground arith)

  reply_of-Explains :
      (result : Result (PushResponse × Db))
      → push_changes host route_options session.owner time body s.db ≡ result
      → is_valid ≡ true
      → push_change_count body ≤ max_sync_changes_per_push
      → is_other_device session.device_id body.device.id ≡ false
      → (with_keyring && not encrypted) ≡ false
      → (rate_check).1 ≡ false
      → Explains (reply_of (record s { limits = counted_limits }) result)
  reply_of-Explains (ok (response, db)) e valid few own secret free =
      (valid, few, own, secret, free, refl, e)
  reply_of-Explains (err record_limit_exceeded) e valid few own secret free = refl
  reply_of-Explains (err device_limit_exceeded) e valid few own secret free = (refl, refl)
  reply_of-Explains (err response_too_large) e valid few own secret free =
      let (notebooks, notes) = valid_ids valid in
      absurd (
        let limit =
          push_changes-error host session.owner time body s.db response_too_large notebooks notes
            e in
        ground arith)
  reply_of-Explains (err (duplicate_id kind)) e valid few own secret free =
      let (notebooks, notes) = valid_ids valid in
      absurd (
        let limit =
          push_changes-error host session.owner time body s.db (duplicate_id kind) notebooks notes
            e in
        ground arith)

  -- The route of a push answers only a request that passed all of its checks, that of the rate limit
  -- included, with what the repository gives for it, and then counts the request against the account's
  -- rate; otherwise it leaves the records as they were. The repository's error for a repeated id
  -- does not come out of it: the only exception that leaves it is that the account has its devices.
  pub sync_push-Explains :
      Explains (sync_push host formats key_hash session keyring now time body s)
  unfolding sync_push
  sync_push-Explains = elim (Bool-cases is_valid) [
    | inr invalid ↦ rw (sync_push, invalid) refl
    | inl valid ↦ elim (Bool-cases (ltb max_sync_changes_per_push (push_change_count body))) [
      | inl many ↦ rw (sync_push, valid, many) refl
      | inr few ↦ elim (Bool-cases (is_other_device session.device_id body.device.id)) [
        | inl other ↦ rw (sync_push, valid, few, other) refl
        | inr own ↦ elim (Bool-cases (with_keyring && not encrypted)) [
          | inl unsealed ↦ rw (sync_push, valid, few, own, unsealed) refl
          | inr secret ↦
              elim (Bool-cases
                (is_rate_limited key_hash (sync_rate_key host formats key_hash session) now
                  max_sync_pushes_per_minute s.limits).1) [
                    | inl limited ↦ rw (sync_push, valid, few, own, secret, limited) refl
                    | inr free ↦
                        rw (sync_push, valid, few, own, secret, free)
                          (reply_of-Explains _ refl valid (ground arith) own secret free)
                  ]
        ]
      ]
    ]
  ]
