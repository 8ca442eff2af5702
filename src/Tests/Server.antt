-- ===== src/Tests/Server.antt =====
-- The server's limits and checks, and the texts of secrets.
use author.Common.{
  ◌+◌, ◌≤◌, ◌≡◌, refl, true, false, not, none, some, List, [], ◌∷◌, lit, text_eq, text_Eq, arith,
  length, map, for_each,
}
use author.Common.Table.{get}
use author.Schema.{Note}
use author.ApiTypes.{EntityChange}
use author.Repository.Store.{empty_db}
use author.Repository.Push.{has_repeated_id}
use author.Server.Attempts.{
  Limits, Event, checks, fails, apply_event, is_rate_limited, max_login_attempt_keys,
}
use author.Server.Attempts.Bounded.{login_attempts_bounded}
use author.Server.Attempts.Blocks.{failures, is_rate_limited_after_failures}
use author.Server.Base32.{base32_encode, base32_decode, encode_from, emit, char_at}
use author.Server.Base32.RoundTrip.{base32_decode-base32_encode}
use author.Server.Payloads.{Formats, has_unique_entity_change_ids}
use author.Server.PushRoute.{AuthSession, ServerState, sync_push}
use author.Server.PushRoute.Guards.{Explains, has_unique_entity_change_ids_lem, sync_push-Explains}
use author.Tests.Sample.{me, sample_host, first_push}

abbrev no_limits : Limits
no_limits = record { in_memory = []; persistent = [] }

-- Two failures, with a check between them.
abbrev two_failures : List Event
two_failures = fails (lit "k") 1 ∷ checks (lit "k") 2 8 ∷ fails (lit "k") 3 ∷ []

login_attempts_bounded_example :
    length (for_each (apply_event (λ k. k)) no_limits two_failures).in_memory
    ≤ max_login_attempt_keys + 1
login_attempts_bounded_example =
    login_attempts_bounded (λ k. k) [] two_failures (refl, (refl, (refl, tt)))

no_row : get no_limits.persistent (lit "k") ≡ none
unfolding get
no_row = refl

two_counted : 2 ≤ failures (lit "k") two_failures
unfolding text_eq
two_counted = omega arith

is_rate_limited_after_failures_example :
    (is_rate_limited
      (λ k. k)
      (lit "k")
      4
      2
      (for_each (apply_event (λ k. k)) no_limits two_failures)).1
    ≡ true
is_rate_limited_after_failures_example =
    is_rate_limited_after_failures (λ k. k) (lit "k") 0 two_failures no_limits 4 2 no_row
      ((omega arith, omega arith), ((omega arith, omega arith), ((omega arith, omega arith), tt)))
      (omega arith) (omega arith) two_counted

encoded : base32_encode (102 ∷ 111 ∷ 111 ∷ []) ≡ lit "MZXW6"
unfolding base32_encode encode_from emit char_at
encoded = refl

base32_decode-base32_encode_example :
    base32_decode (λ s. s) (base32_encode (102 ∷ 111 ∷ 111 ∷ [])) ≡ some (102 ∷ 111 ∷ 111 ∷ [])
base32_decode-base32_encode_example =
    base32_decode-base32_encode (λ s. s) 102 (111 ∷ 111 ∷ []) (λ s all. refl)
      (omega arith, (omega arith, (omega arith, tt)))

has_unique_entity_change_ids_lem_example :
    has_unique_entity_change_ids (λ (n : Note). n.id) first_push.notes
    ≡ not (has_repeated_id (map (λ (c : EntityChange Note). c.entity.id) first_push.notes))
has_unique_entity_change_ids_lem_example =
    has_unique_entity_change_ids_lem Note (λ n. n.id) first_push.notes

abbrev formats : Formats
formats = record { text_bytes = λ s. length s; is_date = λ s. true }

abbrev auth_session : AuthSession
auth_session = record { owner = me; device_id = some (lit "phone"); legacy = false }

abbrev server : ServerState
server = record { limits = no_limits; db = empty_db }

sync_push-Explains_example :
    Explains sample_host formats
      (λ k. k)
      auth_session
      none
      7
      (lit "t")
      first_push
      server
      (sync_push sample_host formats (λ k. k) auth_session none 7 (lit "t") first_push server)
sync_push-Explains_example =
    sync_push-Explains sample_host formats (λ k. k) auth_session none 7 (lit "t") first_push server
