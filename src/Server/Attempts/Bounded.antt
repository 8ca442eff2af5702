-- ===== src/Server/Attempts/Bounded.antt =====
-- How many keys the limits in memory hold.
use author.Common.{
  ℕ, suc, ◌+◌, ◌≤◌, ◌≡◌, refl, sym, subst, Bool, true, List, [], ◌∷◌, Text, text_eq, text_Eq,
  truthy, length, leb, for_each, All, arith, Bool-cases, Option-cases, inl, inr,
}
use author.Common.Table.{Table, get, put, upsert, remove, remove_if}
use author.Server.Attempts.{
  Attempt, max_login_attempt_keys, first_attempt, is_expired, remove_expired, remove_oldest,
  prune_login_attempts, is_login_rate_limited, record_failed_login, clear_failed_logins, Limits,
  is_rate_limited, record_failed_auth_attempt, clear_failed_auth_attempts, Event, checks, fails,
  clears, apply_event,
}

abbrev IsNamed : Text × Attempt → Type 0
IsNamed (key, _) = truthy key ≡ true

abbrev IsBounded : ℕ → Table Text Attempt → Type 0
IsBounded n t = All IsNamed t × (length t ≤ n)

remove_expired-IsBounded :
    (n now : ℕ) (t : Table Text Attempt) → IsBounded n t → IsBounded n (remove_expired now t)
unfolding remove_expired
remove_expired-IsBounded n now [] h = h
remove_expired-IsBounded n now ((key, attempt) ∷ t) ((named, all), bound) =
    let (all', bound') = remove_expired-IsBounded (length t) now t (all, omega arith) in
    elim (Bool-cases (is_expired now attempt)) [
      | inl old ↦ rw old (all', omega arith)
      | inr live ↦ rw live ((named, all'), omega arith)
    ]

remove_oldest-IsBounded :
    (t : Table Text Attempt) → All IsNamed t → IsBounded max_login_attempt_keys (remove_oldest t)
unfolding remove_oldest
remove_oldest-IsBounded [] all = (tt, omega arith)
remove_oldest-IsBounded ((key, attempt) ∷ t) (named, all) =
    elim (Bool-cases (leb (suc (length t)) max_login_attempt_keys)) [
      | inl fits ↦ rw fits ((named, all), ground arith)
      | inr over ↦ rw (over, named) (remove_oldest-IsBounded t all)
    ]

upsert-IsBounded :
    (f : Attempt → Attempt → Attempt) (n : ℕ) (t : Table Text Attempt) (key : Text) (a : Attempt)
    → truthy key ≡ true
    → IsBounded n t
    → IsBounded (n + 1) (upsert f t key a)
unfolding upsert
upsert-IsBounded f n [] key a named h = ((named, tt), omega arith)
upsert-IsBounded f n ((k, b) ∷ t) key a named ((first, all), bound) =
    elim (Bool-cases (text_eq k key)) [
      | inl same ↦ rw same ((first, all), omega arith)
      | inr other ↦
          let (all', bound') = upsert-IsBounded f (length t) t key a named (all, omega arith) in
          rw other ((first, all'), omega arith)
    ]

put-IsBounded :
    (n : ℕ) (t : Table Text Attempt) (key : Text) (a : Attempt)
    → truthy key ≡ true
    → IsBounded n t
    → IsBounded (n + 1) (put t key a)
unfolding put
put-IsBounded n t key a named h = upsert-IsBounded (λ _ new. new) n t key a named h

remove_if-IsBounded :
    (n : ℕ) (p : Text → Bool) (t : Table Text Attempt) → IsBounded n t → IsBounded n (remove_if p t)
unfolding remove_if
remove_if-IsBounded n p [] h = h
remove_if-IsBounded n p ((k, b) ∷ t) ((named, all), bound) =
    let (all', bound') = remove_if-IsBounded (length t) p t (all, omega arith) in
    elim (Bool-cases (p k)) [
      | inl gone ↦ rw gone (all', omega arith)
      | inr stays ↦ rw stays ((named, all'), omega arith)
    ]

remove-IsBounded :
    (n : ℕ) (t : Table Text Attempt) (key : Text) → IsBounded n t → IsBounded n (remove t key)
unfolding remove
remove-IsBounded n t key h = remove_if-IsBounded n (λ k. text_eq k key) t h

record_failed_login-IsBounded :
    (key : Text) (now n : ℕ) (t : Table Text Attempt)
    → truthy key ≡ true
    → IsBounded n t
    → IsBounded (max_login_attempt_keys + 1) (record_failed_login key now t)
unfolding record_failed_login prune_login_attempts
record_failed_login-IsBounded key now n t named h =
    let pruned = prune_login_attempts now t in
    let small =
      remove_oldest-IsBounded (remove_expired now t) (remove_expired-IsBounded n now t h).0 in
    let fresh = put-IsBounded max_login_attempt_keys pruned key (first_attempt now) named small in
    elim (Option-cases (get pruned key)) [
      | inl absent ↦ rw (record_failed_login, absent) fresh
      | inr (a, there) ↦ elim (Bool-cases (is_expired now a)) [
        | inl old ↦ rw (record_failed_login, there, old) fresh
        | inr live ↦
            rw (record_failed_login, there, live)
              (put-IsBounded max_login_attempt_keys pruned key (record a { count = a.count + 1 })
                named small)
      ]
    ]

is_login_rate_limited-IsBounded :
    (key : Text) (now max_attempts n : ℕ) (t : Table Text Attempt)
    → IsBounded n t
    → IsBounded n (is_login_rate_limited key now max_attempts t).0
unfolding is_login_rate_limited
is_login_rate_limited-IsBounded key now max_attempts n t h = elim (Option-cases (get t key)) [
  | inl absent ↦ rw (is_login_rate_limited, absent) (remove-IsBounded n t key h)
  | inr (a, there) ↦ elim (Bool-cases (is_expired now a)) [
    | inl old ↦ rw (is_login_rate_limited, there, old) (remove-IsBounded n t key h)
    | inr live ↦ rw (is_login_rate_limited, there, live) h
  ]
]

-- The key of a failure is not empty.
abbrev pub names_key : Event → Bool
names_key (fails key now) = truthy key
names_key _ = true

in_memory-is_rate_limited :
    (key_hash : Text → Text) (key : Text) (now max_attempts : ℕ) (s : Limits)
    → (is_rate_limited key_hash key now max_attempts s).0.in_memory
      ≡ (is_login_rate_limited key now max_attempts s.in_memory).0
unfolding is_rate_limited
in_memory-is_rate_limited key_hash key now max_attempts s =
    elim (Bool-cases (is_login_rate_limited key now max_attempts s.in_memory).1) [
      | inl limited ↦ rw limited refl
      | inr free ↦ rw free refl
    ]

apply_event-IsBounded :
    (key_hash : Text → Text) (s : Limits) (e : Event)
    → names_key e ≡ true
    → IsBounded (max_login_attempt_keys + 1) s.in_memory
    → IsBounded (max_login_attempt_keys + 1) (apply_event key_hash s e).in_memory
unfolding apply_event is_rate_limited record_failed_auth_attempt clear_failed_auth_attempts
    clear_failed_logins
apply_event-IsBounded key_hash s (fails key now) named h =
    record_failed_login-IsBounded key now (max_login_attempt_keys + 1) s.in_memory named h
apply_event-IsBounded key_hash s (clears key) named h =
    remove-IsBounded (max_login_attempt_keys + 1) s.in_memory key h
apply_event-IsBounded key_hash s (checks key now max_attempts) named h =
    subst (IsBounded (max_login_attempt_keys + 1))
      (sym (in_memory-is_rate_limited key_hash key now max_attempts s))
      (is_login_rate_limited-IsBounded key now max_attempts (max_login_attempt_keys + 1) s.in_memory
        h)

events-IsBounded :
    (key_hash : Text → Text) (s : Limits) (events : List Event)
    → All (λ e. names_key e ≡ true) events
    → IsBounded (max_login_attempt_keys + 1) s.in_memory
    → IsBounded (max_login_attempt_keys + 1) (for_each (apply_event key_hash) s events).in_memory
events-IsBounded key_hash s [] named h = h
events-IsBounded key_hash s (e ∷ events) (first, named) h =
    events-IsBounded key_hash (apply_event key_hash s e) events named
      (apply_event-IsBounded key_hash s e first h)

-- From a server that has just started, whatever requests come, with keys that are not empty: the limits in
-- memory hold at most 501 keys, one more than `MAX_LOGIN_ATTEMPT_KEYS`, since a key is added after the
-- others are pruned.
pub login_attempts_bounded :
    (key_hash : Text → Text) (persistent : Table Text Attempt) (events : List Event)
    → All (λ e. names_key e ≡ true) events
    → length
        (for_each
          (apply_event key_hash)
          (record { in_memory = []; persistent = persistent })
          events).in_memory
      ≤ max_login_attempt_keys + 1
login_attempts_bounded key_hash persistent events named =
    (events-IsBounded key_hash (record { in_memory = []; persistent = persistent }) events named
      (tt, omega arith)).1
