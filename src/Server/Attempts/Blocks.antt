-- ===== src/Server/Attempts/Blocks.antt =====
-- When the persistent limits block a key.
use author.Common.{
  ℕ, ◌+◌, ◌≤◌, ◌<◌, ◌≡◌, refl, ap, subst, sym, Bool, true, false, not, ◌&&◌, Option, none, some,
  List, [], ◌∷◌, Text, text_eq, text_eq_iff, text_Eq, length, leb, if◌then◌else◌, for_each, All,
  arith, Bool-cases, Option-cases, inl, inr, keep_if,
}
use author.Common.Table.{Table, get, upsert, get-upsert, get-remove}
use author.Server.Attempts.{
  Attempt, login_attempt_window_ms, first_attempt, is_expired, counted, remove_expired,
  is_login_rate_limited, is_persistent_login_rate_limited, record_persistent_failed_login,
  clear_persistent_failed_logins, Limits, is_rate_limited, record_failed_auth_attempt,
  clear_failed_auth_attempts, Event, checks, fails, clears, apply_event,
}

-- What the row of a key says where the key failed n times since the time `since`.
abbrev Counts : ℕ → ℕ → Option Attempt → Type 0
Counts since n none = n ≡ 0
Counts since n (some a) = (since + login_attempt_window_ms ≤ a.reset_at) × (n ≤ a.count)

get-remove_expired :
    (now : ℕ) (t : Table Text Attempt) (key : Text) (a : Attempt)
    → get t key ≡ some a
    → is_expired now a ≡ false
    → get (remove_expired now t) key ≡ some a
unfolding remove_expired get
get-remove_expired now [] key a e live = absurd (cc)
get-remove_expired now ((k, b) ∷ t) key a e live = elim (Bool-cases (text_eq k key)) [
  | inl same ↦
      let one : some b ≡ some a = rw same at e in
      let alive : is_expired now b ≡ false = ground arith in rw (alive, same) one
  | inr other ↦
      let rest = get-remove_expired now t key a (rw other at e) live in
      elim (Bool-cases (is_expired now b)) [
        | inl old ↦ rw old rest
        | inr stays ↦ rw (stays, other) rest
      ]
]

get-remove_expired-none :
    (now : ℕ) (t : Table Text Attempt) (key : Text)
    → get t key ≡ none
    → get (remove_expired now t) key ≡ none
unfolding remove_expired get
get-remove_expired-none now [] key e = refl
get-remove_expired-none now ((k, b) ∷ t) key e = elim (Bool-cases (text_eq k key)) [
  | inl same ↦ absurd (let one = rw same at e in ground arith)
  | inr other ↦
      let rest = get-remove_expired-none now t key (rw other at e) in
      elim (Bool-cases (is_expired now b)) [
        | inl old ↦ rw old rest
        | inr stays ↦ rw (stays, other) rest
      ]
]

module _ (since n : ℕ) (key : Text) where
  remove_expired-Counts :
      (now : ℕ) (t : Table Text Attempt)
      → now < since + login_attempt_window_ms
      → Counts since n (get t key)
      → Counts since n (get (remove_expired now t) key)
  remove_expired-Counts now t early h = elim (Option-cases (get t key)) [
    | inl absent ↦ rw (get-remove_expired-none now t key absent) (rw absent at h)
    | inr (a, there) ↦
        let known : Counts since n (some a) = rw there at h in
        rw (get-remove_expired now t key a there (ground arith)) known
  ]

  upsert-Counts :
      (now : ℕ) (t : Table Text Attempt)
      → since ≤ now
      → now < since + login_attempt_window_ms
      → Counts since n (get t key)
      → Counts since (n + 1) (get (upsert (counted now) t key (first_attempt now)) key)
  upsert-Counts now t late early h = elim (Option-cases (get t key)) [
    | inl absent ↦
        let zero_fails : n ≡ 0 = rw absent at h in
        rw
          (
            get-upsert (counted now) t key (first_attempt now) key,
            (text_eq_iff key key).1 refl,
            absent,
          )
          (omega arith, omega arith)
    | inr (a, there) ↦
        let (live, enough) : Counts since n (some a) = rw there at h in
        let alive : is_expired now a ≡ false = ground arith in
        rw
          (
            get-upsert (counted now) t key (first_attempt now) key,
            (text_eq_iff key key).1 refl,
            there,
            alive,
          )
          (omega arith, omega arith)
  ]

weaken-Counts : (since n : ℕ) (o : Option Attempt) → Counts since (n + 1) o → Counts since n o
weaken-Counts since n none h = absurd (omega arith)
weaken-Counts since n (some a) (live, enough) = (live, omega arith)

abbrev pub is_failure_of : Text → Event → Bool
is_failure_of key (fails k now) = text_eq k key
is_failure_of key _ = false

abbrev pub failures : Text → List Event → ℕ
failures key events = length (keep_if (is_failure_of key) events)

-- The event is within the window that begins at `since`, and does not clear the key.
abbrev pub IsWithin : (Text → Text) → Text → ℕ → Event → Type 0
IsWithin key_hash key since (checks k now max_attempts) =
    (since ≤ now) × (now < since + login_attempt_window_ms)
IsWithin key_hash key since (fails k now) = (since ≤ now) × (now < since + login_attempt_window_ms)
IsWithin key_hash key since (clears k) = text_eq (key_hash k) (key_hash key) ≡ false

persistent-is_rate_limited :
    (key_hash : Text → Text) (key : Text) (now max_attempts : ℕ) (s : Limits)
    → (is_rate_limited key_hash key now max_attempts s).0.persistent ≡ (
        if (is_login_rate_limited key now max_attempts s.in_memory).1
        then s.persistent
        else remove_expired now s.persistent)
unfolding is_rate_limited is_persistent_login_rate_limited
persistent-is_rate_limited key_hash key now max_attempts s =
    elim (Bool-cases (is_login_rate_limited key now max_attempts s.in_memory).1) [
      | inl limited ↦ rw limited refl
      | inr free ↦ rw free refl
    ]

flipped : (a b : Text) → text_eq a b ≡ false → text_eq b a ≡ false
flipped a b other = ground (arith, text_eq_iff a b, text_eq_iff b a)

text_eq_hash : (f : Text → Text) (a b : Text) → text_eq (f a) (f b) ≡ false → text_eq a b ≡ false
text_eq_hash f a b differs = elim (Bool-cases (text_eq a b)) [
  | inl same ↦
      let e = (text_eq_iff (f a) (f b)).1 (ap f ((text_eq_iff a b).0 same)) in absurd (ground arith)
  | inr other ↦ other
]

module _ (key_hash : Text → Text) (key : Text) (since : ℕ) where
  abbrev row_of : Limits → Option Attempt
  row_of s = get s.persistent (key_hash key)

  record-Counts :
      (k : Text) (now n : ℕ) (t : Table Text Attempt)
      → since ≤ now
      → now < since + login_attempt_window_ms
      → Counts since n (get t (key_hash key))
      → Counts since
          (if text_eq k key then n + 1 else n)
          (get (record_persistent_failed_login key_hash k now t) (key_hash key))
  unfolding record_persistent_failed_login
  record-Counts k now n t late early h = elim (Bool-cases (text_eq (key_hash k) (key_hash key))) [
    | inl same ↦
        let q = (text_eq_iff (key_hash k) (key_hash key)).0 same in
        let up = upsert-Counts since n (key_hash key) now t late early h in
        elim (Bool-cases (text_eq k key)) [
          | inl own ↦ rw (q, own) up
          | inr other ↦ rw (q, other) (weaken-Counts since n _ up)
        ]
    | inr other ↦
        let differs : text_eq k key ≡ false = text_eq_hash key_hash k key other in
        rw
          (
            differs,
            get-upsert (counted now) t (key_hash k) (first_attempt now) (key_hash key),
            other,
          )
          h
  ]

  event-Counts :
      (e : Event) (n : ℕ) (s : Limits)
      → IsWithin key_hash key since e
      → Counts since n (row_of s)
      → Counts since (if is_failure_of key e then n + 1 else n) (row_of (apply_event key_hash s e))
  unfolding apply_event is_rate_limited record_failed_auth_attempt clear_failed_auth_attempts
      clear_persistent_failed_logins is_persistent_login_rate_limited
  event-Counts (checks k now max_attempts) n s (late, early) h =
      subst (λ t. Counts since n (get t (key_hash key)))
        (sym (persistent-is_rate_limited key_hash k now max_attempts s))
        (elim (Bool-cases (is_login_rate_limited k now max_attempts s.in_memory).1) [
          | inl limited ↦ rw limited h
          | inr free ↦
              rw free (remove_expired-Counts since n (key_hash key) now s.persistent early h)
        ])
  event-Counts (fails k now) n s (late, early) h = record-Counts k now n s.persistent late early h
  event-Counts (clears k) n s other h =
      rw
        (
          get-remove s.persistent (key_hash k) (key_hash key),
          flipped (key_hash k) (key_hash key) other,
        )
        h

  events-Counts :
      (events : List Event) (n : ℕ) (s : Limits)
      → All (IsWithin key_hash key since) events
      → Counts since n (row_of s)
      → Counts since (n + failures key events) (row_of (for_each (apply_event key_hash) s events))
  events-Counts [] n s within h = (let e : n + 0 ≡ n = omega arith in rw e h)
  events-Counts (e ∷ events) n s (first, within) h =
      let after = event-Counts e n s first h in
      elim (Bool-cases (is_failure_of key e)) [
        | inl own ↦
            let e' : n + failures key (e ∷ events) ≡ n + 1 + failures key events = ground arith in
            rw e' (events-Counts events (n + 1) (apply_event key_hash s e) within (rw own at after))
        | inr other ↦
            let e' : n + failures key (e ∷ events) ≡ n + failures key events = ground arith in
            rw e' (events-Counts events n (apply_event key_hash s e) within (rw other at after))
      ]

  -- Take a key that the persistent limits have no row of, and what requests do within the 60 seconds from
  -- a time `since`: checks and failures of any keys, in any order, and clears of keys with another hash.
  -- If the key failed at least as often as a check allows, the check limits it, within those 60 seconds.
  pub is_rate_limited_after_failures :
      (events : List Event) (s : Limits) (now max_attempts : ℕ)
      → get s.persistent (key_hash key) ≡ none
      → All (IsWithin key_hash key since) events
      → now < since + login_attempt_window_ms
      → 0 < max_attempts
      → max_attempts ≤ failures key events
      → (is_rate_limited key_hash key now max_attempts (for_each (apply_event key_hash) s events)).1
        ≡ true
  unfolding is_rate_limited is_persistent_login_rate_limited
  is_rate_limited_after_failures events s now max_attempts absent within early some_needed enough =
      let after = for_each (apply_event key_hash) s events in
      let zero_fails : Counts since 0 (row_of s) = rw absent refl in
      let known = events-Counts events 0 s within zero_fails in
      let kept =
        remove_expired-Counts since (0 + failures key events) (key_hash key) now after.persistent
          early known in
      elim (Option-cases (get (remove_expired now after.persistent) (key_hash key))) [
        | inl gone ↦ absurd (let n = rw gone at kept in omega arith)
        | inr (a, there) ↦
            let (live, count) : Counts since (0 + failures key events) (some a) =
              rw there at kept in
            let test : (not (is_expired now a) && leb max_attempts a.count) ≡ true = ground arith in
            elim (Bool-cases (is_login_rate_limited key now max_attempts after.in_memory).1) [
              | inl limited ↦ rw limited refl
              | inr free ↦ rw (free, is_persistent_login_rate_limited, there) test
            ]
      ]
