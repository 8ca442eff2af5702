-- ===== src/Repository/Pull/Cursor.antt =====
-- The pages of `pullChangesSince`: their cursor, their size, and how often one is asked for again.
use mathlib.Core.List.{reverse_aux}
use author.Common.{
  ℕ, zero, suc, ◌+◌, ◌/◌, ◌≤◌, ◌<◌, ◌≡◌, refl, ap, sym, ◌∙◌, Bool, true, false, ◌||◌, some, List,
  [], ◌∷◌, Text, keep_if, take, length, get_last?, max, ltb, leb, ◌==◌, if◌then◌else◌, All, arith,
  length-take, Option-cases, Bool-cases, inl, inr, max_safe_integer, natural, safe_natural, subst,
  ◌≢◌, Number, or_else,
}
use author.ApiTypes.{PullResponse, pull_response_bytes}
use author.SyncSpec.Cursor.{safe_revision_cursor, moved_to}
use author.Repository.Store.{Change, Db}
use author.Repository.Log.{current_revision, as_revision}
use author.Repository.Devices.{Result, ok, err, response_too_large}
use author.Repository.Pull.{
  pull_page, pull_loop, changes_between, in_range, pull_limit, pull_changes_since,
}
use mathlib.Core.Bool.{false≢true}

module _ {ℓ} {A : Type ℓ} (P : A → Type 0) where
  pub All-reverse_aux : (xs ys : List A) → All P xs → All P ys → All P (reverse_aux xs ys)
  All-reverse_aux [] ys h k = k
  All-reverse_aux (x ∷ xs) ys (p, h) k = All-reverse_aux xs (x ∷ ys) h (p, k)

  All-take : (n : ℕ) (xs : List A) → All P xs → All P (take n xs)
  All-take zero xs h = tt
  All-take (suc n) [] h = tt
  All-take (suc n) (x ∷ xs) (p, h) = (p, All-take n xs h)

  All-get_last? : (xs : List A) {x : A} → All P xs → get_last? xs ≡ some x → P x
  All-get_last? [] h e = absurd (cc)
  All-get_last? (y ∷ []) {x} (p, h) e = let same : y ≡ x = cc in subst P same p
  All-get_last? (y ∷ z ∷ xs) (p, h) e = All-get_last? (z ∷ xs) h e

last_empty {ℓ} : {A : Type ℓ} (xs : List A) {x : A} → get_last? xs ≡ some x → length xs ≡ 0 → ⊥
last_empty [] e h = cc
last_empty (x ∷ xs) e h = omega arith

pub All-keep_if : {A : Type 0} (p : A → Bool) (xs : List A) → All (λ x. p x ≡ true) (keep_if p xs)
All-keep_if p [] = tt
All-keep_if p (x ∷ xs) = ground (arith, All-keep_if p xs)

module _ (now : Text) (db : Db) (owner : Text) (since limit : ℕ) where
  abbrev current : ℕ
  current = current_revision db owner

  abbrev InPage : Change → Type 0
  InPage c = in_range owner since current c ≡ true

  abbrev rows : List Change
  rows = take (limit + 1) (changes_between db owner since current)

  abbrev visible : List Change
  visible = if ltb limit (length rows) then take limit rows else rows

  length-visible-le : length visible ≤ limit
  length-visible-le = ground (arith, length-take limit rows)

  visible_in_range : All InPage visible
  unfolding changes_between
  visible_in_range =
      let all = All-take (InPage) (limit + 1) (changes_between db owner since current) (
        All-reverse_aux InPage (keep_if (in_range owner since current) db.changes) []
          (All-keep_if (in_range owner since current) db.changes) tt) in
      elim (Bool-cases (ltb limit (length rows))) [
        | inl more ↦ rw more (All-take InPage limit rows all)
        | inr last ↦ rw last all
      ]

  covered-le : (pull_page now db owner since limit).1 ≤ limit
  unfolding pull_page
  covered-le = elim (Option-cases (get_last? visible)) [
    | inl e ↦ rw (e, pull_page) (omega arith)
    | inr (c, e) ↦ rw (e, pull_page) length-visible-le
  ]

  pub as_revision_of_le : (n : ℕ) → n ≤ current → as_revision n ≡ n
  unfolding current_revision as_revision
  as_revision_of_le n h = ground arith

  -- Where there are changes to give, the page's cursor is past the client's and not past the store's.
  pub page_cursor :
      (pull_page now db owner since limit).1 ≢ 0
      → (since < (pull_page now db owner since limit).0.server_revision)
        × ((pull_page now db owner since limit).0.server_revision ≤ current)
  unfolding pull_page
  page_cursor h = elim (Option-cases (get_last? visible)) [
    | inl e ↦ absurd (h (rw (e, pull_page)))
    | inr (c, e) ↦
        let inside = All-get_last? InPage visible visible_in_range e in
        let same = as_revision_of_le c.revision (ground arith) in
        rw (e, pull_page, same) (ground arith)
  ]

  pub page_empty :
      (pull_page now db owner since limit).1 ≡ 0
      → ((pull_page now db owner since limit).0.server_revision ≡ current)
        × ((pull_page now db owner since limit).0.has_more ≡ false)
  unfolding pull_page
  page_empty h = elim (Option-cases (get_last? visible)) [
    | inl e ↦ rw (e, pull_page) (refl, refl)
    | inr (c, e) ↦ absurd (last_empty visible e (rw (e, pull_page) at h))
  ]

  pub page_bounds :
      since ≤ current
      → (since ≤ (pull_page now db owner since limit).0.server_revision)
        × ((pull_page now db owner since limit).0.server_revision ≤ current)
        × ((pull_page now db owner since limit).0.has_more ≡ true
            → since < (pull_page now db owner since limit).0.server_revision)
  page_bounds h = elim (Bool-cases ((pull_page now db owner since limit).1 == 0)) [
    | inl none_left ↦
        let (same, last) = page_empty (ground arith) in
        (omega arith, omega arith, λ more. absurd (false≢true (sym last ∙ more)))
    | inr some_left ↦
        let (past, within) = page_cursor (ground arith) in (omega arith, within, λ _. past)
  ]

module _ (response_bytes : PullResponse → ℕ) (now : Text) (db : Db) (owner : Text) (since : ℕ) where
  pub pull_loop_page :
      (fuel limit : ℕ) (r : PullResponse)
      → pull_loop response_bytes now db owner since fuel limit ≡ some (ok r)
      → (l : ℕ) × (0 < limit → 0 < l) × (r ≡ (pull_page now db owner since l).0)
  unfolding pull_loop
  pull_loop_page zero limit r h = absurd (cc)
  pull_loop_page (suc fuel) limit r h =
      let page = pull_page now db owner since limit in
      elim (Bool-cases (page.1 == 0 || leb (response_bytes page.0) pull_response_bytes)) [
        | inl fits ↦ (limit, λ h. h, ground arith)
        | inr long ↦ elim (Bool-cases (leb page.1 1)) [
          | inl single ↦ absurd (ground arith)
          | inr more ↦
              let (l, some_left, same) =
                pull_loop_page fuel (max 1 (page.1 / 2)) r (ground arith) in
              (l, λ _. some_left (omega arith), same)
        ]
      ]

  pull_loop_total :
      (fuel limit : ℕ)
      → limit < fuel
      → (r : Result PullResponse) × (pull_loop response_bytes now db owner since fuel limit
          ≡ some r)
  unfolding pull_loop
  pull_loop_total zero limit h = absurd (omega arith)
  pull_loop_total (suc fuel) limit h =
      let page = pull_page now db owner since limit in
      elim (Bool-cases (page.1 == 0 || leb (response_bytes page.0) pull_response_bytes)) [
        | inl fits ↦ (ok page.0, rw (fits, pull_loop))
        | inr long ↦ elim (Bool-cases (leb page.1 1)) [
          | inl single ↦ (err response_too_large, rw (long, single, pull_loop))
          | inr more ↦
              let (r, e) =
                pull_loop_total fuel (max 1 (page.1 / 2))
                  (ground (arith, covered-le now db owner since limit)) in
              (r, rw (long, more, pull_loop) e)
        ]
      ]

-- Whatever the client sends, a pull ends, with a response or with an error: the fuel of the model never
-- runs out.
pub pull_changes_since_total :
    (response_bytes : PullResponse → ℕ) (now : Text) (db : Db) (owner : Text) (since limit : Number)
    → (r : Result PullResponse) × (pull_changes_since response_bytes now db owner since limit
        ≡ some r)
unfolding pull_changes_since
pull_changes_since_total response_bytes now db owner since limit =
    pull_loop_total response_bytes now db owner (or_else (safe_natural since) 0)
      (suc (pull_limit limit)) (pull_limit limit) (omega arith)

pub current_revision-le : (db : Db) (owner : Text) → current_revision db owner ≤ max_safe_integer
unfolding current_revision as_revision
current_revision-le db owner = ground arith

safe_natural_of_le : (n : ℕ) → n ≤ max_safe_integer → safe_natural (natural n) ≡ some n
unfolding safe_natural
safe_natural_of_le n h = ground arith

cursor_moves :
    (server previous : ℕ) (more : Bool)
    → previous ≤ server
    → server ≤ max_safe_integer
    → (more ≡ true → previous < server)
    → safe_revision_cursor (natural server) (natural previous) more ≡ moved_to server
unfolding safe_revision_cursor safe_natural
cursor_moves server previous true h k m = let lt = m refl in ground arith
cursor_moves server previous false h k m = ground arith

-- A response to a client whose cursor is a safe integer, not past the owner's newest revision, passes
-- the client's own check: `safeRevisionCursor` moves to the response's revision and does not throw.
pub pull_changes_since_cursor :
    (response_bytes : PullResponse → ℕ) (now : Text) (db : Db) (owner : Text) (since : ℕ)
    (limit : Number) (r : PullResponse)
    → since ≤ current_revision db owner
    → pull_changes_since response_bytes now db owner (natural since) limit ≡ some (ok r)
    → safe_revision_cursor (natural r.server_revision) (natural since) r.has_more
      ≡ moved_to r.server_revision
unfolding pull_changes_since
pull_changes_since_cursor response_bytes now db owner since limit r h e =
    let bound = current_revision-le db owner in
    let known = safe_natural_of_le since (omega arith) in
    let (l, _, same) =
      pull_loop_page response_bytes now db owner since (suc (pull_limit limit)) (pull_limit limit) r
        (ap
            (λ o.
              pull_loop response_bytes now db owner (or_else o 0) (suc (pull_limit limit))
                (pull_limit limit))
            (sym known)
          ∙ e) in
    let (low, high, more) = page_bounds now db owner since l h in
    rw same (cursor_moves _ since _ low (omega arith) more)
