-- ===== src/Client/Pulling/Ends.antt =====
-- How often the pull loop asks, whatever the server answers.
use author.Common.{
  ℕ, zero, suc, ◌+◌, ◌-◌, ◌*◌, ◌<◌, ◌≡◌, refl, not, ◌&&◌, Option, none, some, Text, ltb, arith,
  if◌then◌else◌, Bool-cases, inl, inr, natural, max_safe_integer,
}
use author.Schema.{Note, Notebook, Device}
use author.ApiTypes.{PullResponse}
use author.SyncSpec.Cursor.{
  safe_revision_cursor, safe_revision_cursor_progress, Cursor, moved_to, invalid_previous,
  invalid_server, did_not_advance,
}
use author.Client.Pulling.{
  PullRequest, Workings, apply_page, PullState, Round, again, done, failed, reset_cursor,
  after_page, apply_at, pull_page_round, pull_round, request_of, pull_loop,
}

-- The rounds that may follow: one for each cursor, once more after the cursor went back to 0.
abbrev pub rounds_left : PullState → ℕ
rounds_left st =
    if st.reset
    then max_safe_integer - st.cursor
    else max_safe_integer + 1 + (max_safe_integer - st.cursor)

-- The loop goes on with a state from which fewer rounds are left.
abbrev IsCloser : PullState → Round → Type 0
IsCloser st (again st') = rounds_left st' < rounds_left st
IsCloser st (done st') = Unit
IsCloser st (failed st') = Unit

-- The loop has ended.
abbrev pub IsOver : Round → Type 0
IsOver (again st) = ⊥
IsOver (done st) = Unit
IsOver (failed st) = Unit

module _ (show : ℕ → Text) (device : Device) (of_notes : Workings Note)
    (of_notebooks : Workings Notebook) where
  apply_at-IsCloser :
      (r : PullResponse) (st : PullState) (c : Cursor)
      → safe_revision_cursor (natural r.server_revision) (natural st.cursor) r.has_more ≡ c
      → IsCloser st (apply_at show device of_notes of_notebooks r st c)
  unfolding apply_at after_page
  apply_at-IsCloser r st invalid_previous e = tt
  apply_at-IsCloser r st invalid_server e = tt
  apply_at-IsCloser r st did_not_advance e = tt
  apply_at-IsCloser r st (moved_to next) e =
      let (p, _, before, low, high, more) =
        safe_revision_cursor_progress (natural r.server_revision) (natural st.cursor) r.has_more
          next e in
      elim (Bool-cases (apply_page device of_notes of_notebooks r st.db).1) [
        | inr refused ↦ rw refused tt
        | inl applied ↦ elim (Bool-cases r.has_more) [
          | inr last ↦ rw (applied, last) tt
          | inl goes_on ↦
              let past = more goes_on in
              let same : st.cursor ≡ p = ground arith in rw (applied, goes_on) (ground arith)
        ]
      ]

  pull_round-IsCloser :
      (answer : Option PullResponse) (st : PullState)
      → IsCloser st (pull_round show device of_notes of_notebooks answer st)
  unfolding pull_round pull_page_round reset_cursor
  pull_round-IsCloser none st = tt
  pull_round-IsCloser (some r) st =
      elim (Bool-cases (ltb r.server_revision st.cursor && not st.reset)) [
        | inl behind ↦ rw behind (ground arith)
        | inr ahead ↦ rw ahead (
            apply_at-IsCloser r st
              (safe_revision_cursor (natural r.server_revision) (natural st.cursor) r.has_more)
              refl)
      ]

  module _ (server : ℕ → PullRequest → Option PullResponse) where
    abbrev pub loop : ℕ → PullState → Option Round
    loop = pull_loop show device of_notes of_notebooks server

    -- What a round leads to, with fuel for the rounds after it.
    abbrev pub go_on : ℕ → Round → Option Round
    go_on fuel (again st) = loop fuel st
    go_on fuel (done st) = some (done st)
    go_on fuel (failed st) = some (failed st)

    abbrev next_round : ℕ → PullState → Round
    next_round fuel st =
        pull_round show device of_notes of_notebooks
          (server fuel (request_of show device of_notes of_notebooks server st)) st

    pub loop_step :
        (fuel : ℕ) (st : PullState) → loop (suc fuel) st ≡ go_on fuel (next_round fuel st)
    unfolding pull_loop
    loop_step fuel st = refl

    abbrev Ends : Option Round → Type 0
    Ends o = (result : Round) × (o ≡ some result) × IsOver result

    go_on-Ends :
        (fuel : ℕ) (st : PullState) (r : Round)
        → IsCloser st r
        → rounds_left st < suc fuel
        → ((st' : PullState) → rounds_left st' < fuel → Ends (loop fuel st'))
        → Ends (go_on fuel r)
    go_on-Ends fuel st (again st') closer enough later = later st' (omega arith)
    go_on-Ends fuel st (done st') closer enough later = (done st', refl, tt)
    go_on-Ends fuel st (failed st') closer enough later = (failed st', refl, tt)

    loop-Ends : (fuel : ℕ) (st : PullState) → rounds_left st < fuel → Ends (loop fuel st)
    loop-Ends zero st enough = absurd (omega arith)
    loop-Ends (suc fuel) st enough = rw (loop_step fuel st) (
        go_on-Ends fuel st (next_round fuel st)
          (pull_round-IsCloser
            (server fuel (request_of show device of_notes of_notebooks server st)) st)
          enough (loop-Ends fuel))

    -- The pull loop ends, with an error or because the server has no more pages, whatever the server
    -- answers: after at most as many rounds as there are safe integers twice over, since each page that
    -- another follows moves the cursor forward, and the cursor goes back once.
    pub pull_loop_ends :
        (fuel : ℕ) (st : PullState)
        → 2 * max_safe_integer + 1 < fuel
        → (result : Round) × (loop fuel st ≡ some result) × IsOver result
    pull_loop_ends fuel st enough = loop-Ends fuel st (ground arith)
