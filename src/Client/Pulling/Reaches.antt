-- ===== src/Client/Pulling/Reaches.antt =====
-- The pull loop against `pullChangesSince` of a store that stays the same meanwhile.
use author.Common.{
  ℕ, zero, suc, truthy, ◌+◌, ◌*◌, ◌≤◌, ◌<◌, ◌≡◌, refl, ap, sym, ◌∙◌, true, false, not, ◌&&◌, Option,
  none, some, Text, lit, text_eq_iff, text_Eq, ltb, arith, Bool-cases, inl, inr, ◌⊎◌, natural,
  max_safe_integer, subst,
}
use author.Common.Table.{Table, get, put, get-put}
use author.Schema.{Note, Notebook, Device}
use author.ApiTypes.{PullResponse}
use author.SyncSpec.Cursor.{safe_revision_cursor_progress, moved_to}
use author.Repository.Store.{Db}
use author.Repository.Devices.{Result, ok, err, StoreError}
use author.Repository.Log.{current_revision, IsOrdered}
use author.Repository.Pull.{pull_changes_since}
use author.Repository.Pull.Cursor.{
  pull_changes_since_cursor, pull_changes_since_total, current_revision-le,
}
use author.Repository.Pull.Last.{answer_behind, answer_le, answer_last}
use author.Client.Pulling.{
  PullRequest, pull_batch_size, Workings, apply_page, PullState, Round, again, done, failed,
  reset_cursor, after_page, apply_at, pull_page_round, pull_round, pull_loop,
}
use author.Client.Pulling.Ends.{pull_loop_ends, loop_step, go_on}

get-put_same : (t : Table Text Text) (k v : Text) → get (put t k v) k ≡ some v
get-put_same t k v = get-put t k v k ∙ rw ((text_eq_iff k k).1 refl) refl

-- The answer of the server, where its store is `db` and the request passes the checks before it.
abbrev pub answer_of : Option (Result PullResponse) → Option PullResponse
answer_of (some (ok r)) = some r
answer_of (some (err e)) = none
answer_of none = none

module _ (show : ℕ → Text) (device : Device) (of_notes : Workings Note)
    (of_notebooks : Workings Notebook) (response_bytes : PullResponse → ℕ) (now : ℕ → Text)
    (db : Db) (owner : Text) where
  abbrev pulled_page : ℕ → ℕ → Option (Result PullResponse)
  pulled_page n since =
      pull_changes_since response_bytes (now n) db owner (natural since) (natural pull_batch_size)

  abbrev pub repository_server : ℕ → PullRequest → Option PullResponse
  repository_server n req = answer_of (
      pull_changes_since response_bytes (now n) db owner (natural req.since_revision)
        (natural req.limit))

  abbrev pub next_round : ℕ → PullState → Round
  next_round n st =
      pull_round show device of_notes of_notebooks (answer_of (pulled_page n st.cursor)) st

  -- The rounds that the loop makes from a state, each with the number of rounds that it has left.
  pub data Visits : ℕ → PullState → ℕ → PullState → Type 0 where
    here : (n : ℕ) (st : PullState) → Visits n st n st
    after_round :
        (n m : ℕ) (st st' last : PullState)
        → next_round n st ≡ again st'
        → Visits n st' m last
        → Visits (suc n) st m last

  -- The server refuses the page that the state asks for, or gives one that cannot be stored in it.
  abbrev pub IsRefused : ℕ → PullState → Type 0
  IsRefused n st =
      (e : StoreError) × (pull_changes_since response_bytes (now n) db owner (natural st.cursor)
          (natural pull_batch_size)
        ≡ some (err e))

  abbrev pub IsStopped : ℕ → PullState → Type 0
  IsStopped n st =
      (r : PullResponse) × (pull_changes_since response_bytes (now n) db owner (natural st.cursor)
          (natural pull_batch_size)
        ≡ some (ok r))
      × ((apply_page device of_notes of_notebooks r st.db).1 ≡ false)

  -- The last round of the run was refused or stopped.
  abbrev pub Breaks : ℕ → PullState → Type 0
  Breaks fuel st =
      (m : ℕ) × (last : PullState) × Visits fuel st (suc m) last
      × (IsRefused m last ⊎ IsStopped m last)

  -- The loop has the owner's newest revision, and has stored it, unless a round of this run broke it off.
  abbrev pub Reaches : ℕ → PullState → Round → Type 0
  Reaches fuel from (again st) = ⊥
  Reaches fuel from (done st) =
      (st.cursor ≡ current_revision db owner)
      × (get st.db.sync_meta (lit "lastPulledRevision") ≡ some (show (current_revision db owner)))
  Reaches fuel from (failed st) = Breaks fuel from

  -- The cursor is a safe integer, and after it went back not past the owner's newest revision.
  abbrev IsSound : PullState → Type 0
  IsSound st =
      (st.cursor ≤ max_safe_integer) × (st.reset ≡ true → st.cursor ≤ current_revision db owner)

  abbrev GoesOn : ℕ → PullState → Round → Type 0
  GoesOn n from (again st) = IsSound st
  GoesOn n from (done st) = Reaches n from (done st)
  GoesOn n from (failed st) = IsRefused n from ⊎ IsStopped n from

  page-GoesOn :
      (n : ℕ) (r : PullResponse) (st : PullState)
      → pulled_page n st.cursor ≡ some (ok r)
      → r.server_revision ≤ current_revision db owner
      → (r.has_more ≡ false → r.server_revision ≡ current_revision db owner)
      → GoesOn n st (apply_at show device of_notes of_notebooks r st (moved_to r.server_revision))
  unfolding apply_at after_page
  page-GoesOn n r st answered within last =
      elim (Bool-cases (apply_page device of_notes of_notebooks r st.db).1) [
        | inr stopped ↦ rw stopped (inr (r, answered, stopped))
        | inl applied ↦ elim (Bool-cases r.has_more) [
          | inl more ↦
              let bound = current_revision-le db owner in
              rw (applied, more) (omega arith, λ _. within)
          | inr at_end ↦
              rw (applied, at_end)
                (
                  last at_end,
                  get-put_same _ (lit "lastPulledRevision") (show r.server_revision)
                      ∙ ap (λ n. some (show n)) (last at_end),
                )
        ]
      ]

  round-GoesOn :
      (n : ℕ) (st : PullState) (answer : Result PullResponse)
      → truthy owner ≡ true
      → IsOrdered db.next_revision db.changes
      → IsSound st
      → pulled_page n st.cursor ≡ some answer
      → GoesOn n st (pull_round show device of_notes of_notebooks (answer_of (some answer)) st)
  unfolding pull_round pull_page_round reset_cursor
  round-GoesOn n st (err e) named ordered sound answered = inl (e, answered)
  round-GoesOn n st (ok r) named ordered (safe, kept) answered =
      let limit = natural pull_batch_size in
      elim (Bool-cases (ltb (current_revision db owner) st.cursor)) [
        | inl past ↦
            let behind =
              answer_behind response_bytes (now n) db owner st.cursor limit r safe answered
                (ground arith) in
            let first : st.reset ≡ false = ground (arith, kept) in
            let test : (ltb r.server_revision st.cursor && not st.reset) ≡ true = ground arith in
            rw test (omega arith, λ _. omega arith)
        | inr within ↦
            let low =
              answer_le response_bytes (now n) db owner st.cursor limit r safe answered
                (ground arith) in
            let moves =
              pull_changes_since_cursor response_bytes (now n) db owner st.cursor limit r
                (ground arith) answered in
            let (p, _, before, forward, _, _) =
              safe_revision_cursor_progress (natural r.server_revision) (natural st.cursor)
                r.has_more r.server_revision moves in
            let test : (ltb r.server_revision st.cursor && not st.reset) ≡ false = ground arith in
            rw (test, moves)
              (page-GoesOn n r st answered low (
                answer_last response_bytes (now n) db owner st.cursor limit r safe answered named
                  ordered))
      ]

  abbrev loop : ℕ → PullState → Option Round
  loop = pull_loop show device of_notes of_notebooks repository_server

  next_round-GoesOn :
      (n : ℕ) (st : PullState)
      → truthy owner ≡ true
      → IsOrdered db.next_revision db.changes
      → IsSound st
      → GoesOn n st (next_round n st)
  next_round-GoesOn n st named ordered sound =
      let (answer, e) =
        pull_changes_since_total response_bytes (now n) db owner (natural st.cursor)
          (natural pull_batch_size) in
      subst (λ o. GoesOn n st (pull_round show device of_notes of_notebooks (answer_of o) st))
        (sym e) (round-GoesOn n st answer named ordered sound e)

  later-Reaches :
      (fuel : ℕ) (st st' : PullState) (result : Round)
      → next_round fuel st ≡ again st'
      → Reaches fuel st' result
      → Reaches (suc fuel) st result
  later-Reaches fuel st st' (again end) e reached = reached
  later-Reaches fuel st st' (done end) e reached = reached
  later-Reaches fuel st st' (failed end) e (m, last, visits, why) =
      (m, last, after_round fuel (suc m) st st' last e visits, why)

  go_on-Reaches :
      (fuel : ℕ) (st : PullState) (round result : Round)
      → next_round fuel st ≡ round
      → ((st' : PullState) → IsSound st' → loop fuel st' ≡ some result → Reaches fuel st' result)
      → GoesOn fuel st round
      → go_on show device of_notes of_notebooks repository_server fuel round ≡ some result
      → Reaches (suc fuel) st result
  go_on-Reaches fuel st (again st') result r then_on sound e =
      later-Reaches fuel st st' result r (then_on st' sound e)
  go_on-Reaches fuel st (done end) result r then_on reached e =
      let same : done end ≡ result = ground arith in subst (Reaches (suc fuel) st) same reached
  go_on-Reaches fuel st (failed end) result r then_on why e =
      let same : failed end ≡ result = ground arith in
      subst (Reaches (suc fuel) st) same (fuel, st, here (suc fuel) st, why)

  loop-Reaches :
      (fuel : ℕ) (st : PullState) (result : Round)
      → truthy owner ≡ true
      → IsOrdered db.next_revision db.changes
      → IsSound st
      → loop fuel st ≡ some result
      → Reaches fuel st result
  unfolding pull_loop
  loop-Reaches zero st result named ordered sound e = absurd (cc)
  loop-Reaches (suc fuel) st result named ordered sound e =
      go_on-Reaches fuel st (next_round fuel st) result refl
        (λ st'. loop-Reaches fuel st' result named ordered)
        (next_round-GoesOn fuel st named ordered sound)
        (sym (loop_step show device of_notes of_notebooks repository_server fuel st) ∙ e)

  -- For an owner with a name, against a store that stays the same, whose log is in order, and from a cursor
  -- that is a safe integer before it was reset, the pull loop ends. It ends with the cursor at the owner's newest revision, also stored as such, even
  -- where the cursor was past that revision, unless a round of this very run broke it off: the server
  -- refused the page that was asked for, or that page could not be stored in the store of that round. The
  -- check of the cursor stops it in no case.
  pub pull_loop-Reaches :
      (fuel : ℕ) (st : PullState)
      → truthy owner ≡ true
      → IsOrdered db.next_revision db.changes
      → st.cursor ≤ max_safe_integer
      → st.reset ≡ false
      → 2 * max_safe_integer + 1 < fuel
      → (result : Round) × (pull_loop show device of_notes of_notebooks repository_server fuel st
          ≡ some result)
        × Reaches fuel st result
  pull_loop-Reaches fuel st named ordered safe first enough =
      let (result, e, over) =
        pull_loop_ends show device of_notes of_notebooks repository_server fuel st enough in
      (
        result,
        e,
        loop-Reaches fuel st result named ordered (safe, λ reset. absurd (ground arith)) e,
      )
