-- ===== src/Tests/Sync.antt =====
-- A synchronisation: the lease of one tab, the requests of a push, and the loop over the pages of a pull.
use author.Common.{
  ℕ, ◌+◌, ◌*◌, ◌≡◌, refl, true, false, Option, none, some, List, [], ◌∷◌, Text, lit, text_eq,
  text_Eq, arith, max_safe_integer,
}
use author.ApiTypes.{PullResponse, PushRequest}
use author.Repository.Store.{Db, empty_db}
use author.Repository.Writes.{put_notes}
use author.Repository.Consistency.{IsConsistent}
use author.Repository.Consistency.Write.{put_notes-IsConsistent}
use author.Client.Lease.{
  SyncLease, try_acquire_sync_lease, assert_active_sync_lease, Tabs, set_granted, Reach, start,
  later, acquires,
}
use author.Client.Lease.Exclusive.{sync_lease_exclusive, assert_active_sync_lease_lem}
use author.Client.Pulling.{PullRequest, Workings, PullState, Round, pull_loop}
use author.Client.Pulling.Ends.{IsOver, pull_loop_ends}
use author.Client.Pulling.Reaches.{repository_server, Reaches, pull_loop-Reaches}
use author.Client.Rounds.{Saving, Progress, push_rounds}
use author.Client.Rounds.Contents.{HasContent, push_rounds-HasContent}
use author.ApiTypes.{PushResponse}
use author.Schema.{pending}
use author.Tests.Sample.{phone, me, sample_note}
use author.Tests.Sample.Empty.{empty_db-IsConsistent}
use author.Tests.Client.{open_crypto, session, local_db, mine}
use author.Common.Table.{get}

-- The tab `a` has the lease from time 7 on, in a store that held an old lease of `b`.
abbrev old_lease : Option SyncLease
old_lease = some (record { owner = lit "b"; expires_at = 5 })

abbrev before : Tabs
before = record { now = 7; lease = old_lease; granted = λ tab. none }

abbrev one_tab : Tabs
one_tab = record {
  now = 7;
  lease = (try_acquire_sync_lease (lit "a") 7 old_lease).0;
  granted = set_granted before.granted (lit "a") (some 60007);
}

acquired : (try_acquire_sync_lease (lit "a") 7 old_lease).1 ≡ true
unfolding try_acquire_sync_lease text_eq
acquired = refl

reached : Reach 7 old_lease one_tab
reached = later start (acquires before (lit "a") acquired)

running_a : one_tab.granted (lit "a") ≡ some 60007
unfolding text_eq
running_a = refl

sync_lease_exclusive_example : lit "a" ≡ lit "a"
sync_lease_exclusive_example =
    sync_lease_exclusive 7 old_lease one_tab (lit "a") (lit "a") 60007 60007 reached running_a
      (omega arith) running_a (omega arith)

assert_active_sync_lease_lem_example :
    assert_active_sync_lease (some (lit "b")) 7 one_tab.lease ≡ text_eq (lit "a") (lit "b")
assert_active_sync_lease_lem_example =
    assert_active_sync_lease_lem 7 old_lease one_tab (lit "a") (lit "b") 60007 reached running_a
      (omega arith)

abbrev workings : {T : Type 0} → Workings T
workings = record {
  crypto = open_crypto;
  session = λ t synced_at. session;
  interfere = λ s. s;
  interfere_saving = λ n s. s;
  interfere_references = λ rows. rows;
}

abbrev show : ℕ → Text
show n = n ∷ []

abbrev begin_pull : PullState
begin_pull = record { db = local_db; last_pulled_at = none; cursor = 9; pulled = 0; reset = false }

abbrev no_answer : ℕ → PullRequest → Option PullResponse
no_answer n request = none

pull_loop_ends_example :
    (result : Round) × (pull_loop show phone workings workings no_answer
        (2 * max_safe_integer + 2)
        begin_pull
      ≡ some result)
    × IsOver result
pull_loop_ends_example =
    pull_loop_ends show phone workings workings no_answer (2 * max_safe_integer + 2) begin_pull
      (omega arith)

abbrev stored : Db
stored = (put_notes me (lit "t") (sample_note "n1" "one" 1 ∷ []) empty_db).1

abbrev response_bytes : PullResponse → ℕ
response_bytes r = 1000

stored-IsConsistent : IsConsistent stored
stored-IsConsistent =
    put_notes-IsConsistent me (lit "t") (sample_note "n1" "one" 1 ∷ []) empty_db
      empty_db-IsConsistent

pull_loop-Reaches_example :
    (result : Round) × (pull_loop show phone workings workings
        (repository_server show phone workings workings response_bytes (λ n. lit "t") stored me)
        (2 * max_safe_integer + 2)
        begin_pull
      ≡ some result)
    × Reaches show phone workings workings response_bytes
        (λ n. lit "t")
        stored
        me
        (2 * max_safe_integer + 2)
        begin_pull
        result
pull_loop-Reaches_example =
    pull_loop-Reaches show phone workings workings response_bytes (λ n. lit "t") stored me
      (2 * max_safe_integer + 2) begin_pull refl stored-IsConsistent.ordered (omega arith) refl
      (omega arith)

-- The server accepts nothing, and the note is pushed as it is stored.
abbrev saving : Saving
saving = record {
  encrypt_conflict = λ c. c;
  now = lit "now";
  interfere_notes = λ left s. s;
  interfere_notebooks = λ left s. s;
  interfere_absorbing_note = λ s. s;
  interfere_absorbing_notebook = λ s. s;
  interfere_requesting = λ db. db;
  interfere_settling = λ db. db;
}

abbrev refusing : ℕ → PushRequest → Option PushResponse
refusing n request = some (record { server_time = lit "t"; accepted = []; conflicts = [] })

abbrev payloads : List PushRequest
payloads =
    record {
      device = phone;
      notes = record { entity = mine.entity; base_version = 1 } ∷ [];
      notebooks = [];
    }
    ∷ []

abbrev begin_push : Progress
begin_push = record { db = local_db; pushed = 0; conflicts = 0; running = true }

has_mine : HasContent mine.entity (lit "n1") local_db.notes
unfolding get text_eq
has_mine = (mine, refl, (2, pending, refl))

push_rounds-HasContent_example :
    HasContent mine.entity
      (lit "n1")
      (push_rounds phone saving refusing payloads begin_push).db.notes
push_rounds-HasContent_example =
    push_rounds-HasContent mine.entity (lit "n1") phone saving (λ left s h. h) (λ s h. h)
      (λ db h. h) (λ db h. h) refusing payloads begin_push has_mine
