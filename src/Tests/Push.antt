-- ===== src/Tests/Push.antt =====
-- Pushes of the sample data.
use author.Common.{◌&&◌, ◌+◌, ◌≡◌, refl, [], ◌∷◌, length, false, map, text_eq, text_Eq, lit}
use author.Tests.Sample.{
  first_push, second_push, run_push, run_push-ok, first_store, response_of, store_of, me,
  sample_host,
}
use author.Common.Dedup.{contains}
use author.Repository.Push.Accounting.{accepted_ids}
use author.Common.Table.{get}
use author.ApiTypes.{AcceptedChange, PushResponse, note_kind, notebook_kind}
use author.Repository.Store.{Db, empty_db, key_Eq}
use author.Repository.Queries.{row_key}
use author.Repository.Devices.{ok}
use author.Repository.Verdicts.{default_options}
use author.Repository.Consistency.{IsConsistent}
use author.Tests.Sample.Empty.{empty_db-IsConsistent}
use author.Repository.Push.{push_changes}
use author.Repository.Push.Consistency.{push_changes-IsConsistent}
use author.Repository.Push.Isolation.{
  push_changes_answers_all, push_changes_only_accepted_notes, push_changes_only_accepted_notebooks,
}

first_push_accepts_all :
    map (λ (a : AcceptedChange). a.id) (response_of (run_push first_push empty_db)).accepted
    ≡ lit "nb" ∷ lit "n1" ∷ lit "n2" ∷ []
unfolding run_push
first_push_accepts_all = refl

abbrev second_response : PushResponse
second_response = response_of (run_push second_push first_store)

abbrev second_store : Db
second_store = store_of (run_push second_push first_store)

second_push_conflict : length second_response.conflicts ≡ 1
unfolding run_push first_store
second_push_conflict = refl

first_push_succeeds :
    push_changes sample_host default_options me (lit "2026-01-02") first_push empty_db
    ≡ ok (response_of (run_push first_push empty_db), store_of (run_push first_push empty_db))
unfolding run_push
first_push_succeeds = run_push-ok first_push empty_db refl

second_push_succeeds :
    push_changes sample_host default_options me (lit "2026-01-02") second_push first_store
    ≡ ok (second_response, second_store)
unfolding run_push first_store
second_push_succeeds = run_push-ok second_push first_store refl

n2_not_accepted :
    text_eq me me && contains (accepted_ids note_kind second_response.accepted) (lit "n2") ≡ false
unfolding run_push first_store contains text_eq
n2_not_accepted = refl

nb_not_accepted :
    text_eq me me && contains (accepted_ids notebook_kind second_response.accepted) (lit "nb")
    ≡ false
unfolding run_push first_store contains text_eq
nb_not_accepted = refl

push_changes_answers_all_example :
    length second_response.accepted + length second_response.conflicts ≡ 2
push_changes_answers_all_example =
    push_changes_answers_all sample_host default_options me (lit "2026-01-02") second_push
      first_store second_store second_response second_push_succeeds

push_changes_only_accepted_notes_example :
    get second_store.notes (row_key me (lit "n2")) ≡ get first_store.notes (row_key me (lit "n2"))
push_changes_only_accepted_notes_example =
    push_changes_only_accepted_notes sample_host default_options me (lit "2026-01-02") second_push
      first_store second_store second_response me (lit "n2") second_push_succeeds n2_not_accepted

push_changes_only_accepted_notebooks_example :
    get second_store.notebooks (row_key me (lit "nb"))
    ≡ get first_store.notebooks (row_key me (lit "nb"))
push_changes_only_accepted_notebooks_example =
    push_changes_only_accepted_notebooks sample_host default_options me (lit "2026-01-02")
      second_push first_store second_store second_response me (lit "nb") second_push_succeeds
      nb_not_accepted

push_changes-IsConsistent_example : IsConsistent (store_of (run_push first_push empty_db))
push_changes-IsConsistent_example =
    push_changes-IsConsistent sample_host default_options me (lit "2026-01-02") first_push empty_db
      (store_of (run_push first_push empty_db)) (response_of (run_push first_push empty_db))
      empty_db-IsConsistent first_push_succeeds
