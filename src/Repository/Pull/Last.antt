-- ===== src/Repository/Pull/Last.antt =====
-- The last page of `pullChangesSince`: the cursor that it gives, and the newest revision of the owner.
use mathlib.Core.List.{reverse_aux}
use author.Common.{
  ℕ, zero, suc, ◌+◌, ◌≤◌, ◌<◌, ◌≡◌, refl, ap, sym, ◌∙◌, Bool, true, false, some, List, [], ◌∷◌,
  Text, text_eq, truthy, keep_if, take, length, get_last?, head?, ltb, ◌==◌, arith, Option-cases,
  Bool-cases, inl, inr, max_safe_integer, reverse, Number, natural, safe_natural, or_else,
}
use author.ApiTypes.{PullResponse}
use author.Repository.Store.{Change, Db}
use author.Repository.Devices.{ok}
use author.Repository.Log.{current_revision, as_revision, max_revision, IsOrdered}
use author.Repository.Pull.{
  in_range, changes_between, pull_page, pull_loop, pull_limit, pull_changes_since,
}
use author.Repository.Pull.Cursor.{
  page_cursor, page_empty, page_bounds, pull_loop_page, as_revision_of_le,
}

module _ {A : Type 0} where
  get_last?-reverse_aux :
      (xs : List A) (y : A) (ys : List A) → get_last? (reverse_aux xs (y ∷ ys)) ≡ get_last? (y ∷ ys)
  get_last?-reverse_aux [] y ys = refl
  get_last?-reverse_aux (x ∷ xs) y ys = get_last?-reverse_aux xs x (y ∷ ys)

  get_last?-reverse : (xs : List A) → get_last? (reverse xs) ≡ head? xs
  get_last?-reverse [] = refl
  get_last?-reverse (x ∷ xs) = get_last?-reverse_aux xs x []

  take_all : (n : ℕ) (xs : List A) → length (take (suc n) xs) ≤ n → take (suc n) xs ≡ xs
  take_all n [] h = refl
  take_all zero (x ∷ xs) h = absurd (omega arith)
  take_all (suc n) (x ∷ xs) h = ap {B = List A} (λ r. x ∷ r) (take_all n xs (omega arith))

abbrev is_owned : Text → Change → Bool
is_owned owner c = text_eq c.key.owner owner

max_revision-keep_if :
    (owner : Text) (b : ℕ) (cs : List Change)
    → IsOrdered b cs
    → max_revision (keep_if (is_owned owner) cs) ≤ b
max_revision-keep_if owner b [] h = omega arith
max_revision-keep_if owner b (c ∷ cs) (below, h) =
    ground (arith, max_revision-keep_if owner c.revision cs h)

-- The first change of the range, in the order of the log, is the owner's newest.
head_in_range :
    (owner : Text) (since m b : ℕ) (cs : List Change)
    → IsOrdered b cs
    → max_revision (keep_if (is_owned owner) cs) ≡ m
    → since < m
    → (d : Change) × (head? (keep_if (in_range owner since m) cs) ≡ some d) × (d.revision ≡ m)
head_in_range owner since m b [] h newest new = absurd (omega arith)
head_in_range owner since m b (c ∷ cs) (below, h) newest new =
    elim (Bool-cases (is_owned owner c)) [
      | inl own ↦
          let least = max_revision-keep_if owner c.revision cs h in
          let top : c.revision ≡ m = ground arith in
          let hit : in_range owner since m c ≡ true = ground arith in
          (c, rw (keep_if, hit) refl, top)
      | inr other ↦
          let miss : in_range owner since m c ≡ false = rw other refl in
          let (d, e, same) = head_in_range owner since m c.revision cs h (ground arith) new in
          (d, rw (keep_if, miss) e, same)
    ]

module _ (now : Text) (db : Db) (owner : Text) (since limit : ℕ) where
  abbrev current : ℕ
  current = current_revision db owner

  abbrev all_rows : List Change
  all_rows = changes_between db owner since current

  abbrev rows : List Change
  rows = take (limit + 1) all_rows

  current-newest :
      truthy owner ≡ true
      → 0 < current
      → max_revision (keep_if (is_owned owner) db.changes) ≡ current
  unfolding current_revision as_revision
  current-newest named h = ground arith

  last_change :
      (c : Change)
      → truthy owner ≡ true
      → IsOrdered db.next_revision db.changes
      → since < current
      → get_last? all_rows ≡ some c
      → c.revision ≡ current
  unfolding changes_between
  last_change c named ordered new e =
      let (d, first, top) =
        head_in_range owner since current db.next_revision db.changes ordered
          (current-newest named (omega arith)) new in
      let same : some d ≡ some c =
        sym first
        ∙ sym (get_last?-reverse (keep_if (in_range owner since current) db.changes))
        ∙ e in
      ground arith

  all_listed : ltb limit (length rows) ≡ false → rows ≡ all_rows
  all_listed short =
      let e : limit + 1 ≡ suc limit = omega arith in
      ap (λ n. take n all_rows) e
      ∙ take_all limit all_rows (let k = ap (λ n. length (take n all_rows)) e in ground arith)

  page_of_changes :
      truthy owner ≡ true
      → IsOrdered db.next_revision db.changes
      → since < current
      → (pull_page now db owner since limit).0.has_more ≡ false
      → (pull_page now db owner since limit).0.server_revision ≡ current
  unfolding pull_page
  page_of_changes named ordered new last = elim (Bool-cases (ltb limit (length rows))) [
    | inl more ↦ elim (Option-cases (get_last? (take limit rows))) [
      | inl e ↦ rw (more, e, pull_page) refl
      | inr (c, e) ↦ absurd (let both = rw (more, e, pull_page) at last in ground arith)
    ]
    | inr none_left ↦ elim (Option-cases (get_last? rows)) [
      | inl e ↦ rw (none_left, e, pull_page) refl
      | inr (c, e) ↦
          let top =
            last_change c named ordered new (ap get_last? (sym (all_listed none_left)) ∙ e) in
          rw (none_left, e, pull_page)
            (ap as_revision top ∙ as_revision_of_le now db owner since limit current (omega arith))
    ]
  ]

  -- A page that no other follows ends at the owner's newest revision, for an owner with a name.
  pub pull_page_last :
      truthy owner ≡ true
      → IsOrdered db.next_revision db.changes
      → (pull_page now db owner since limit).0.has_more ≡ false
      → (pull_page now db owner since limit).0.server_revision ≡ current
  pull_page_last named ordered last =
      elim (Bool-cases ((pull_page now db owner since limit).1 == 0)) [
        | inl nothing ↦ (page_empty now db owner since limit (ground arith)).0
        | inr some_left ↦
            let (past, within) = page_cursor now db owner since limit (ground arith) in
            page_of_changes named ordered (omega arith) last
      ]

module _ (response_bytes : PullResponse → ℕ) (now : Text) (db : Db) (owner : Text) (since : ℕ)
    (limit : Number) (r : PullResponse) (safe : since ≤ max_safe_integer)
    (answered : pull_changes_since response_bytes now db owner (natural since) limit
      ≡ some (ok r)) where
  answer_is_page : (l : ℕ) × (r ≡ (pull_page now db owner since l).0)
  unfolding pull_changes_since safe_natural
  answer_is_page =
      let known : safe_natural (natural since) ≡ some since = ground arith in
      let (l, _, same) =
        pull_loop_page response_bytes now db owner since (suc (pull_limit limit)) (pull_limit limit)
          r
          (ap
              (λ o.
                pull_loop response_bytes now db owner (or_else o 0) (suc (pull_limit limit))
                  (pull_limit limit))
              (sym known)
            ∙ answered) in
      (l, same)

  -- The answer to a cursor past the owner's newest revision says what that revision is.
  pub answer_behind :
      current_revision db owner < since → r.server_revision ≡ current_revision db owner
  answer_behind past =
      let (l, same) = answer_is_page in
      rw same (elim (Bool-cases ((pull_page now db owner since l).1 == 0)) [
        | inl nothing ↦ (page_empty now db owner since l (ground arith)).0
        | inr some_left ↦
            let (after, within) = page_cursor now db owner since l (ground arith) in
            absurd (omega arith)
      ])

  pub answer_le : since ≤ current_revision db owner → r.server_revision ≤ current_revision db owner
  answer_le h = let (l, same) = answer_is_page in rw same (page_bounds now db owner since l h).1

  pub answer_last :
      truthy owner ≡ true
      → IsOrdered db.next_revision db.changes
      → r.has_more ≡ false
      → r.server_revision ≡ current_revision db owner
  answer_last named ordered last =
      let (l, same) = answer_is_page in
      rw same (
        pull_page_last now db owner since l named ordered
          (ap (λ (q : PullResponse). q.has_more) (sym same) ∙ last))
