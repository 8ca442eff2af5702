-- ===== src/SyncSpec/Choice.antt =====
-- `chooseConflictVersion`, and the order of versions that it goes by.
use author.Common.{ℕ, ◌≤◌, ◌<◌, ◌≡◌, refl, ◌⊎◌, inl, inr, Option, none, some, Text, arith, Ordering}
use author.ApiTypes.{ConflictVersion, SyncConflict}
use author.SyncSpec.{keep_newer, keep_older, compare_dates, choose_conflict_version}

-- Valid dates are later than invalid ones, and equal or invalid dates leave it to the versions.
abbrev pub IsOlderDate : Option ℕ → Option ℕ → ℕ → ℕ → Type 0
IsOlderDate (some s) (some t) v w = (s < t) ⊎ ((s ≡ t) × (v ≤ w))
IsOlderDate none (some t) v w = Unit
IsOlderDate (some s) none v w = ⊥
IsOlderDate none none v w = v ≤ w

IsOlderDate-refl : (o : Option ℕ) (v : ℕ) → IsOlderDate o o v v
IsOlderDate-refl none v = omega arith
IsOlderDate-refl (some t) v = omega arith

IsOlderDate-of_eq :
    {o p : Option ℕ} {v w : ℕ} → (o ≡ p) × (v ≡ w) → IsOlderDate o p v w × IsOlderDate p o w v
IsOlderDate-of_eq {p} {w} (e, f) = rw (e, f) (IsOlderDate-refl p w, IsOlderDate-refl p w)

compare_dates_lt :
    (o p : Option ℕ) (v w : ℕ) → compare_dates o p v w ≡ Ordering.lt → IsOlderDate o p v w
unfolding compare_dates
compare_dates_lt (some s) (some t) v w h = ground arith
compare_dates_lt (some s) none v w h = cc
compare_dates_lt none (some t) v w h = tt
compare_dates_lt none none v w h = ground arith

compare_dates_gt :
    (o p : Option ℕ) (v w : ℕ) → compare_dates o p v w ≡ Ordering.gt → IsOlderDate p o w v
unfolding compare_dates
compare_dates_gt (some s) (some t) v w h = ground arith
compare_dates_gt (some s) none v w h = tt
compare_dates_gt none (some t) v w h = cc
compare_dates_gt none none v w h = ground arith

compare_dates_eq :
    (o p : Option ℕ) (v w : ℕ) → compare_dates o p v w ≡ Ordering.eq → (o ≡ p) × (v ≡ w)
unfolding compare_dates
compare_dates_eq (some s) (some t) v w h = ground arith
compare_dates_eq (some s) none v w h = absurd (cc)
compare_dates_eq none (some t) v w h = absurd (cc)
compare_dates_eq none none v w h = ground arith

Ordering-cases : (o : Ordering) → (o ≡ Ordering.lt) ⊎ (o ≡ Ordering.eq) ⊎ (o ≡ Ordering.gt)
Ordering-cases Ordering.lt = inl refl
Ordering-cases Ordering.eq = inr (inl refl)
Ordering-cases Ordering.gt = inr (inr refl)

module _ (parse_date : Text → Option ℕ) {T : Type 0} where
  abbrev pub IsNotNewer : ConflictVersion T → ConflictVersion T → Type 0
  IsNotNewer a b =
      IsOlderDate (parse_date a.updated_at) (parse_date b.updated_at) a.version b.version

  -- Whatever the dates are, valid or not: the version kept by "newer" is not older than either side,
  -- and the one kept by "older" is not newer than either side.
  pub choose_conflict_version_extremal :
      (c : SyncConflict T)
      → IsNotNewer c.local_version (choose_conflict_version parse_date c keep_newer)
        × IsNotNewer c.remote_version (choose_conflict_version parse_date c keep_newer)
        × IsNotNewer (choose_conflict_version parse_date c keep_older) c.local_version
        × IsNotNewer (choose_conflict_version parse_date c keep_older) c.remote_version
  unfolding choose_conflict_version
  choose_conflict_version_extremal c =
      let o = parse_date c.local_version.updated_at in
      let p = parse_date c.remote_version.updated_at in
      let v = c.local_version.version in
      let w = c.remote_version.version in
      elim (Ordering-cases (compare_dates o p v w)) [
        | inl h ↦
            let older = compare_dates_lt o p v w h in
            rw (h, choose_conflict_version)
              (older, IsOlderDate-refl p w, IsOlderDate-refl o v, older)
        | inr (inl h) ↦
            let same = IsOlderDate-of_eq (compare_dates_eq o p v w h) in
            rw (h, choose_conflict_version)
              (IsOlderDate-refl o v, same.1, IsOlderDate-refl o v, same.0)
        | inr (inr h) ↦
            let older = compare_dates_gt o p v w h in
            rw (h, choose_conflict_version)
              (IsOlderDate-refl o v, older, older, IsOlderDate-refl p w)
      ]
