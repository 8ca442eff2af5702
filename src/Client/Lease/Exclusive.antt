-- ===== src/Client/Lease/Exclusive.antt =====
-- The tabs that the lease lets synchronise.
use author.Common.{
  ℕ, ◌+◌, ◌≤◌, ◌<◌, ◌≡◌, refl, ap, sym, ◌∙◌, true, false, not, ◌&&◌, Option, none, some, Text,
  text_eq, text_eq_iff, ltb, arith, Bool-cases, inl, inr, subst,
}
use author.Client.Lease.{
  SyncLease, sync_lock_ttl_ms, lease_until, try_acquire_sync_lease, refresh_sync_lease,
  release_sync_lease, assert_active_sync_lease, Tabs, set_granted, refreshed_until, Step,
  time_passes, clock_goes_back, clears_workspace, unexpired, acquires, is_refused, refreshes,
  releases, Reach, start, later,
}

-- A tab whose time has not run out has the lease in the store, for at least as long.
abbrev Holds : ℕ → Option SyncLease → Text → ℕ → Type 0
Holds now lease tab until =
    (l : SyncLease) × (lease ≡ some l) × (l.owner ≡ tab) × (until ≤ l.expires_at)

-- Every tab whose time has not run out has the lease.
abbrev AllHold : ℕ → Option SyncLease → (Text → Option ℕ) → Type 0
AllHold now lease running =
    (tab : Text) (until : ℕ) → running tab ≡ some until → now < until → Holds now lease tab until

Holds-fresh :
    (owner tab : Text) (now until : ℕ)
    → text_eq owner tab ≡ true
    → some (now + sync_lock_ttl_ms) ≡ some until
    → Holds now (some (lease_until owner now)) tab until
Holds-fresh owner tab now until same e =
    (lease_until owner now, refl, (text_eq_iff owner tab).0 same, ground arith)

Holds-none : (now until : ℕ) (tab : Text) → ¬ Holds now none tab until
Holds-none now until tab (l, e, same, long) = absurd (cc)

Holds-some :
    (now until : ℕ) (tab : Text) (current : SyncLease)
    → Holds now (some current) tab until
    → (current.owner ≡ tab) × (until ≤ current.expires_at)
Holds-some now until tab current (l, e, same, long) =
    let one : current ≡ l = ground arith in
    (ap (λ (k : SyncLease). k.owner) one ∙ same, rw one long)

Holds-current :
    (now until : ℕ) (tab : Text) (current : SyncLease)
    → current.owner ≡ tab
    → until ≤ current.expires_at
    → Holds now (some current) tab until
Holds-current now until tab current same long = (current, refl, same, long)

other_owner :
    (owner tab : Text) (current : SyncLease)
    → current.owner ≡ tab
    → text_eq owner tab ≡ false
    → text_eq current.owner owner ≡ false
other_owner owner tab current own other = elim (Bool-cases (text_eq current.owner owner)) [
  | inl same ↦
      let e : owner ≡ tab = sym ((text_eq_iff current.owner owner).0 same) ∙ own in
      absurd (ground (arith, text_eq_iff owner tab))
  | inr differs ↦ differs
]

module _ (owner : Text) (now : ℕ) (running : Text → Option ℕ) where
  acquire-AllHold :
      (lease : Option SyncLease)
      → (try_acquire_sync_lease owner now lease).1 ≡ true
      → AllHold now lease running
      → AllHold now
          (try_acquire_sync_lease owner now lease).0
          (set_granted running owner (some (now + sync_lock_ttl_ms)))
  unfolding try_acquire_sync_lease
  acquire-AllHold none e held tab until r before = elim (Bool-cases (text_eq owner tab)) [
    | inl same ↦ Holds-fresh owner tab now until same (rw same at r)
    | inr other ↦ absurd (Holds-none now until tab (held tab until (rw other at r) before))
  ]
  acquire-AllHold (some current) e held tab until r before = elim (Bool-cases (text_eq owner tab)) [
    | inl same ↦
        elim (Bool-cases (not (text_eq current.owner owner) && ltb now current.expires_at)) [
          | inl refused ↦ absurd (ground arith)
          | inr free ↦ rw free (Holds-fresh owner tab now until same (rw same at r))
        ]
    | inr other ↦
        let (own, long) =
          Holds-some now until tab current (held tab until (rw other at r) before) in
        absurd (ground (arith, text_eq_iff current.owner owner, text_eq_iff owner tab))
  ]

  refuse-AllHold :
      (lease : Option SyncLease)
      → (try_acquire_sync_lease owner now lease).1 ≡ false
      → AllHold now lease running
      → AllHold now (try_acquire_sync_lease owner now lease).0 running
  unfolding try_acquire_sync_lease
  refuse-AllHold none e held tab until r before = absurd (ground arith)
  refuse-AllHold (some current) e held tab until r before =
      elim (Bool-cases (not (text_eq current.owner owner) && ltb now current.expires_at)) [
        | inl refused ↦ rw refused (held tab until r before)
        | inr free ↦ absurd (ground arith)
      ]

  refresh-AllHold :
      (lease : Option SyncLease)
      → AllHold now lease running
      → AllHold now
          (refresh_sync_lease owner now lease)
          (set_granted running owner (refreshed_until owner now lease (running owner)))
  unfolding refresh_sync_lease
  refresh-AllHold none held tab until r before = elim (Bool-cases (text_eq owner tab)) [
    | inl same ↦
        let here : running tab ≡ some until =
          ap running (sym ((text_eq_iff owner tab).0 same)) ∙ (rw same at r) in
        absurd (Holds-none now until tab (held tab until here before))
    | inr other ↦ absurd (Holds-none now until tab (held tab until (rw other at r) before))
  ]
  refresh-AllHold (some current) held tab until r before = elim (Bool-cases (text_eq owner tab)) [
    | inl same ↦ elim (Bool-cases (text_eq current.owner owner)) [
      | inl own ↦ rw own (Holds-fresh owner tab now until same (rw (same, own) at r))
      | inr lost ↦
          let here : running tab ≡ some until =
            ap running (sym ((text_eq_iff owner tab).0 same)) ∙ (rw (same, lost) at r) in
          rw lost (held tab until here before)
    ]
    | inr other ↦
        let (own, long) =
          Holds-some now until tab current (held tab until (rw other at r) before) in
        rw (other_owner owner tab current own other) (Holds-current now until tab current own long)
  ]

  release-AllHold :
      (lease : Option SyncLease)
      → AllHold now lease running
      → AllHold now (release_sync_lease owner lease) (set_granted running owner none)
  unfolding release_sync_lease
  release-AllHold none held tab until r before = elim (Bool-cases (text_eq owner tab)) [
    | inl same ↦ absurd (let r' = rw same at r in ground arith)
    | inr other ↦ absurd (Holds-none now until tab (held tab until (rw other at r) before))
  ]
  release-AllHold (some current) held tab until r before = elim (Bool-cases (text_eq owner tab)) [
    | inl same ↦ absurd (let r' = rw same at r in ground arith)
    | inr other ↦
        let (own, long) =
          Holds-some now until tab current (held tab until (rw other at r) before) in
        rw (other_owner owner tab current own other) (Holds-current now until tab current own long)
  ]

unexpired-some :
    (now until : ℕ) (o : Option ℕ) → unexpired now o ≡ some until → (o ≡ some until) × (now < until)
unexpired-some now until none e = absurd (cc)
unexpired-some now until (some time) e = elim (Bool-cases (ltb now time)) [
  | inl before ↦
      let same : time ≡ until = ground (arith) in
      (ap (λ k. some k) same, rw (← same) (ground arith))
  | inr after ↦ absurd (ground arith)
]

Step-AllHold :
    (w w' : Tabs) → Step w w' → AllHold w.now w.lease w.granted → AllHold w'.now w'.lease w'.granted
Step-AllHold _ _ (time_passes w time h) held = λ tab until e before. held tab until e (omega arith)
Step-AllHold _ _ (clock_goes_back w earlier) held = λ tab until e before.
    let (e', before') = unexpired-some w.now until (w.granted tab) e in held tab until e' before'
Step-AllHold _ _ (clears_workspace w) held = λ tab until e before. absurd (cc)
Step-AllHold _ _ (acquires w owner e) held = acquire-AllHold owner w.now w.granted w.lease e held
Step-AllHold _ _ (is_refused w owner e) held = refuse-AllHold owner w.now w.granted w.lease e held
Step-AllHold _ _ (refreshes w owner) held = refresh-AllHold owner w.now w.granted w.lease held
Step-AllHold _ _ (releases w owner) held = release-AllHold owner w.now w.granted w.lease held

Reach-AllHold :
    (now : ℕ) (lease : Option SyncLease) (w : Tabs)
    → Reach now lease w
    → AllHold w.now w.lease w.granted
Reach-AllHold now lease _ start = λ tab until r before. absurd (cc)
Reach-AllHold now lease _ (later {w} {w'} reach step) =
    Step-AllHold w w' step (Reach-AllHold now lease w reach)

-- Whatever the tabs of a browser do, in whatever order, also where one clears the workspace or the clock is
-- set back: take two tabs that are synchronising and were given the lease after the workspace was last
-- cleared. If their leases have not run out, now or when the clock was set back, each is the other.
pub sync_lease_exclusive :
    (now : ℕ) (lease : Option SyncLease) (w : Tabs) (tab other : Text) (until other_until : ℕ)
    → Reach now lease w
    → w.granted tab ≡ some until
    → w.now < until
    → w.granted other ≡ some other_until
    → w.now < other_until
    → tab ≡ other
sync_lease_exclusive now lease w tab other until other_until reach e before e' before' =
    let held = Reach-AllHold now lease w reach in
    let (l, there, own, long) = held tab until e before in
    let (own', _) =
      Holds-some w.now other_until other l
        (subst (λ k. Holds w.now k other other_until) there (held other other_until e' before')) in
    sym own ∙ own'

-- Take a tab that is synchronising and was given the lease after the workspace was last cleared, and whose
-- lease has not run out, now or when the clock was set back. The check that is made before and after each
-- request passes for that tab, and for no other, whatever the tabs did before.
pub assert_active_sync_lease_lem :
    (now : ℕ) (lease : Option SyncLease) (w : Tabs) (tab other : Text) (until : ℕ)
    → Reach now lease w
    → w.granted tab ≡ some until
    → w.now < until
    → assert_active_sync_lease (some other) w.now w.lease ≡ text_eq tab other
unfolding assert_active_sync_lease
assert_active_sync_lease_lem now lease w tab other until reach e before =
    let (l, there, own, long) = Reach-AllHold now lease w reach tab until e before in
    rw (there, sym own) (ground arith)
