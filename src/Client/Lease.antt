-- ===== src/Client/Lease.antt =====
-- The lease of sync.ts that keeps the tabs of a browser from synchronising at once where the browser has
-- no locks of its own. The store holds the lease as `parseSyncLease` gives it: `none` for a missing or a
-- malformed value. Each function is one transaction, at a time that `Date.now()` gives it.
pub mod Exclusive
use author.Common.{
  ℕ, ◌+◌, ◌≤◌, ◌≡◌, Bool, true, false, not, ◌&&◌, ◌||◌, Option, none, some, Text, text_eq, ltb, leb,
  if◌then◌else◌,
}

abbrev pub sync_lock_ttl_ms : ℕ
sync_lock_ttl_ms = 60000

pub record SyncLease : Type 0 where
  pub owner : Text
  pub expires_at : ℕ

abbrev pub lease_until : Text → ℕ → SyncLease
lease_until owner now = record { owner = owner; expires_at = now + sync_lock_ttl_ms }

-- The lease, and whether it is now the caller's.
unfoldable pub try_acquire_sync_lease : Text → ℕ → Option SyncLease → Option SyncLease × Bool
try_acquire_sync_lease owner now none = (some (lease_until owner now), true)
try_acquire_sync_lease owner now (some current) =
    if not (text_eq current.owner owner) && ltb now current.expires_at
    then (some current, false)
    else (some (lease_until owner now), true)

unfoldable pub refresh_sync_lease : Text → ℕ → Option SyncLease → Option SyncLease
refresh_sync_lease owner now none = none
refresh_sync_lease owner now (some current) =
    if text_eq current.owner owner then some (lease_until owner now) else some current

unfoldable pub release_sync_lease : Text → Option SyncLease → Option SyncLease
release_sync_lease owner none = none
release_sync_lease owner (some current) = if text_eq current.owner owner then none else some current

-- `false` is the error that another tab has taken the lease. The argument is `activeFallbackLeaseOwner`.
unfoldable pub assert_active_sync_lease : Option Text → ℕ → Option SyncLease → Bool
assert_active_sync_lease none now lease = true
assert_active_sync_lease (some owner) now none = false
assert_active_sync_lease (some owner) now (some current) =
    text_eq current.owner owner && ltb now current.expires_at

-- The tabs of a browser: the time, the lease in the store they share, and the time until which a tab was
-- given the lease. A tab has such a time from `tryAcquireSyncLease` to `releaseSyncLease`, but not after the
-- workspace was cleared, nor where its lease had run out when the clock was set back.
pub record Tabs : Type 0 where
  pub now : ℕ
  pub lease : Option SyncLease
  pub granted : Text → Option ℕ

abbrev pub set_granted : (Text → Option ℕ) → Text → Option ℕ → Text → Option ℕ
set_granted granted owner until tab = if text_eq owner tab then until else granted tab

-- The grants that have not run out.
abbrev pub unexpired : ℕ → Option ℕ → Option ℕ
unexpired now none = none
unexpired now (some until) = if ltb now until then some until else none

-- The lease of a tab runs longer where the store still has it as that tab's.
abbrev pub refreshed_until : Text → ℕ → Option SyncLease → Option ℕ → Option ℕ
refreshed_until owner now none until = until
refreshed_until owner now (some current) until =
    if text_eq current.owner owner then some (now + sync_lock_ttl_ms) else until

-- Besides the functions of the lease: `Date.now()` moves on or is set back, and `clearLocalWorkspace` of
-- any tab empties `syncMeta`. Any tab may refresh or release at any time.
pub data Step : Tabs → Tabs → Type 0 where
  time_passes : (w : Tabs) (later : ℕ) → w.now ≤ later → Step w (record w { now = later })
  clock_goes_back :
      (w : Tabs) (earlier : ℕ)
      → Step w (record w { now = earlier; granted = λ tab. unexpired w.now (w.granted tab) })
  clears_workspace : (w : Tabs) → Step w (record w { lease = none; granted = λ tab. none })
  acquires :
      (w : Tabs) (owner : Text)
      → (try_acquire_sync_lease owner w.now w.lease).1 ≡ true
      → Step w (record w {
        lease = (try_acquire_sync_lease owner w.now w.lease).0;
        granted = set_granted w.granted owner (some (w.now + sync_lock_ttl_ms));
      })
  is_refused :
      (w : Tabs) (owner : Text)
      → (try_acquire_sync_lease owner w.now w.lease).1 ≡ false
      → Step w (record w { lease = (try_acquire_sync_lease owner w.now w.lease).0 })
  refreshes :
      (w : Tabs) (owner : Text)
      → Step w (record w {
        lease = refresh_sync_lease owner w.now w.lease;
        granted =
            set_granted w.granted owner (refreshed_until owner w.now w.lease (w.granted owner));
      })
  releases :
      (w : Tabs) (owner : Text)
      → Step w (record w {
        lease = release_sync_lease owner w.lease;
        granted = set_granted w.granted owner none;
      })

-- What the tabs reach from a store with any lease in it, none of them synchronising.
pub data Reach (now : ℕ) (lease : Option SyncLease) : Tabs → Type 0 where
  start : Reach now lease (record { now = now; lease = lease; granted = λ tab. none })
  later : {w w' : Tabs} → Reach now lease w → Step w w' → Reach now lease w'
