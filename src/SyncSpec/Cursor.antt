-- ===== src/SyncSpec/Cursor.antt =====
-- `safeRevisionCursor` and `retentionCutoff` of packages/sync-spec/src/index.ts. The error messages are
-- constructors. A date is its milliseconds since the earliest date that JavaScript has.
use author.Common.{
  ℕ, ◌-◌, ◌*◌, ◌≤◌, ◌<◌, ◌≡◌, Bool, true, ◌&&◌, ◌||◌, Option, none, some, Text, Number, natural,
  safe_natural, max_safe_integer, ltb, leb, ◌==◌, if◌then◌else◌, arith,
}

pub data Cursor : Type 0 where
  moved_to : ℕ → Cursor
  invalid_previous invalid_server did_not_advance : Cursor

abbrev pub advance : ℕ → ℕ → Bool → Cursor
advance server previous has_more =
    if ltb server previous || (has_more && server == previous)
    then did_not_advance
    else moved_to server

unfoldable pub safe_revision_cursor : Number → Number → Bool → Cursor
safe_revision_cursor server previous has_more = elim (safe_natural previous) [
  | none ↦ invalid_previous
  | some p ↦ elim (safe_natural server) [ none ↦ invalid_server | some s ↦ advance s p has_more ]
]

-- The cursor that is returned is the server's revision, a safe integer, at least the previous one,
-- and greater than it where more pages follow.
pub safe_revision_cursor_progress :
    (server previous : Number) (has_more : Bool) (n : ℕ)
    → safe_revision_cursor server previous has_more ≡ moved_to n
    → (p : ℕ) × (server ≡ natural n)
      × (previous ≡ natural p)
      × (p ≤ n)
      × (n ≤ max_safe_integer)
      × (has_more ≡ true → p < n)
unfolding safe_revision_cursor safe_natural
safe_revision_cursor_progress server (natural p) has_more n h =
    (p, ground arith, ground arith, ground arith, ground arith, ground arith)
safe_revision_cursor_progress server previous has_more n h = absurd (ground arith)

-- `none` where the cut-off is before the earliest date: `toISOString` throws on it.
unfoldable pub retention_cutoff : (ℕ → Text) → ℕ → ℕ → Option Text
retention_cutoff to_iso now days =
    if leb (days * 86400000) now then some (to_iso (now - days * 86400000)) else none
