-- ===== src/Common/Numbers.antt =====
-- JavaScript numbers, as far as the program tells them apart: integers, and all else.
use Prim.Native.Nat.{ℕ, ◌-◌, ◌^◌}
use mathlib.Core.Option.{Option, none, some}
use author.Common.Tests.{leb, if◌then◌else◌}

pub data Number : Type 0 where
  natural : ℕ → Number
  -- `negative n` is -(n + 1)
  negative : ℕ → Number
  -- a fraction, an infinity or NaN
  non_integer : Number

abbrev pub max_safe_integer : ℕ
max_safe_integer = 2 ^ 53 - 1

-- The number, if `Number.isSafeInteger(x) && x >= 0`.
unfoldable pub safe_natural : Number → Option ℕ
safe_natural (natural n) = if leb n max_safe_integer then some n else none
safe_natural (negative n) = none
safe_natural non_integer = none
