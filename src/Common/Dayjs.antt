-- ===== src/Common/Dayjs.antt =====
-- What the source uses of dayjs, the library of dates: a parameter of the model.
use Prim.Native.Nat.{ℕ}
use Prim.Native.String.{String}
use mathlib.Core.Bool.{Bool}
use mathlib.Core.Option.{Option}

pub record Dayjs : Type 1 where
  pub Instant : Type 0
  -- `dayjs(text)`, `none` where it is not valid
  pub read : String → Option Instant
  -- `toISOString()` and `format(pattern)`
  pub to_iso : Instant → String
  pub format : String → Instant → String
  -- `isSame(other)`, `isSame(other, 'day')` and `isAfter(other)`
  pub same : Instant → Instant → Bool
  pub same_day : Instant → Instant → Bool
  pub is_after : Instant → Instant → Bool
  -- `end.diff(start, 'minute')` for a start and an end; a difference below 0 is 0 here
  pub minutes : Instant → Instant → ℕ
