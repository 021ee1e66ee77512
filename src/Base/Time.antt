-- ===== src/Base/Time.antt =====
-- `time.Time` and `time.Duration`. An instant is a number of nanoseconds since 31 December of the
-- year -1 (UTC), a day before the earliest instant that an RFC 3339 date can name, so every date
-- that the program parses is a number; Go's zero time is 1 January of the year 1.
use Prim.Native.Nat.{ℕ, ◌+◌, ◌-◌, ◌*◌, ◌/◌, ◌^◌, min}
use mathlib.Core.Bool.{Bool}
use photon_container.Base.Tests.{ltb, leb, if◌then◌else◌}

abbrev pub Time : Type 0
Time = ℕ

-- `negsuc n` is -(n + 1).
pub data ℤ : Type 0 where
  pos : ℕ → ℤ
  negsuc : ℕ → ℤ

abbrev pub second : ℕ
second = 1_000_000_000

abbrev pub hour : ℕ
hour = 3600 * second

-- 366 days of the year 0 and one day before it.
abbrev pub zero_time : Time
zero_time = 367 * 24 * hour

-- Seconds from `zero_time` to 1 January 1970.
abbrev pub unix_to_internal : ℕ
unix_to_internal = 62_135_596_800

-- `t.Sub(u)`: the difference, held within an int64 by saturation.
unfoldable pub sub : Time → Time → ℤ
sub t u = if leb u t then pos (min (t - u) (2 ^ 63 - 1)) else negsuc (min (u - t) (2 ^ 63) - 1)

-- `d <= n`, for a constant `n` that is not negative.
abbrev pub leb_ℤ : ℤ → ℕ → Bool
leb_ℤ (pos a) n = leb a n
leb_ℤ (negsuc a) n = Bool.true

-- `d < n`, for a constant `n` that is not negative.
abbrev pub ltb_ℤ : ℤ → ℕ → Bool
ltb_ℤ (pos a) n = ltb a n
ltb_ℤ (negsuc a) n = Bool.true

-- `t.Unix()`, which rounds down.
unfoldable pub unix : Time → ℤ
unix t =
    let s = t / second in
    let base = 367 * 24 * 3600 + unix_to_internal in
    if leb base s then pos (s - base) else negsuc (base - s - 1)
