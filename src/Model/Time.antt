-- ===== src/Model/Time.antt =====
-- `time.Duration(seconds) * time.Second`: nanoseconds in an int64. The lifetimes are INT columns.
use oidc_demo.Base.{ℕ, ◌*◌, ◌<◌, ◌^◌, arith}

abbrev pub second : ℕ
second = 1000000000

unfoldable pub duration : ℕ → ℕ
duration seconds = seconds * second

-- A lifetime that fits a 4-byte column does not overflow the duration.
duration-lt : (seconds : ℕ) → seconds < 2 ^ 31 → duration seconds < 2 ^ 63
unfolding duration
duration-lt seconds h = omega arith
