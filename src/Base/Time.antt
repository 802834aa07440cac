-- ===== src/Base/Time.antt =====
-- Instants are nanoseconds since an epoch before every event; durations are nanoseconds.
use Prim.Native.Nat.{ℕ, ◌-◌, ◌/◌}
use db_backup_app.Base.Tests.{leb, if◌then◌else◌}
use db_backup_app.Base.Int.{ℤ, pos, negsuc}

abbrev pub second : ℕ
second = 1_000_000_000

abbrev pub minute : ℕ
minute = 60_000_000_000

abbrev pub hour : ℕ
hour = 3_600_000_000_000

-- A day without a clock change.
abbrev pub day : ℕ
day = 86_400_000_000_000

abbrev pub opposite : ℕ → ℤ
opposite n = if leb 1 n then negsuc (n - 1) else pos 0

-- `int64(now.Sub(started).Seconds())`, which rounds towards zero.
unfoldable pub elapsed_seconds : ℕ → ℕ → ℤ
elapsed_seconds now started =
    if leb started now then pos ((now - started) / second) else opposite ((started - now) / second)
