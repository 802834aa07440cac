-- ===== src/Notifications/Quiet.antt =====
-- The quiet-hours window as an arc of the 24-hour clock.
use db_backup_app.Base.{ℕ, ◌+◌, ◌-◌, ◌%◌, ◌<◌, ◌≡◌, ltb, arith, pos}
use db_backup_app.Notifications.{Settings, in_quiet_hours}

-- With both ends on the clock, an hour is quiet exactly when it lies on the arc from the start
-- (included) to the end (excluded), past midnight where the end comes first; equal ends make no
-- arc.
pub in_quiet_hours-arc :
    (s : Settings) (start end hour : ℕ)
    → s.quiet_hours_start ≡ pos start
    → s.quiet_hours_end ≡ pos end
    → start < 24
    → end < 24
    → hour < 24
    → in_quiet_hours s hour ≡ ltb ((hour + 24 - start) % 24) ((end + 24 - start) % 24)
unfolding in_quiet_hours
in_quiet_hours-arc s start end hour hs he p q r = ground arith
