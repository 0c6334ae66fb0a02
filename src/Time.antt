-- ===== src/Time.antt =====
-- rtdb/kogmo_time.c, the arithmetic of timestamps, and the database's clock of
-- rtdb/kogmo_rtdb_obj_local.c. The operating system's clock is an argument.
use kogmo_rtdb.Base.{ℕ, ◌/◌, pos, sub_ℕ, ◌&&◌, not, ◌==◌, if◌then◌else◌}
use kogmo_rtdb.Types.{LocalData, Err, Result, ok, err}
use kogmo_rtdb.Floats.{FloatOps}

-- KOGMO_TIMESTAMP_TICKSPERSECOND
abbrev pub ticks_per_second : ℕ
ticks_per_second = 1_000_000_000

-- KOGMO_TIMESTAMP_NANOSECONDSPERTICK
abbrev pub nanoseconds_per_tick : ℕ
nanoseconds_per_tick = 1_000_000_000 / ticks_per_second

unfoldable pub timestamp_diff_secs : FloatOps → ℕ → ℕ → ℕ
timestamp_diff_secs fl ts_begin ts_end =
    fl.div (fl.of_int (sub_ℕ ts_end ts_begin)) (fl.of_int (pos ticks_per_second))

unfoldable pub timestamp_add_secs : FloatOps → ℕ → ℕ → ℕ
timestamp_add_secs fl ts secs =
    fl.to_int (fl.add (fl.of_int (pos ts)) (fl.mul secs (fl.of_int (pos ticks_per_second))))

-- kogmo_rtdb_timestamp_now: the simulated time, once it is set, or the system's.
unfoldable pub timestamp_now : LocalData → ℕ → ℕ
timestamp_now db now = if db.simmode && not (db.sim_ts == 0) then db.sim_ts else now

unfoldable pub timestamp_set : LocalData → ℕ → Result (Unit {0}) × LocalData
timestamp_set db new_ts =
    let db' : LocalData = record db { sim_ts = new_ts } in
    if not db.simmode then (err Err.noperm, db') else (ok tt, db')
