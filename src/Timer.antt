-- ===== src/Timer.antt =====
-- `Timer` of src/timer.rs: the profiling timer of the process, armed at the sampling frequency. The
-- system call and the clocks are parameters; times are counted in nanoseconds.
pub mod Interval
mod Tests
use strict_pprof_rs.Base.{ℕ, zero, suc, ◌+◌, ◌-◌, Run, returns, panics, ◌>>=◌}
use strict_pprof_rs.Base.Int.{ℤ, pos, negsuc, div_trunc, rem_trunc}

pub record Timeval : Type 0 where
  pub tv_sec : ℤ
  pub tv_usec : ℤ

pub record Itimerval : Type 0 where
  pub it_interval : Timeval
  pub it_value : Timeval

pub record Timer : Type 0 where
  pub frequency : ℤ
  pub start_time : ℕ
  pub start_instant : ℕ

pub record ReportTiming : Type 0 where
  pub frequency : ℤ
  pub start_time : ℕ
  pub duration : ℕ

-- 1e6
abbrev pub million : ℤ
million = pos 1_000_000

-- The setting that `Timer::new` hands to `setitimer`. Division by zero panics.
unfoldable pub interval_of : ℤ → Run Itimerval
interval_of (pos zero) = panics
interval_of frequency =
    let interval = div_trunc million frequency in
    let it_interval : Timeval = record {
      tv_sec = div_trunc interval million;
      tv_usec = rem_trunc interval million;
    } in
    returns (record { it_interval = it_interval; it_value = it_interval })

module _ {Os : Type 0} (setitimer : Os → Itimerval → Os) where
  -- `Timer::new`, with what the two clocks show. The answer of `setitimer` is not looked at.
  unfoldable pub new : ℤ → ℕ → ℕ → Os → Run (Timer × Os)
  unfolding interval_of
  new frequency start_time start_instant os = interval_of frequency >>= λ setting. returns (
    record { frequency = frequency; start_time = start_time; start_instant = start_instant },
    setitimer os setting,
  )

  -- The setting with which `drop` disarms the timer.
  abbrev pub disarmed : Itimerval
  disarmed =
      let never : Timeval = record { tv_sec = pos 0; tv_usec = pos 0 } in
      record { it_interval = never; it_value = never }

  unfoldable pub drop : Os → Os
  drop os = setitimer os disarmed

-- `timing`, at the instant `now` of the monotonic clock.
unfoldable pub timing : Timer → ℕ → ReportTiming
timing t now = record {
  frequency = t.frequency;
  start_time = t.start_time;
  duration = now - t.start_instant;
}

-- `ReportTiming::default`
abbrev pub default : ReportTiming
default = record { frequency = pos 1; start_time = 0; duration = 0 }
