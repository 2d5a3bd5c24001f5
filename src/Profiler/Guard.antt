-- ===== src/Profiler/Guard.antt =====
-- `ProfilerGuardBuilder` and `ProfilerGuard` of src/profiler.rs: the blocklist, building a guard, which
-- starts the profiler and arms the timer, and dropping it, which undoes both.
use strict_pprof_rs.Base.{
  ℕ, zero, suc, ◌≡◌, ◌⊎◌, inl, inr, refl, sym, ◌∙◌, ap, subst, Bool, true, false, Option, none,
  some, List, [], Result, ok, err, Run, returns, panics, diverges, if◌then◌else◌,
}
use strict_pprof_rs.Base.Int.{ℤ, pos, negsuc}
use strict_pprof_rs.Error.{Error, creating_error, running, not_running, io_error, nix_error}
use strict_pprof_rs.Timer
use strict_pprof_rs.Timer.{Timer, interval_of}
use strict_pprof_rs.Collector.TempArray.{TempFiles}
use strict_pprof_rs.Frames.{Backend, UnresolvedFrames}
use strict_pprof_rs.Profiler.{Platform, Profiler, State, Outcome, start, stop}
use strict_pprof_rs.Profiler.Life.{Started, start-Started, Stopped, stop-Stopped, own, restored}
use strict_pprof_rs.Profiler.Owner.{SigactionSucceeds}

pub record ProfilerGuardBuilder : Type 0 where
  pub frequency : ℤ
  pub on_stack : Bool
  pub blocklist_segments : List (ℕ × ℕ)

-- `ProfilerGuardBuilder::default`
abbrev pub default : ProfilerGuardBuilder
default = record { frequency = pos 99; on_stack = false; blocklist_segments = [] }

-- `ProfilerGuardBuilder::frequency`
abbrev pub with_frequency : ℤ → ProfilerGuardBuilder → ProfilerGuardBuilder
with_frequency frequency b = record b { frequency = frequency }

-- The timing that `ProfilerGuard::report` gives to the report, at the instant `now`.
abbrev pub report_timing : Option Timer → ℕ → Timer.ReportTiming
report_timing none now = Timer.default
report_timing (some timer) now = Timer.timing timer now

pub data Built : Type 0 where
  guard : Timer → Built
  failed : Error → Built
  panicked : Built

module _ (fs : TempFiles) (backend : Backend) (platform : Platform fs) (sample_size : ℕ)
    (frame_pointer : Bool) (d : UnresolvedFrames backend.Frame) where
  open platform use {Os, SigAction, perf_action, installed, sigaction, setitimer}

  -- What `PROFILER` holds, with the state of the system.
  abbrev pub World : Type 0
  World = Result Error (Profiler fs.File backend.Frame SigAction) × Os

  abbrev armed : Profiler fs.File backend.Frame SigAction → Os → Run (Timer × Os) → Built × World
  armed p os (returns (timer, os')) = (guard timer, (ok p, os'))
  armed p os panics = (panicked, (ok p, os))
  armed p os diverges = (panicked, (ok p, os))

  -- The timer is made after the profiler has started, under its lock.
  abbrev arm :
      ProfilerGuardBuilder
      → ℕ
      → ℕ
      → Outcome fs backend platform sample_size frame_pointer d
      → Built × World
  arm b start_time start_instant (err e, (p, os)) = (failed e, (ok p, os))
  arm b start_time start_instant (ok _, (p, os)) =
      armed p os (Timer.new setitimer b.frequency start_time start_instant os)

  -- The settings that `build` makes before it knows whether the profiler can start.
  abbrev pub configured :
      ProfilerGuardBuilder
      → Profiler fs.File backend.Frame SigAction
      → Profiler fs.File backend.Frame SigAction
  configured b p = record p {
    on_stack = if frame_pointer then b.on_stack else p.on_stack;
    blocklist_segments = b.blocklist_segments;
  }

  -- `build`, at the times that the clocks show.
  unfoldable pub build : ProfilerGuardBuilder → ℕ → ℕ → World → Built × World
  build b start_time start_instant (err e, os) = (failed creating_error, (err e, os))
  build b start_time start_instant (ok p, os) =
      arm b start_time start_instant
        (start fs backend platform sample_size frame_pointer d (configured b p, os))

  -- `ProfilerGuard::new`
  abbrev pub new : ℤ → ℕ → ℕ → World → Built × World
  new frequency = build (with_frequency frequency default)

  -- `Drop for ProfilerGuard`, of which the timer is taken first. An error of `stop` is only logged.
  abbrev disarm : Option Timer → Os → Os
  disarm none os = os
  disarm (some timer) os = Timer.drop setitimer os

  abbrev stop_result : Outcome fs backend platform sample_size frame_pointer d → World
  stop_result (_, (p, os)) = (ok p, os)

  unfoldable pub drop_guard : Option Timer → World → World
  drop_guard timer (err e, os) = (err e, disarm timer os)
  drop_guard timer (ok p, os) =
      stop_result (stop fs backend platform sample_size frame_pointer d (p, disarm timer os))

  -- What `build` has done, by how it ended, from a profiler `p`.
  abbrev pub Builds :
      ProfilerGuardBuilder
      → ℕ
      → ℕ
      → Profiler fs.File backend.Frame SigAction
      → Os
      → Built × World
      → Type 0
  Builds b start_time start_instant p os (guard timer, (r, os')) =
      (p.is_running ≡ false)
      × (timer ≡ record {
        frequency = b.frequency;
        start_time = start_time;
        start_instant = start_instant;
      })
      × (r
          ≡ ok (record (configured b p) { old_sigaction = some (installed os); is_running = true }))
      × (installed os' ≡ own fs backend platform sample_size frame_pointer d (configured b p, os))
  Builds b start_time start_instant p os (failed e, (r, os')) =
      (r ≡ ok (configured b p))
      × (installed os' ≡ installed os)
      × ((e ≡ running) × (p.is_running ≡ true)
          ⊎ (p.is_running ≡ false)
            × (x : ℕ) × (e ≡ nix_error x)
            × ((sigaction os
                  (own fs backend platform sample_size frame_pointer d (configured b p, os))).0
                ≡ err x))
  Builds b start_time start_instant p os (panicked, (r, os')) =
      (p.is_running ≡ false)
      × (b.frequency ≡ pos 0)
      × (r
          ≡ ok (record (configured b p) { old_sigaction = some (installed os); is_running = true }))
      × (installed os' ≡ own fs backend platform sample_size frame_pointer d (configured b p, os))

  abbrev made_timer : ℕ → ℕ → ℤ → Timer.Timer
  made_timer start_time start_instant frequency = record {
    frequency = frequency;
    start_time = start_time;
    start_instant = start_instant;
  }

  armed-Builds :
      (b : ProfilerGuardBuilder) (start_time start_instant : ℕ)
      (p : Profiler fs.File backend.Frame SigAction) (os : Os) (f : ℤ)
      → b.frequency ≡ f
      → (p' : Profiler fs.File backend.Frame SigAction) (os' : Os)
      → Started fs backend platform sample_size frame_pointer d
          (configured b p, os)
          (ok tt, (p', os'))
      → Builds b start_time start_instant p os
          (armed p' os' (Timer.new setitimer f start_time start_instant os'))
  unfolding Timer.new interval_of
  armed-Builds b start_time start_instant p os (pos zero) same p' os' (idle, now, set) =
      (idle, same, ap ok set, now)
  armed-Builds b start_time start_instant p os (pos (suc n)) same p' os' (idle, now, set) = (
    idle,
    ap (made_timer start_time start_instant) (sym same),
    ap ok set,
    platform.installed-setitimer _ _ ∙ now,
  )
  armed-Builds b start_time start_instant p os (negsuc n) same p' os' (idle, now, set) = (
    idle,
    ap (made_timer start_time start_instant) (sym same),
    ap ok set,
    platform.installed-setitimer _ _ ∙ now,
  )

  -- A guard is built only if the profiler was stopped: it runs then, its handler is installed, and the
  -- guard's timer has the builder's frequency and the times of the start. A build that fails has
  -- replaced the settings of the profiler, also of one that runs; it fails only because the profiler
  -- runs, or because `sigaction` has failed. A build panics only at frequency zero, and leaves a profiler that runs without a guard.
  pub build-Builds :
      (b : ProfilerGuardBuilder) (start_time start_instant : ℕ)
      (p : Profiler fs.File backend.Frame SigAction) (os : Os)
      → Builds b start_time start_instant p os (build b start_time start_instant (ok p, os))
  unfolding build
  build-Builds b start_time start_instant p os =
      by_start _
        (start-Started fs backend platform sample_size frame_pointer d (configured b p, os))
    where
      by_start :
          (r : Outcome fs backend platform sample_size frame_pointer d)
          → Started fs backend platform sample_size frame_pointer d (configured b p, os) r
          → Builds b start_time start_instant p os (arm b start_time start_instant r)
      by_start (ok _, (p', os')) h =
          armed-Builds b start_time start_instant p os b.frequency refl p' os' h
      by_start (err running, (p', os')) (busy, same) =
          (ap (λ t. ok t.0) same, ap (λ t. installed t.1) same, inl (refl, busy))
      by_start (err (nix_error e), (p', os')) (idle, same, kept, refused) =
          (ap ok same, kept, inr (idle, e, refl, refused))
      by_start (err creating_error, t) h = absurd h
      by_start (err not_running, t) h = absurd h
      by_start (err (io_error e), t) h = absurd h

  -- A stop of a running profiler puts the remembered action back, if no call of `sigaction` fails.
  running-restored :
      SigactionSucceeds platform
      → (s : State fs backend platform sample_size frame_pointer d)
        (r : Outcome fs backend platform sample_size frame_pointer d)
      → s.0.is_running ≡ true
      → Stopped fs backend platform sample_size frame_pointer d s r
      → installed r.1.1 ≡ restored fs backend platform sample_size frame_pointer d s
  running-restored answers s (ok _, t) busy h = h.1
  running-restored answers s (err (io_error e), t) busy h = h.1
  running-restored answers s (err (nix_error e), t) busy h = absurd (answers _ _ e h.5)
  running-restored answers s (err not_running, t) busy h = absurd (cc h.0)
  running-restored answers s (err creating_error, t) busy h = absurd h
  running-restored answers s (err running, t) busy h = absurd h

  -- A session undoes itself: after a guard has been built and dropped again, SIGPROF has the action
  -- that it had before, provided that calls of `sigaction` succeed.
  pub session-restores :
      SigactionSucceeds platform
      → (b : ProfilerGuardBuilder) (start_time start_instant : ℕ)
        (p : Profiler fs.File backend.Frame SigAction) (os : Os) (timer : Timer) (w : World)
      → build b start_time start_instant (ok p, os) ≡ (guard timer, w)
      → installed (drop_guard (some timer) w).1 ≡ installed os
  unfolding drop_guard Timer.drop
  session-restores answers b start_time start_instant p os timer (r, os') built =
      let (idle, same, set, now) =
        subst (Builds b start_time start_instant p os) built
          (build-Builds b start_time start_instant p os) in
      let running_state : State fs backend platform sample_size frame_pointer d = (
        record (configured b p) { old_sigaction = some (installed os); is_running = true },
        Timer.drop setitimer os',
      ) in
      rw set (
        running-restored answers running_state
          (stop fs backend platform sample_size frame_pointer d running_state) refl
          (stop-Stopped fs backend platform sample_size frame_pointer d running_state))
