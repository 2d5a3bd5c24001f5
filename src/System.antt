-- ===== src/System.antt =====
-- A whole profile of src: a guard is built, signals come, and a report is made. What the parts do is in
-- the other modules; here they run one after the other.
pub mod Signals
pub mod Session
pub mod Histogram
pub mod Reports
pub mod Sequence
pub mod Resolved
pub mod Export
pub mod Shapes
pub mod Callback
pub mod Walk
mod Tests
use strict_pprof_rs.Base.{
  ℕ, ◌++◌, ◌≡◌, ◌≤◌, Bool, true, false, Option, none, some, List, [], ◌∷◌, Result, ok, err, Run,
  returns, ◌>>=◌, ◌||◌, if◌then◌else◌, length, take, drop, replicate,
}
use strict_pprof_rs.Error.{Error}
use strict_pprof_rs.Timer.{ReportTiming}
use strict_pprof_rs.Collector.Bucket.{Entry}
use strict_pprof_rs.Collector.TempArray.{TempFiles, Layout}
use strict_pprof_rs.Collector.Combined.{Collector}
use strict_pprof_rs.Frames.{Backend, UnresolvedFrames, max_depth, max_thread_name}
use strict_pprof_rs.Frames.Symbol.{Symbol, Texts, Frames}
use strict_pprof_rs.Report.{Report, ReportBuilder, build_unresolved, build}
use strict_pprof_rs.Profiler.{Platform, Profiler}
use strict_pprof_rs.Profiler.Thread.{c_str}
use strict_pprof_rs.Profiler.Handler.{
  Surroundings, Process, perf_signal_handler, write_thread_name, unblocked, interrupted,
}

-- A signal, and whether some other call holds the lock when it comes.
abbrev pub Event : Type 0 → Type 0
Event Frame = Bool × Surroundings Frame

-- The name that the handler gives to the thread.
abbrev pub name_of : {Frame : Type 0} → Surroundings Frame → List ℕ
name_of env = elim (c_str (write_thread_name env)) [ none ↦ [] | some name ↦ name ]

-- The thread's name ends in its array.
abbrev pub IsNamed : {Frame : Type 0} → Surroundings Frame → Type 0
IsNamed env =
    (c_str (write_thread_name env) ≡ some (name_of env)) × (length (name_of env) ≤ max_thread_name)

abbrev pub AllNamed : {Frame : Type 0} → List (Event Frame) → Type 0
AllNamed [] = Unit
AllNamed (event ∷ events) = IsNamed event.1 × AllNamed events

module _ (backend : Backend) (frame_pointer : Bool) where
  -- The sample of a signal: the frames in front of the first that is blocked, `MAX_DEPTH` at most.
  abbrev pub sample_of : List (ℕ × ℕ) → Surroundings backend.Frame → UnresolvedFrames backend.Frame
  sample_of segments env = record {
    frames = take max_depth (unblocked backend frame_pointer segments env.walk);
    thread_name = name_of env ++ drop (length (name_of env)) (replicate max_thread_name 0);
    thread_name_length = length (name_of env);
    thread_id = env.current_thread;
    sample_timestamp = env.now;
  }

  -- The samples of all signals that find the lock free and code that is not on the blocklist.
  abbrev pub samples_of :
      List (ℕ × ℕ) → List (Event backend.Frame) → List (Entry (UnresolvedFrames backend.Frame))
  samples_of segments [] = []
  samples_of segments (event ∷ events) =
      let rest = samples_of segments events in
      if event.0 || interrupted event.1.ucontext segments
      then rest
      else record { item = sample_of segments event.1; count = 1 } ∷ rest

module _ (fs : TempFiles) (backend : Backend) (platform : Platform fs) (sample_size : ℕ)
    (frame_pointer : Bool) (d : UnresolvedFrames backend.Frame)
    (layout : Layout fs.Byte (Entry (UnresolvedFrames backend.Frame))) (finish : List ℕ → ℕ) where
  abbrev pub Proc : Type 0
  Proc = Process fs.File backend.Frame platform.SigAction

  -- The handler, once for each signal.
  unfoldable pub handle_all : List (Event backend.Frame) → Proc → Run Proc
  handle_all [] w = returns w
  handle_all (event ∷ events) w =
      perf_signal_handler fs backend platform sample_size frame_pointer d layout finish event.1
        (record w { locked = event.0 })
      >>= handle_all events

  abbrev pub profile_data_of :
      Result Error (Profiler fs.File backend.Frame platform.SigAction)
      → Result Error (Collector fs.File (UnresolvedFrames backend.Frame))
  profile_data_of (err e) = err e
  profile_data_of (ok p) = ok p.profile_data

  -- The report after the signals, from what `PROFILER` holds.
  unfoldable pub observe :
      List (Event backend.Frame)
      → Result Error (Profiler fs.File backend.Frame platform.SigAction)
      → ℕ
      → ReportTiming
      → Run (Result Error (Report (UnresolvedFrames backend.Frame)))
  unfolding handle_all
  observe events profiler errno timing =
      handle_all events (record { locked = false; profiler = profiler; errno = errno }) >>= λ w.
      build_unresolved fs backend layout sample_size finish (profile_data_of w.profiler) timing

  module _ (texts : Texts) (resolve_in_perfmap : ℕ → Option Symbol)
      (finish_resolved : List (List (List ℕ)) × List ℕ × ℕ × ℕ → ℕ) where
    -- The same with the other report, whose rows are resolved.
    unfoldable pub observe_resolved :
        List (Event backend.Frame)
        → Result Error (Profiler fs.File backend.Frame platform.SigAction)
        → ℕ
        → ReportBuilder
        → Run (Result Error (Report Frames))
    unfolding handle_all
    observe_resolved events profiler errno b =
        handle_all events (record { locked = false; profiler = profiler; errno = errno }) >>= λ w.
        build fs backend layout sample_size finish texts resolve_in_perfmap finish_resolved b
          (profile_data_of w.profiler)
