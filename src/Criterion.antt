-- ===== src/Criterion.antt =====
-- src/criterion.rs: `PProfProfiler`, which profiles each benchmark of the crate criterion and writes a
-- flamegraph or a profile. Directories, files and the encoding of a profile are parameters.
pub mod Session
mod Tests
use strict_pprof_rs.Base.{
  ℕ, ◌≡◌, ◌⊎◌, inl, inr, refl, sym, ◌∙◌, subst, ap, Option, none, some, List, [], ◌∷◌, Bool, true,
  false, arith, Result, ok, err, Run, returns, panics, diverges, ◌>>=◌, Option-cases,
}
use strict_pprof_rs.Base.Int.{ℤ}
use strict_pprof_rs.Base.Texts.{Text}
use strict_pprof_rs.Error.{Error}
use strict_pprof_rs.Timer.{Timer}
use strict_pprof_rs.Collector.Bucket.{Entry}
use strict_pprof_rs.Collector.TempArray.{IoError, TempFiles, Layout}
use strict_pprof_rs.Collector.Combined.{Collector}
use strict_pprof_rs.Frames.{Backend, UnresolvedFrames}
use strict_pprof_rs.Frames.Symbol.{Symbol, Texts, Frames}
use strict_pprof_rs.Report
use strict_pprof_rs.Report.{Report}
use strict_pprof_rs.Protos.{Profile}
use strict_pprof_rs.Pprof.{pprof}
use strict_pprof_rs.Flamegraph.{flamegraph_with_options}
use strict_pprof_rs.Profiler.{Platform, Profiler}
use strict_pprof_rs.Profiler.Owner.{SigactionSucceeds}
use strict_pprof_rs.Profiler.Guard
use strict_pprof_rs.Profiler.Guard.{
  Built, guard, failed, World, drop_guard, build, report_timing, with_frequency, default,
  session-restores,
}

pub data Output (Options : Type 0) : Type 0 where
  flamegraph : Option Options → Output Options
  protobuf phantom : Output Options

pub record PProfProfiler (Options : Type 0) : Type 0 where
  pub frequency : ℤ
  pub output : Output Options
  pub active_profiler : Option Timer

-- `PProfProfiler::new`
abbrev pub new : {Options : Type 0} → ℤ → Output Options → PProfProfiler Options
new frequency output = record { frequency = frequency; output = output; active_profiler = none }

-- How a call ended: with a file that it wrote, with nothing to write, or in a panic.
pub data Ended (File : Type 0) : Type 0 where
  wrote : File → Ended File
  idle panicked : Ended File

-- "flamegraph.svg", "profile.pb" or nothing.
abbrev pub filename : {Options : Type 0} → Output Options → Text
filename (flamegraph options) =
    b'f' ∷ b'l' ∷ b'a' ∷ b'm' ∷ b'e' ∷ b'g' ∷ b'r' ∷ b'a' ∷ b'p' ∷ b'h' ∷ b'.' ∷ b's' ∷ b'v' ∷ b'g'
    ∷ []
filename protobuf = b'p' ∷ b'r' ∷ b'o' ∷ b'f' ∷ b'i' ∷ b'l' ∷ b'e' ∷ b'.' ∷ b'p' ∷ b'b' ∷ []
filename phantom = []

-- The directories and files, and what other crates write to a file.
pub record Disk (Options : Type 0) : Type 1 where
  pub State : Type 0
  pub File : Type 0
  pub create_dir_all : Text → State → Result IoError (Unit {0}) × State
  pub join : Text → Text → Text
  pub create : Text → State → Result IoError File × State
  pub default_options : Options
  pub from_lines : Options → List Text → File → Result IoError File
  pub encode : Profile → Result IoError (List ℕ)
  pub write_all : File → List ℕ → Result IoError File

module _ (fs : TempFiles) (backend : Backend) (platform : Platform fs) (sample_size : ℕ)
    (frame_pointer : Bool) (d : UnresolvedFrames backend.Frame) {Options : Type 0}
    (disk : Disk Options) where
  abbrev pub W : Type 0
  W = World fs backend platform sample_size frame_pointer d

  abbrev pub P : Type 0
  P = PProfProfiler Options

  -- The guard that an assignment to `active_profiler` replaces is dropped.
  abbrev pub drop_old : Option Timer → W → W
  drop_old none w = w
  drop_old (some timer) w =
      drop_guard fs backend platform sample_size frame_pointer d (some timer) w

  -- `ProfilerGuard::new(..).unwrap()`, and the assignment.
  abbrev pub set_active : P → Built × W → Ended disk.File × (P × W)
  set_active p (guard timer, w) =
      (idle, (record p { active_profiler = some timer }, drop_old p.active_profiler w))
  set_active p (failed e, w) = (panicked, (p, w))
  set_active p (Guard.panicked, w) = (panicked, (p, w))

  unfoldable pub start_profiling : ℕ → ℕ → P × W → Ended disk.File × (P × W)
  start_profiling start_time start_instant (p, w) = set_active p (
      Guard.new fs backend platform sample_size frame_pointer d p.frequency start_time start_instant
        w)

  module _ (layout : Layout fs.Byte (Entry (UnresolvedFrames backend.Frame))) (finish : List ℕ → ℕ)
      (texts : Texts) (resolve_in_perfmap : ℕ → Option Symbol)
      (finish_resolved : List (List (List ℕ)) × List ℕ × ℕ × ℕ → ℕ)
      (into_iter : List Text → List Text) where
    abbrev data_of : W → Result Error (Collector fs.File (UnresolvedFrames backend.Frame))
    data_of (err e, os) = err e
    data_of (ok p, os) = ok p.profile_data

    -- `profiler.report().build()`, at the instant `now`.
    unfoldable pub report : Timer → ℕ → W → Run (Result Error (Report Frames))
    report timer now w =
        Report.build fs backend layout sample_size finish texts resolve_in_perfmap finish_resolved
          (Report.new (report_timing (some timer) now)) (data_of w)

    -- `Result::unwrap` and `Result::expect`
    abbrev expect : {E A : Type 0} → Result E A → Run A
    expect (ok a) = returns a
    expect (err e) = panics

    abbrev or_default : Option Options → Options
    or_default none = disk.default_options
    or_default (some options) = options

    -- What is written to the file, by the kind of output.
    unfoldable pub write : Output Options → Report Frames → disk.File → Run disk.File
    write (flamegraph options) r file =
        flamegraph_with_options texts (disk.from_lines (or_default options)) r.rows file
    write protobuf r file = pprof texts into_iter r >>= λ profile.
        expect (disk.encode profile) >>= λ content. expect (disk.write_all file content)
    write phantom r file = panics

    abbrev ended : Run disk.File → Ended disk.File
    ended (returns file) = wrote file
    ended panics = panicked
    ended diverges = panicked

    -- The guard is taken out, and dropped when the report is written, or when that panics.
    abbrev with_guard : ℕ → disk.File → P × W → Option Timer → Ended disk.File × (P × W)
    with_guard now file (p, w) none = (idle, (p, w))
    with_guard now file (p, w) (some timer) = (
      ended (report timer now w >>= λ r. expect r >>= λ built. write p.output built file),
      (
        record p { active_profiler = none },
        drop_guard fs backend platform sample_size frame_pointer d (some timer) w,
      ),
    )

    abbrev pub with_file :
        ℕ → P × W → Result IoError disk.File × disk.State → (Ended disk.File × (P × W)) × disk.State
    with_file now pw (err e, s) = ((panicked, pw), s)
    with_file now pw (ok file, s) = (with_guard now file pw pw.0.active_profiler, s)

    abbrev pub with_dir :
        ℕ
        → Text
        → P × W
        → Result IoError (Unit {0}) × disk.State
        → (Ended disk.File × (P × W)) × disk.State
    with_dir now benchmark_dir pw (err e, s) = ((panicked, pw), s)
    with_dir now benchmark_dir pw (ok _, s) =
        with_file now pw (disk.create (disk.join benchmark_dir (filename pw.0.output)) s)

    unfoldable pub stop_profiling :
        ℕ → Text → P × W → disk.State → (Ended disk.File × (P × W)) × disk.State
    unfolding report write
    stop_profiling now benchmark_dir pw s =
        with_dir now benchmark_dir pw (disk.create_dir_all benchmark_dir s)
