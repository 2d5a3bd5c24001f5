-- ===== src/System/Histogram.antt =====
-- The report of a whole profile of src against the signals that came.
use strict_pprof_rs.Base.{
  ℕ, ◌≡◌, ◌≤◌, ◌<◌, refl, Bool, some, List, [], ◌∷◌, arith, ok, Returns, length, half_word,
}
use strict_pprof_rs.Timer.{Timer}
use strict_pprof_rs.Collector.Bucket.{Entry}
use strict_pprof_rs.Collector.Bucket.Weight.{weight}
use strict_pprof_rs.Collector.TempArray.{TempFiles, Layout, buffer_length}
use strict_pprof_rs.Collector.Combined.Exact.{try_iter-IsExact}
use strict_pprof_rs.Frames.{Backend, UnresolvedFrames}
use strict_pprof_rs.Frames.Equal.{frames_key}
use strict_pprof_rs.Report.Exact.{IsHistogram, merged}
use strict_pprof_rs.Profiler
use strict_pprof_rs.Profiler.{Platform, Profiler}
use strict_pprof_rs.Profiler.Guard.{ProfilerGuardBuilder, guard, World, build, report_timing}
use strict_pprof_rs.System.Session.{session-Counts}
use strict_pprof_rs.System.{Event, AllNamed, samples_of, observe}

module _ (fs : TempFiles) (backend : Backend) (platform : Platform fs) (sample_size : ℕ)
    (frame_pointer : Bool) (d : UnresolvedFrames backend.Frame)
    (layout : Layout fs.Byte (Entry (UnresolvedFrames backend.Frame))) (finish : List ℕ → ℕ) where
  pub weight-samples_of :
      (segments : List (ℕ × ℕ)) (events : List (Event backend.Frame))
      (q : UnresolvedFrames backend.Frame)
      → weight ⦃key = frames_key backend finish⦄ q
          (samples_of backend frame_pointer segments events)
        ≤ length events
  weight-samples_of segments [] q = omega arith
  weight-samples_of segments (event ∷ events) q =
      ground (arith, weight-samples_of segments events q)

  -- From a new profiler on an empty file, whose guard could be built: whatever signals come, fewer
  -- than 2 ^ 63 of them, whether other calls hold the lock or not, and from whatever code, the handler and
  -- the report return, provided that every thread's name ends in its array and that the buffer has room
  -- for a sample. The report is an error only if the file system has failed. Otherwise it has the
  -- guard's timing, and its row for each stack of each thread holds exactly the number of the signals
  -- that found the lock free, came outside the blocklist of the builder, and gave that stack.
  pub session-IsHistogram :
      0 < buffer_length sample_size
      → (b : ProfilerGuardBuilder) (start_time start_instant now errno : ℕ) (os₀ os : platform.Os)
        (p : Profiler fs.File backend.Frame platform.SigAction) (timer : Timer)
        (w : World fs backend platform sample_size frame_pointer d)
        (events : List (Event backend.Frame))
      → ((f : fs.File) → (platform.new_file os₀).0 ≡ ok f → fs.contents f ≡ [])
      → Profiler.new fs backend platform sample_size frame_pointer d os₀ ≡ (ok p, os)
      → build fs backend platform sample_size frame_pointer d b start_time start_instant (ok p, os)
        ≡ (guard timer, w)
      → AllNamed events
      → length events < half_word
      → Returns
          (observe fs backend platform sample_size frame_pointer d layout finish events w.0 errno
            (report_timing (some timer) now))
          (IsHistogram fs backend layout sample_size finish
            (samples_of backend frame_pointer b.blocklist_segments events)
            (report_timing (some timer) now))
  unfolding observe
  session-IsHistogram room b start_time start_instant now errno os₀ os p timer w events empty
        new_one built named few =
      let instance key = frames_key backend finish in
      let samples = samples_of backend frame_pointer b.blocklist_segments events in
      let (w', run, (p', there, kept, stands)) =
        session-Counts fs backend platform sample_size frame_pointer d layout finish room b
          start_time start_instant errno os₀ os p timer w events empty new_one built named in
      let (r, read, exact) =
        try_iter-IsExact fs layout sample_size p'.profile_data samples stands in
      let (report, reported, histogram) =
        merged fs backend layout sample_size finish samples (report_timing (some timer) now)
          p'.profile_data r
          (λ q. omega (arith, weight-samples_of b.blocklist_segments events q, few)) read exact in
      (report, rw (run, there, reported) refl, histogram)
