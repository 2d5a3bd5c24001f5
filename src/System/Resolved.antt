-- ===== src/System/Resolved.antt =====
-- The resolved report of a whole profile of src against the signals that came.
use strict_pprof_rs.Base.{
  ℕ, ◌≡◌, ◌≤◌, ◌<◌, inl, inr, refl, Bool, Option, List, [], ◌∷◌, arith, ok, Returns, ◌||◌, length,
  drop, replicate, length-append, half_word, Bool-cases,
}
use strict_pprof_rs.Timer.{Timer}
use strict_pprof_rs.Collector.Bucket.{Entry}
use strict_pprof_rs.Collector.TempArray.{TempFiles, Layout, buffer_length}
use strict_pprof_rs.Collector.Combined.Exact.{try_iter-IsExact}
use strict_pprof_rs.Frames.{Backend, UnresolvedFrames, max_thread_name}
use strict_pprof_rs.Frames.Equal.{frames_key}
use strict_pprof_rs.Profiler
use strict_pprof_rs.Profiler.{Platform, Profiler}
use strict_pprof_rs.Profiler.Handler.{interrupted}
use strict_pprof_rs.Profiler.Guard.{ProfilerGuardBuilder, guard, World, build}
use strict_pprof_rs.System.Session.{session-Counts}
use strict_pprof_rs.System.{Event, name_of, AllNamed, samples_of, observe_resolved}
use strict_pprof_rs.Frames.Symbol.{Symbol, Texts, Frames}
use strict_pprof_rs.Frames.Compare.{resolved_key}
use strict_pprof_rs.Report.{ReportBuilder}
use strict_pprof_rs.Report.Sums.{total, Respects}
use strict_pprof_rs.Report.Total as Totals
use strict_pprof_rs.Report.Total.{AreNamed, IsTotal, row}
use strict_pprof_rs.System.Histogram.{weight-samples_of}

module _ (fs : TempFiles) (backend : Backend) (platform : Platform fs) (sample_size : ℕ)
    (frame_pointer : Bool) (d : UnresolvedFrames backend.Frame)
    (layout : Layout fs.Byte (Entry (UnresolvedFrames backend.Frame))) (finish : List ℕ → ℕ)
    (texts : Texts) (resolve_in_perfmap : ℕ → Option Symbol)
    (finish_resolved : List (List (List ℕ)) × List ℕ × ℕ × ℕ → ℕ) where
  samples_of-AreNamed :
      (segments : List (ℕ × ℕ)) (events : List (Event backend.Frame))
      → AllNamed events
      → AreNamed fs backend layout sample_size finish texts resolve_in_perfmap finish_resolved
          (samples_of backend frame_pointer segments events)
  samples_of-AreNamed segments [] named = tt
  samples_of-AreNamed segments (event ∷ events) ((ends, fits), named) =
      let rest = samples_of-AreNamed segments events named in
      elim (Bool-cases (event.0 || interrupted event.1.ucontext segments)) [
        | inl over ↦ rw over rest
        | inr clear ↦ rw clear (
          omega (
            arith,
            length-append (name_of event.1)
                (drop (length (name_of event.1)) (replicate max_thread_name 0)),
          ),
          rest,
        )
      ]

  total-samples_of :
      (p : UnresolvedFrames backend.Frame → Bool) (segments : List (ℕ × ℕ))
      (events : List (Event backend.Frame))
      → total p (samples_of backend frame_pointer segments events) ≤ length events
  total-samples_of p segments [] = omega arith
  total-samples_of p segments (event ∷ events) = ground (arith, total-samples_of p segments events)

  -- From a new profiler on an empty file, whose guard could be built, and for every test of resolved
  -- samples that answers alike on equal ones and on the rows of samples with equal stacks: whatever
  -- signals come, fewer than 2 ^ 63 of them, the handler and the report with symbols return, provided that
  -- every thread's name ends in its array and that the buffer has room for a sample. The report is an
  -- error only if the file system has failed. Otherwise it has the builder's timing, and its rows that
  -- pass the test count exactly the signals that found the lock free, came outside the blocklist, and
  -- gave a stack whose row passes, after the post-processor; so all rows together count all samples.
  pub session-IsTotal :
      0 < buffer_length sample_size
      → (g : ProfilerGuardBuilder) (start_time start_instant errno : ℕ) (os₀ os : platform.Os)
        (profiler : Profiler fs.File backend.Frame platform.SigAction) (timer : Timer)
        (w : World fs backend platform sample_size frame_pointer d)
        (events : List (Event backend.Frame)) (b : ReportBuilder) (p : Frames → Bool)
      → ((f : fs.File) → (platform.new_file os₀).0 ≡ ok f → fs.contents f ≡ [])
      → Profiler.new fs backend platform sample_size frame_pointer d os₀ ≡ (ok profiler, os)
      → build fs backend platform sample_size frame_pointer d g start_time start_instant
          (ok profiler, os)
        ≡ (guard timer, w)
      → AllNamed events
      → length events < half_word
      → Respects ⦃key = resolved_key finish_resolved⦄ p
      → Respects ⦃key = frames_key backend finish⦄ (λ u. p (
          row fs backend layout sample_size finish texts resolve_in_perfmap finish_resolved
            b.frames_post_processor u))
      → Returns
          (observe_resolved fs backend platform sample_size frame_pointer d layout finish texts
            resolve_in_perfmap finish_resolved events w.0 errno b)
          (IsTotal fs backend layout sample_size finish texts resolve_in_perfmap finish_resolved b p
            (samples_of backend frame_pointer g.blocklist_segments events))
  unfolding observe_resolved
  session-IsTotal room g start_time start_instant errno os₀ os profiler timer w events b p empty
        new_one built named few same_rows same_samples =
      let instance key = frames_key backend finish in
      let samples = samples_of backend frame_pointer g.blocklist_segments events in
      let (w', run, (p', there, kept, stands)) =
        session-Counts fs backend platform sample_size frame_pointer d layout finish room g
          start_time start_instant errno os₀ os profiler timer w events empty new_one built named in
      let (r, read, exact) =
        try_iter-IsExact fs layout sample_size p'.profile_data samples stands in
      let all =
        total-samples_of
          (λ u. p (
            row fs backend layout sample_size finish texts resolve_in_perfmap finish_resolved
              b.frames_post_processor u))
          g.blocklist_segments events in
      let (report, reported, sums) =
        Totals.built fs backend layout sample_size finish texts resolve_in_perfmap finish_resolved b
          p same_rows same_samples samples p'.profile_data r
          (samples_of-AreNamed g.blocklist_segments events named)
          (λ q. omega (
            arith,
            weight-samples_of fs backend platform sample_size frame_pointer d layout finish
                g.blocklist_segments events q,
            few,
          ))
          (omega (arith, all, few)) read exact in
      (report, rw (run, there, reported) refl, sums)
