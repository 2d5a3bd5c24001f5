-- ===== src/System/Reports.antt =====
-- Reports of src/report.rs that are made while the profile goes on: signals and reports in any order.
use strict_pprof_rs.Base.{
  ℕ, ◌+◌, ◌++◌, ◌≡◌, ◌<◌, refl, subst, inl, Bool, false, some, List, [], ◌∷◌, arith, Result, ok,
  Run, Returns, returns, ◌>>=◌, length, half_word,
}
use strict_pprof_rs.Error.{Error}
use strict_pprof_rs.Timer.{Timer}
use strict_pprof_rs.Collector.Bucket.{Entry}
use strict_pprof_rs.Collector.Bucket.Weight.{weight, weight-append}
use strict_pprof_rs.Collector.TempArray.{TempFiles, Layout, buffer_length}
use strict_pprof_rs.Collector.Combined.Exact.{try_iter-IsExact}
use strict_pprof_rs.Frames.{Backend, UnresolvedFrames}
use strict_pprof_rs.Frames.Equal.{frames_key}
use strict_pprof_rs.Report.{Report, build_unresolved}
use strict_pprof_rs.Report.Exact.{IsHistogram, merged}
use strict_pprof_rs.Profiler
use strict_pprof_rs.Profiler.{Platform, Profiler}
use strict_pprof_rs.Profiler.Handler.{Process, perf_signal_handler}
use strict_pprof_rs.Profiler.Guard.{
  ProfilerGuardBuilder, guard, World, build, Builds, build-Builds, report_timing,
}
use strict_pprof_rs.System.{Event, IsNamed, samples_of, profile_data_of}
use strict_pprof_rs.System.Signals.{Counts, handler-Counts}
use strict_pprof_rs.System.Session.{running_profiler, new-Fresh}
use strict_pprof_rs.System.Histogram.{weight-samples_of}

-- What happens while a guard lives: a signal, or a report, of which the time is given.
pub data Action (Frame : Type 0) : Type 0 where
  signalled : Event Frame → Action Frame
  reported : ℕ → Action Frame

-- Every thread's name ends in its array.
abbrev pub NamedActions : {Frame : Type 0} → List (Action Frame) → Type 0
NamedActions [] = Unit
NamedActions (signalled event ∷ actions) = IsNamed event.1 × NamedActions actions
NamedActions (reported now ∷ actions) = NamedActions actions

module _ (fs : TempFiles) (backend : Backend) (platform : Platform fs) (sample_size : ℕ)
    (frame_pointer : Bool) (d : UnresolvedFrames backend.Frame)
    (layout : Layout fs.Byte (Entry (UnresolvedFrames backend.Frame))) (finish : List ℕ → ℕ)
    (timer : Timer) where
  abbrev Proc : Type 0
  Proc = Process fs.File backend.Frame platform.SigAction

  abbrev Answer : Type 0
  Answer = Result Error (Report (UnresolvedFrames backend.Frame))

  abbrev Samples : Type 0
  Samples = List (Entry (UnresolvedFrames backend.Frame))

  -- The actions in order, with the reports that are made.
  unfoldable pub run_actions : List (Action backend.Frame) → Proc → Run (List Answer)
  run_actions [] w = returns []
  run_actions (signalled event ∷ actions) w =
      perf_signal_handler fs backend platform sample_size frame_pointer d layout finish event.1
        (record w { locked = event.0 })
      >>= run_actions actions
  run_actions (reported now ∷ actions) w =
      build_unresolved fs backend layout sample_size finish
        (profile_data_of fs backend platform sample_size frame_pointer d layout finish w.profiler)
        (report_timing (some timer) now)
      >>= λ answer. run_actions actions w >>= λ answers. returns (answer ∷ answers)

  -- Each report counts the samples of all signals before it, those in `samples` first.
  abbrev pub EachCounts :
      List (ℕ × ℕ) → Samples → List (Action backend.Frame) → List Answer → Type 0
  EachCounts segments samples [] [] = Unit
  EachCounts segments samples [] (a ∷ answers) = ⊥
  EachCounts segments samples (signalled event ∷ actions) answers =
      EachCounts segments (samples ++ samples_of backend frame_pointer segments (event ∷ []))
        actions answers
  EachCounts segments samples (reported now ∷ actions) [] = ⊥
  EachCounts segments samples (reported now ∷ actions) (a ∷ answers) =
      IsHistogram fs backend layout sample_size finish samples (report_timing (some timer) now) a
      × EachCounts segments samples actions answers

  both :
      {m : Run Answer} {n : Run (List Answer)} {answer : Answer} {answers : List Answer}
      → m ≡ returns answer
      → n ≡ returns answers
      → (m >>= λ x. n >>= λ xs. returns (x ∷ xs)) ≡ returns (answer ∷ answers)
  both one rest = rw (one, rest) refl

  module _ (room : 0 < buffer_length sample_size)
      (p₀ : Profiler fs.File backend.Frame platform.SigAction) where
    run_actions-EachCounts :
        (actions : List (Action backend.Frame)) (samples : Samples) (w : Proc)
        → NamedActions actions
        → (let instance key = frames_key backend finish in
            (q : UnresolvedFrames backend.Frame) → weight q samples + length actions < half_word)
        → Counts fs backend platform sample_size frame_pointer d layout finish p₀ samples w
        → Returns (run_actions actions w) (EachCounts p₀.blocklist_segments samples actions)
    unfolding run_actions
    run_actions-EachCounts [] samples w named few h = ([], refl, tt)
    run_actions-EachCounts (signalled event ∷ actions) samples w (named, rest) few h =
        let instance key = frames_key backend finish in
        let (w', run, grown) =
          handler-Counts fs backend platform sample_size frame_pointer d layout finish room p₀ event
            samples w named h in
        let new = samples_of backend frame_pointer p₀.blocklist_segments (event ∷ []) in
        let (answers, runs, each) =
          run_actions-EachCounts actions (samples ++ new) w' rest
            (λ q. omega (
              arith,
              few q,
              weight-append q samples new,
              weight-samples_of fs backend platform sample_size frame_pointer d layout finish
                  p₀.blocklist_segments (event ∷ []) q,
            ))
            grown in
        (answers, rw (run, runs) refl, each)
    run_actions-EachCounts (reported now ∷ actions) samples w named few (p, there, kept, stands) =
        let instance key = frames_key backend finish in
        let (r, read, exact) =
          try_iter-IsExact fs layout sample_size p.profile_data samples stands in
        let (answer, reports, histogram) =
          merged fs backend layout sample_size finish samples (report_timing (some timer) now)
            p.profile_data r (λ q. omega (arith, few q)) read exact in
        let (answers, runs, each) =
          run_actions-EachCounts actions samples w named (λ q. omega (arith, few q))
            (p, there, kept, stands) in
        let made : build_unresolved fs backend layout sample_size finish
              (profile_data_of fs backend platform sample_size frame_pointer d layout finish
                w.profiler)
              (report_timing (some timer) now)
            ≡ returns answer =
          rw there reports in
        (answer ∷ answers, both made runs, (histogram, each))

  -- From a new profiler on an empty file, whose guard could be built: whatever signals come and whatever
  -- reports are made between them, in any order, fewer than 2 ^ 63 of both, all of it returns, provided
  -- that every thread's name ends in its array and that the buffer has room for a sample. Each report is
  -- an error only if the file system has failed. Otherwise it has the guard's timing at its moment, and
  -- its row for each stack of each thread holds exactly the number of the signals before it that found the
  -- lock free, came outside the blocklist of the builder, and gave that stack: a report takes nothing
  -- away from those after it.
  pub session-EachCounts :
      0 < buffer_length sample_size
      → (b : ProfilerGuardBuilder) (start_time start_instant errno : ℕ) (os₀ os : platform.Os)
        (p : Profiler fs.File backend.Frame platform.SigAction)
        (w : World fs backend platform sample_size frame_pointer d)
        (actions : List (Action backend.Frame))
      → ((f : fs.File) → (platform.new_file os₀).0 ≡ ok f → fs.contents f ≡ [])
      → Profiler.new fs backend platform sample_size frame_pointer d os₀ ≡ (ok p, os)
      → build fs backend platform sample_size frame_pointer d b start_time start_instant (ok p, os)
        ≡ (guard timer, w)
      → NamedActions actions
      → length actions < half_word
      → Returns
          (run_actions actions (record { locked = false; profiler = w.0; errno = errno }))
          (EachCounts b.blocklist_segments [] actions)
  session-EachCounts room b start_time start_instant errno os₀ os p w actions empty new_one built
        named few =
      let (idle, made, set, now_own) =
        subst
          (Builds fs backend platform sample_size frame_pointer d b start_time start_instant p os)
          built
          (build-Builds fs backend platform sample_size frame_pointer d b start_time start_instant p
            os) in
      run_actions-EachCounts room
        (running_profiler fs backend platform sample_size frame_pointer d layout finish b p os)
        actions [] (record { locked = false; profiler = w.0; errno = errno }) named
        (λ q. omega (arith, few))
        (
          running_profiler fs backend platform sample_size frame_pointer d layout finish b p os,
          set,
          refl,
          inl (
              new-Fresh fs backend platform sample_size frame_pointer d layout finish os₀ os p empty
                new_one),
        )
