-- ===== src/System/Sequence.antt =====
-- Profiles of src that a program makes one after the other: each builds a guard, gets signals, makes its
-- report, and drops the guard.
use strict_pprof_rs.Base.{
  ℕ, ◌-◌, ◌≡◌, ◌≢◌, ◌<◌, inl, inr, refl, sym, ◌∙◌, ap, subst, Bool, true, false, some, List, [],
  ◌∷◌, arith, Result, ok, err, Run, Returns, returns, panics, ◌>>=◌, length, half_word,
}
use strict_pprof_rs.Base.Int.{pos}
use strict_pprof_rs.Error.{Error, creating_error, running, not_running, io_error, nix_error}
use strict_pprof_rs.Timer.{Timer, ReportTiming}
use strict_pprof_rs.Timer as Timers
use strict_pprof_rs.Collector.Bucket.{Entry}
use strict_pprof_rs.Collector.TempArray.{TempFiles, Layout, buffer_length}
use strict_pprof_rs.Collector.Combined.Sound.{Collects}
use strict_pprof_rs.Collector.Combined.Exact.{new-Collects, try_iter-IsExact}
use strict_pprof_rs.Frames.{Backend, UnresolvedFrames}
use strict_pprof_rs.Frames.Equal.{frames_key}
use strict_pprof_rs.Report.{Report, build_unresolved}
use strict_pprof_rs.Report.Exact.{IsHistogram, merged}
use strict_pprof_rs.Profiler.{Platform, Profiler, Outcome, stop}
use strict_pprof_rs.Profiler.Life.{Stopped, stop-Stopped}
use strict_pprof_rs.Profiler.Owner.{SigactionSucceeds}
use strict_pprof_rs.Profiler.Guard.{
  ProfilerGuardBuilder, Built, guard, failed, panicked, World, build, Builds, build-Builds,
  report_timing, drop_guard,
}
use strict_pprof_rs.System.{Event, AllNamed, samples_of, handle_all, profile_data_of}
use strict_pprof_rs.System.Session.{Fresh, guard-Counts}
use strict_pprof_rs.System.Histogram.{weight-samples_of}

-- What one profile finds: its settings, the times of its start and of its report, the error number, and
-- the signals in between.
pub record Session (Frame : Type 0) : Type 0 where
  pub builder : ProfilerGuardBuilder
  pub start_time : ℕ
  pub start_instant : ℕ
  pub now : ℕ
  pub errno : ℕ
  pub events : List (Event Frame)

module _ (fs : TempFiles) (backend : Backend) (platform : Platform fs) (sample_size : ℕ)
    (frame_pointer : Bool) (d : UnresolvedFrames backend.Frame)
    (layout : Layout fs.Byte (Entry (UnresolvedFrames backend.Frame))) (finish : List ℕ → ℕ) where
  abbrev pub State : Type 0
  State = World fs backend platform sample_size frame_pointer d

  abbrev pub Answer : Type 0
  Answer = Result Error (Report (UnresolvedFrames backend.Frame))

  -- The profile once its guard is there, or is not.
  unfoldable pub observed : Session backend.Frame → Built × State → Run (Answer × State)
  unfolding handle_all
  observed s (failed e, w) = returns (err e, w)
  observed s (panicked, w) = panics
  observed s (guard timer, (r, os)) =
      handle_all fs backend platform sample_size frame_pointer d layout finish s.events
        (record { locked = false; profiler = r; errno = s.errno })
      >>= λ w'.
          build_unresolved fs backend layout sample_size finish
            (profile_data_of fs backend platform sample_size frame_pointer d layout finish
              w'.profiler)
            (report_timing (some timer) s.now)
          >>= λ answer. returns (
            answer,
            drop_guard fs backend platform sample_size frame_pointer d (some timer)
                (w'.profiler, os),
          )

  unfoldable pub run_session : Session backend.Frame → State → Run (Answer × State)
  unfolding observed
  run_session s w = observed s (
      build fs backend platform sample_size frame_pointer d s.builder s.start_time s.start_instant
        w)

  unfoldable pub run_sessions : List (Session backend.Frame) → State → Run (List Answer × State)
  unfolding run_session
  run_sessions [] w = returns ([], w)
  run_sessions (s ∷ ss) w = run_session s w >>= λ (answer, w').
      run_sessions ss w' >>= λ (answers, w''). returns (answer ∷ answers, w'')

  -- There is a profiler that does not run and has counted nothing.
  abbrev pub Ready : State → Type 0
  Ready (r, os) =
      (p : Profiler fs.File backend.Frame platform.SigAction) × (r ≡ ok p)
      × (p.is_running ≡ false)
      × Fresh fs backend platform sample_size frame_pointer d layout finish p

  -- What the profile's timing is to be.
  abbrev pub timing_of : Session backend.Frame → ReportTiming
  timing_of s = record {
    frequency = s.builder.frequency;
    start_time = s.start_time;
    duration = s.now - s.start_instant;
  }

  -- The report of a profile has its own timing, and counts its own samples.
  abbrev pub Reports : Session backend.Frame → Answer → Type 0
  Reports s answer =
      IsHistogram fs backend layout sample_size finish
        (samples_of backend frame_pointer s.builder.blocklist_segments s.events) (timing_of s)
        answer

  abbrev pub AllReport : List (Session backend.Frame) → List Answer → Type 0
  AllReport [] [] = Unit
  AllReport [] (a ∷ rest) = ⊥
  AllReport (s ∷ ss) [] = ⊥
  AllReport (s ∷ ss) (a ∷ rest) = Reports s a × AllReport ss rest

  exact_timing :
      (s : Session backend.Frame) (timer : Timer)
      → timer ≡ record {
        frequency = s.builder.frequency;
        start_time = s.start_time;
        start_instant = s.start_instant;
      }
      → report_timing (some timer) s.now ≡ timing_of s
  unfolding Timers.timing
  exact_timing s timer same = ap (λ t. report_timing (some t) s.now) same

  -- A frequency that is not zero, names that end in their arrays, and fewer than 2 ^ 63 signals.
  abbrev pub IsUsable : Session backend.Frame → Type 0
  IsUsable s = (s.builder.frequency ≢ pos 0) × AllNamed s.events × (length s.events < half_word)

  abbrev pub AllUsable : List (Session backend.Frame) → Type 0
  AllUsable [] = Unit
  AllUsable (s ∷ ss) = IsUsable s × AllUsable ss

  -- Temporary files can be opened, and are new.
  abbrev pub FilesOpen : Type 0
  FilesOpen =
      (os : platform.Os) → (f : fs.File) × ((platform.new_file os).0 ≡ ok f) × (fs.contents f ≡ [])

  module _ (room : 0 < buffer_length sample_size) (answers : SigactionSucceeds platform)
      (opens : FilesOpen) where
    -- What is opened is new.
    opened_empty :
        (os : platform.Os) (f : fs.File) → (platform.new_file os).0 ≡ ok f → fs.contents f ≡ []
    opened_empty os f same =
        let (f', there, empty) = opens os in
        let it : ◌≡◌ {A = fs.File} f' f = cc in ap fs.contents (sym it) ∙ empty

    -- Dropping the guard of a running profiler leaves one that is ready.
    Stopped-Ready :
        (p : Profiler fs.File backend.Frame platform.SigAction) (os : platform.Os)
        (r : Outcome fs backend platform sample_size frame_pointer d)
        → p.is_running ≡ true
        → Stopped fs backend platform sample_size frame_pointer d (p, os) r
        → Ready (ok r.1.0, r.1.1)
    Stopped-Ready p os (ok _, t) busy (_, now, f, c, made, set, (before, opened)) =
        let instance key = frames_key backend finish in
        let (c', made', start) =
          new-Collects fs layout sample_size d f (opened_empty before f opened) in
        let kept : t.0.profile_data ≡ c =
          ap (λ (q : Profiler fs.File backend.Frame platform.SigAction). q.profile_data) set in
        let it : c' ≡ t.0.profile_data = cc in
        (
          t.0,
          refl,
          ap (λ (q : Profiler fs.File backend.Frame platform.SigAction). q.is_running) set,
          subst (λ x. Collects fs layout sample_size x []) it start,
        )
    Stopped-Ready p os (err (io_error e), t) busy (_, now, set, (before, refused)) =
        let (f, there, empty) = opens before in absurd (cc)
    Stopped-Ready p os (err (nix_error e), t) busy h = absurd (answers _ _ e h.5)
    Stopped-Ready p os (err not_running, t) busy h = absurd (cc h.0)
    Stopped-Ready p os (err creating_error, t) busy h = absurd h
    Stopped-Ready p os (err running, t) busy h = absurd h

    drop_guard-Ready :
        (timer : Timer) (p : Profiler fs.File backend.Frame platform.SigAction) (os : platform.Os)
        → p.is_running ≡ true
        → Ready (drop_guard fs backend platform sample_size frame_pointer d (some timer) (ok p, os))
    unfolding drop_guard
    drop_guard-Ready timer p os busy =
        let os' = Timers.drop platform.setitimer os in
        Stopped-Ready p os' (stop fs backend platform sample_size frame_pointer d (p, os')) busy
          (stop-Stopped fs backend platform sample_size frame_pointer d (p, os'))

    observed-Reports :
        (s : Session backend.Frame) (p : Profiler fs.File backend.Frame platform.SigAction)
        (os : platform.Os) (x : Built × State)
        → IsUsable s
        → p.is_running ≡ false
        → Fresh fs backend platform sample_size frame_pointer d layout finish p
        → Builds fs backend platform sample_size frame_pointer d s.builder s.start_time
            s.start_instant p os x
        → Returns (observed s x) (λ (answer, w). Reports s answer × Ready w)
    unfolding observed
    observed-Reports s p os (failed e, w) usable idle fresh (same, kept, inl (_, busy)) =
        absurd (cc)
    observed-Reports s p os (failed e, w) usable idle fresh (same, kept, inr (_, x, _, refused)) =
        absurd (answers _ _ x refused)
    observed-Reports s p os (panicked, w) (nonzero, _, _) idle fresh (_, zero_frequency, _, _) =
        absurd (nonzero zero_frequency)
    observed-Reports s p os (guard timer, (r, os')) (nonzero, named, few) idle fresh built =
        let instance key = frames_key backend finish in
        let samples = samples_of backend frame_pointer s.builder.blocklist_segments s.events in
        let (w', run, (p', there, kept, stands)) =
          guard-Counts fs backend platform sample_size frame_pointer d layout finish room s.builder
            s.start_time s.start_instant s.errno os p timer (r, os') s.events fresh built named in
        let (read_one, read, exact) =
          try_iter-IsExact fs layout sample_size p'.profile_data samples stands in
        let (answer, reported, histogram) =
          merged fs backend layout sample_size finish samples (report_timing (some timer) s.now)
            p'.profile_data read_one
            (λ q. omega (
              arith,
              weight-samples_of fs backend platform sample_size frame_pointer d layout finish
                  s.builder.blocklist_segments s.events q,
              few,
            ))
            read exact in
        let busy : p'.is_running ≡ true =
          ap (λ (q : Profiler fs.File backend.Frame platform.SigAction). q.is_running) kept in
        (
          (
            answer,
            drop_guard fs backend platform sample_size frame_pointer d (some timer) (ok p', os'),
          ),
          rw (run, there, reported) refl,
          (
            subst (λ t. IsHistogram fs backend layout sample_size finish samples t answer)
                (exact_timing s timer built.1) histogram,
            drop_guard-Ready timer p' os' busy,
          ),
        )

    -- One profile.
    run_session-Reports :
        (s : Session backend.Frame) (w : State)
        → IsUsable s
        → Ready w
        → Returns (run_session s w) (λ (answer, w'). Reports s answer × Ready w')
    unfolding run_session
    run_session-Reports s (r, os) usable (p, there, idle, fresh) = rw there (
        observed-Reports s p os
          (build fs backend platform sample_size frame_pointer d s.builder s.start_time
            s.start_instant (ok p, os))
          usable idle fresh
          (build-Builds fs backend platform sample_size frame_pointer d s.builder s.start_time
            s.start_instant p os))

    -- Profiles that follow each other do not see each other: if there is a profiler that does not run
    -- and has counted nothing, calls of `sigaction` succeed, temporary files open and are new, and the
    -- buffer has room for a sample, then any number of profiles return, each with a frequency other
    -- than zero, fewer than 2 ^ 63 signals, and names that end in their arrays. Each report has the
    -- frequency, the start and the duration of its own profile and, for each stack of each thread,
    -- exactly the number of its own signals that count, or it is an error because the file system has
    -- failed; and after the last guard is dropped, the profiler is as ready as it was.
    pub run_sessions-AllReport :
        (ss : List (Session backend.Frame)) (w : State)
        → AllUsable ss
        → Ready w
        → Returns (run_sessions ss w) (λ (reports, w'). AllReport ss reports × Ready w')
    unfolding run_sessions
    run_sessions-AllReport [] w usable ready = (([], w), refl, (tt, ready))
    run_sessions-AllReport (s ∷ ss) w (one, all) ready =
        let ((answer, w'), run, (report, ready')) = run_session-Reports s w one ready in
        let ((reports, w''), runs, (rest, ready'')) = run_sessions-AllReport ss w' all ready' in
        ((answer ∷ reports, w''), rw (run, runs) refl, ((report, rest), ready''))
