-- ===== src/System/Session.antt =====
-- A guard on a profiler that has counted nothing, and the signals that come while it lives (src/profiler.rs).
use strict_pprof_rs.Base.{
  ℕ, some, ◌≡◌, ◌<◌, inl, refl, ap, subst, Bool, true, false, none, List, [], Result, ok, err,
  Returns,
}
use strict_pprof_rs.Error.{io_error}
use strict_pprof_rs.Timer.{Timer}
use strict_pprof_rs.Collector.Bucket.{Entry}
use strict_pprof_rs.Collector.TempArray.{TempFiles, Layout, buffer_length, IoError}
use strict_pprof_rs.Collector.TempArray
use strict_pprof_rs.Collector.Combined
use strict_pprof_rs.Collector.Combined.{Collector}
use strict_pprof_rs.Collector.Combined.Sound.{Collects}
use strict_pprof_rs.Collector.Combined.Exact.{new-Collects}
use strict_pprof_rs.Frames.{Backend, UnresolvedFrames}
use strict_pprof_rs.Frames.Equal.{frames_key}
use strict_pprof_rs.Profiler
use strict_pprof_rs.Profiler.{Platform, Profiler}
use strict_pprof_rs.Profiler.Guard.{
  ProfilerGuardBuilder, guard, World, configured, build, Builds, build-Builds,
}
use strict_pprof_rs.System.Signals.{Counts, handle_all-Counts}
use strict_pprof_rs.System.{Event, AllNamed, samples_of, handle_all, profile_data_of}

module _ (fs : TempFiles) (backend : Backend) (platform : Platform fs) (sample_size : ℕ)
    (frame_pointer : Bool) (d : UnresolvedFrames backend.Frame)
    (layout : Layout fs.Byte (Entry (UnresolvedFrames backend.Frame))) (finish : List ℕ → ℕ) where
  abbrev pub Fresh : Profiler fs.File backend.Frame platform.SigAction → Type 0
  Fresh p =
      let instance key = frames_key backend finish in
      Collects fs layout sample_size p.profile_data []

  -- A new profiler has counted nothing.
  pub new-Fresh :
      (os os' : platform.Os) (p : Profiler fs.File backend.Frame platform.SigAction)
      → ((f : fs.File) → (platform.new_file os).0 ≡ ok f → fs.contents f ≡ [])
      → Profiler.new fs backend platform sample_size frame_pointer d os ≡ (ok p, os')
      → Fresh p
  unfolding Profiler.new Combined.new TempArray.new
  new-Fresh os os' p empty made =
      let instance key = frames_key backend finish in
      by_opened (platform.new_file os).0 refl (ap (λ x. x.0) made)
    where
      by_collector :
          (c : Collector fs.File (UnresolvedFrames backend.Frame))
          → (let instance key = frames_key backend finish in Collects fs layout sample_size c [])
          → (o : Result IoError (Collector fs.File (UnresolvedFrames backend.Frame))) → o ≡ ok c
          → (elim o [
            | err e ↦ err (io_error e)
            | ok collector ↦ ok (record {
              profile_data = collector;
              sample_counter = 0;
              old_sigaction = none;
              is_running = false;
              on_stack = false;
              blocklist_segments = [];
            })
          ])
            ≡ ok p
          → Fresh p
      by_collector c h (err e) same k = absurd (cc)
      by_collector c h (ok c') same k =
          let held : ok c' ≡ ok p.profile_data =
            ap (profile_data_of fs backend platform sample_size frame_pointer d layout finish) k in
          let it : c ≡ p.profile_data = cc in
          let instance key = frames_key backend finish in
          subst (λ x. Collects fs layout sample_size x []) it h

      by_opened :
          (r : Result IoError fs.File)
          → (platform.new_file os).0 ≡ r
          → (elim (Combined.new sample_size d r) [
            | err e ↦ err (io_error e)
            | ok collector ↦ ok (record {
              profile_data = collector;
              sample_counter = 0;
              old_sigaction = none;
              is_running = false;
              on_stack = false;
              blocklist_segments = [];
            })
          ])
            ≡ ok p
          → Fresh p
      by_opened (err e) opened k = absurd (cc)
      by_opened (ok f) opened k =
          let instance key = frames_key backend finish in
          let (c, made_c, start) = new-Collects fs layout sample_size d f (empty f opened) in
          by_collector c start (Combined.new sample_size d (ok f)) made_c k

  -- The profiler that runs after a guard has been built on `p`.
  abbrev pub running_profiler :
      ProfilerGuardBuilder
      → Profiler fs.File backend.Frame platform.SigAction
      → platform.Os
      → Profiler fs.File backend.Frame platform.SigAction
  running_profiler b p os =
      record (configured fs backend platform sample_size frame_pointer d b p) {
        old_sigaction = some (platform.installed os);
        is_running = true;
      }

  -- After a guard has been built on a profiler that has counted nothing, the handler returns at each
  -- signal, and the profiler then stands for the samples of those that count.
  pub guard-Counts :
      0 < buffer_length sample_size
      → (b : ProfilerGuardBuilder) (start_time start_instant errno : ℕ) (os : platform.Os)
        (p : Profiler fs.File backend.Frame platform.SigAction) (timer : Timer)
        (w : World fs backend platform sample_size frame_pointer d)
        (events : List (Event backend.Frame))
      → Fresh p
      → Builds fs backend platform sample_size frame_pointer d b start_time start_instant p os
          (guard timer, w)
      → AllNamed events
      → Returns
          (handle_all fs backend platform sample_size frame_pointer d layout finish events
            (record { locked = false; profiler = w.0; errno = errno }))
          (Counts fs backend platform sample_size frame_pointer d layout finish
            (running_profiler b p os)
            (samples_of backend frame_pointer b.blocklist_segments events))
  guard-Counts room b start_time start_instant errno os p timer w events fresh (idle, same, set, _)
        named =
      handle_all-Counts fs backend platform sample_size frame_pointer d layout finish room
        (running_profiler b p os) events []
        (record { locked = false; profiler = w.0; errno = errno }) named
        (running_profiler b p os, set, refl, inl fresh)

  -- The same for a new profiler.
  pub session-Counts :
      0 < buffer_length sample_size
      → (b : ProfilerGuardBuilder) (start_time start_instant errno : ℕ) (os₀ os : platform.Os)
        (p : Profiler fs.File backend.Frame platform.SigAction) (timer : Timer)
        (w : World fs backend platform sample_size frame_pointer d)
        (events : List (Event backend.Frame))
      → ((f : fs.File) → (platform.new_file os₀).0 ≡ ok f → fs.contents f ≡ [])
      → Profiler.new fs backend platform sample_size frame_pointer d os₀ ≡ (ok p, os)
      → build fs backend platform sample_size frame_pointer d b start_time start_instant (ok p, os)
        ≡ (guard timer, w)
      → AllNamed events
      → Returns
          (handle_all fs backend platform sample_size frame_pointer d layout finish events
            (record { locked = false; profiler = w.0; errno = errno }))
          (Counts fs backend platform sample_size frame_pointer d layout finish
            (running_profiler b p os)
            (samples_of backend frame_pointer b.blocklist_segments events))
  session-Counts room b start_time start_instant errno os₀ os p timer w events empty new_one built
        named =
      guard-Counts room b start_time start_instant errno os p timer w events
        (new-Fresh os₀ os p empty new_one)
        (subst
          (Builds fs backend platform sample_size frame_pointer d b start_time start_instant p os)
          built
          (build-Builds fs backend platform sample_size frame_pointer d b start_time start_instant p
            os))
        named
