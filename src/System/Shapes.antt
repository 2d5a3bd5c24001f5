-- ===== src/System/Shapes.antt =====
-- The fixed sizes of src/frames.rs over a whole profile: `MAX_DEPTH` frames at most, and a name inside an
-- array of `MAX_THREAD_NAME` bytes.
use strict_pprof_rs.Base.{
  ℕ, ◌≡◌, ◌≤◌, ◌<◌, inl, inr, refl, Bool, false, List, [], ◌∷◌, ◌++◌, arith, Result, ok, err,
  Returns, ◌||◌, ◌&&◌, ◌==◌, not, leb, leb_of_le, length, take, drop, replicate, length-append,
  length-drop, length-replicate, length-take, Bool-cases,
}
use strict_pprof_rs.Timer.{Timer}
use strict_pprof_rs.Collector.Bucket.{Entry}
use strict_pprof_rs.Collector.Bucket.Hits.{hits}
use strict_pprof_rs.Collector.TempArray.{TempFiles, Layout, buffer_length}
use strict_pprof_rs.Collector.Combined.{try_iter}
use strict_pprof_rs.Collector.Combined.Exact.{IsReliable, IsExact, try_iter-IsExact}
use strict_pprof_rs.Frames.{Backend, UnresolvedFrames, max_depth, max_thread_name}
use strict_pprof_rs.Frames.Equal.{frames_key}
use strict_pprof_rs.Profiler
use strict_pprof_rs.Profiler.{Platform, Profiler}
use strict_pprof_rs.Profiler.Handler.{Surroundings, interrupted, unblocked}
use strict_pprof_rs.Profiler.Guard.{ProfilerGuardBuilder, guard, World, build}
use strict_pprof_rs.System.{Event, name_of, AllNamed, sample_of, samples_of, handle_all}
use strict_pprof_rs.System.Session.{session-Counts}

-- The sample is inside its fixed sizes.
abbrev pub Fits : {Frame : Type 0} → UnresolvedFrames Frame → Type 0
Fits u =
    (length u.frames ≤ max_depth)
    × (length u.thread_name ≡ max_thread_name)
    × (u.thread_name_length ≤ max_thread_name)

abbrev pub AllFit : {Frame : Type 0} → List (Entry (UnresolvedFrames Frame)) → Type 0
AllFit [] = Unit
AllFit (e ∷ es) = Fits e.item × AllFit es

abbrev misfit : {Frame : Type 0} → UnresolvedFrames Frame → Bool
misfit u = not (
    leb (length u.frames) max_depth
    && (length u.thread_name == max_thread_name)
    && leb u.thread_name_length max_thread_name)

AllFit-hits :
    {Frame : Type 0} (es : List (Entry (UnresolvedFrames Frame))) → hits misfit es ≤ 0 → AllFit es
AllFit-hits [] h = tt
AllFit-hits (e ∷ es) h =
    let rest = AllFit-hits es (ground (arith, h)) in
    let one : Fits e.item = ground (arith, h) in (one, rest)

module _ (backend : Backend) (frame_pointer : Bool) (segments : List (ℕ × ℕ)) where
  sample_of-Fits :
      (env : Surroundings backend.Frame)
      → length (name_of env) ≤ max_thread_name
      → misfit (sample_of backend frame_pointer segments env) ≡ false
  sample_of-Fits env fits =
      let frames = unblocked backend frame_pointer segments env.walk in
      let rest = drop (length (name_of env)) (replicate max_thread_name 0) in
      let width : length (name_of env ++ rest) ≡ max_thread_name = omega (
        arith,
        length-append (name_of env) rest,
        length-drop {A = ℕ} (length (name_of env)) (replicate max_thread_name 0),
        length-replicate {A = ℕ} max_thread_name 0,
        fits,
      ) in
      rw
        (
          leb_of_le (length (take max_depth frames)) max_depth
              (omega (arith, length-take max_depth frames)),
          width,
          leb_of_le (length (name_of env)) max_thread_name fits,
        )
        refl

  hits-samples_of :
      (events : List (Event backend.Frame))
      → AllNamed events
      → hits misfit (samples_of backend frame_pointer segments events) ≡ 0
  hits-samples_of [] named = refl
  hits-samples_of (event ∷ events) ((ends, fits), named) =
      let rest = hits-samples_of events named in
      elim (Bool-cases (event.0 || interrupted event.1.ucontext segments)) [
        | inl over ↦ rw over rest
        | inr clear ↦ rw (clear, sample_of-Fits event.1 fits) (omega (arith, rest))
      ]

module _ (fs : TempFiles) (backend : Backend) (platform : Platform fs) (sample_size : ℕ)
    (frame_pointer : Bool) (d : UnresolvedFrames backend.Frame)
    (layout : Layout fs.Byte (Entry (UnresolvedFrames backend.Frame))) (finish : List ℕ → ℕ) where
  -- What is read from the data: an error, which a reliable file system never causes, or samples that
  -- all fit.
  abbrev pub ReadsFit : Result ℕ (List (Entry (UnresolvedFrames backend.Frame))) → Type 0
  ReadsFit (err e) = ¬ IsReliable fs
  ReadsFit (ok es) = AllFit es

  -- After any signals to a guard on a new profiler with an empty file, there is a profiler, and its data can be read:
  -- every sample that is read, whether it was counted in memory or came back from the file, has
  -- `MAX_DEPTH` frames at most, a name array of exactly `MAX_THREAD_NAME` bytes, and a name's length
  -- inside it, provided that every thread's name ends in its array and that the buffer has room for a
  -- sample. Only where the file system has failed is the read an error.
  pub session-Fits :
      0 < buffer_length sample_size
      → (b : ProfilerGuardBuilder) (start_time start_instant errno : ℕ) (os₀ os : platform.Os)
        (p : Profiler fs.File backend.Frame platform.SigAction) (timer : Timer)
        (w : World fs backend platform sample_size frame_pointer d)
        (events : List (Event backend.Frame))
      → ((f : fs.File) → (platform.new_file os₀).0 ≡ ok f → fs.contents f ≡ [])
      → Profiler.new fs backend platform sample_size frame_pointer d os₀ ≡ (ok p, os)
      → build fs backend platform sample_size frame_pointer d b start_time start_instant (ok p, os)
        ≡ (guard timer, w)
      → AllNamed events
      → Returns
          (handle_all fs backend platform sample_size frame_pointer d layout finish events
            (record { locked = false; profiler = w.0; errno = errno }))
          (λ w'.
            let instance key = frames_key backend finish in
            (p' : Profiler fs.File backend.Frame platform.SigAction) × (w'.profiler ≡ ok p')
            × Returns (try_iter fs layout sample_size p'.profile_data) ReadsFit)
  session-Fits room b start_time start_instant errno os₀ os p timer w events empty new_one built
        named =
      let instance key = frames_key backend finish in
      let samples = samples_of backend frame_pointer b.blocklist_segments events in
      let (w', run, (p', there, kept, stands)) =
        session-Counts fs backend platform sample_size frame_pointer d layout finish room b
          start_time start_instant errno os₀ os p timer w events empty new_one built named in
      let (r, read, exact) =
        try_iter-IsExact fs layout sample_size p'.profile_data samples stands in
      (w', run, (p', there, (r, read, by_read r exact)))
    where
      by_read :
          (r : Result ℕ (List (Entry (UnresolvedFrames backend.Frame))))
          → (let instance key = frames_key backend finish in
              IsExact fs layout sample_size
                (samples_of backend frame_pointer b.blocklist_segments events)
                r)
          → ReadsFit r
      by_read (err e) exact = exact
      by_read (ok es) (exact, given) =
          let none_bad = hits-samples_of backend frame_pointer b.blocklist_segments events named in
          AllFit-hits es (omega (arith, given misfit, none_bad))
