-- ===== src/System/Signals.antt =====
-- The handler of src/profiler.rs at one signal after the other: what the profiler's data then stand for.
use mathlib.Core.List.{append_assoc, append-nil}
use strict_pprof_rs.Base.{
  ℕ, ◌++◌, ◌≡◌, ◌≤◌, ◌<◌, ◌⊎◌, inl, inr, refl, sym, ◌∙◌, ap, subst, Bool, true, false, List, [],
  ◌∷◌, ok, Returns, returns, ◌||◌, length, take, Bool-cases, leb_of_le,
}
use strict_pprof_rs.Collector.Bucket.{Entry}
use strict_pprof_rs.Collector.TempArray.{TempFiles, Layout, buffer_length}
use strict_pprof_rs.Collector.Combined.Exact.{Stands}
use strict_pprof_rs.Frames
use strict_pprof_rs.Frames.{Backend, UnresolvedFrames, max_depth, max_thread_name}
use strict_pprof_rs.Frames.Equal.{frames_key}
use strict_pprof_rs.Profiler.{Platform, Profiler}
use strict_pprof_rs.Profiler.Handler.{
  Surroundings, Process, perf_signal_handler, interrupted, unblocked, Sampled, handler-Sampled,
}
use strict_pprof_rs.System.{Event, name_of, IsNamed, AllNamed, sample_of, samples_of, handle_all}

new-sample_of :
    (backend : Backend) (frame_pointer : Bool) (segments : List (ℕ × ℕ))
    (env : Surroundings backend.Frame)
    → length (name_of env) ≤ max_thread_name
    → Frames.new
        (take max_depth (unblocked backend frame_pointer segments env.walk))
        (name_of env)
        env.current_thread
        env.now
      ≡ returns (sample_of backend frame_pointer segments env)
unfolding Frames.new
new-sample_of backend frame_pointer segments env fits =
    rw (leb_of_le (length (name_of env)) max_thread_name fits) refl

module _ (fs : TempFiles) (backend : Backend) (platform : Platform fs) (sample_size : ℕ)
    (frame_pointer : Bool) (d : UnresolvedFrames backend.Frame)
    (layout : Layout fs.Byte (Entry (UnresolvedFrames backend.Frame))) (finish : List ℕ → ℕ) where
  abbrev pub Prof : Type 0
  Prof = Profiler fs.File backend.Frame platform.SigAction

  abbrev pub Proc : Type 0
  Proc = Process fs.File backend.Frame platform.SigAction

  abbrev Samples : Type 0
  Samples = List (Entry (UnresolvedFrames backend.Frame))

  -- The profiler is as `p₀` was, but for its data and its counter.
  abbrev pub HasSettings : Prof → Prof → Type 0
  HasSettings p₀ p =
      p ≡ record p₀ { profile_data = p.profile_data; sample_counter = p.sample_counter }

  -- The process has a profiler with these settings, whose data stands for the samples.
  abbrev pub Counts : Prof → Samples → Proc → Type 0
  Counts p₀ samples w =
      let instance key = frames_key backend finish in
      (p : Prof) × (w.profiler ≡ ok p)
      × HasSettings p₀ p
      × Stands fs layout sample_size p.profile_data samples

  module _ (room : 0 < buffer_length sample_size) (p₀ : Prof) where
    abbrev segments : List (ℕ × ℕ)
    segments = p₀.blocklist_segments

    abbrev pub Grown : Event backend.Frame → Samples → Proc → Type 0
    Grown event samples =
        Counts p₀ (samples ++ samples_of backend frame_pointer segments (event ∷ []))

    passed_over :
        (event : Event backend.Frame) (samples : Samples) (w' : Proc)
        → event.0 || interrupted event.1.ucontext segments ≡ true
        → Counts p₀ samples w'
        → Grown event samples w'
    passed_over event samples w' over h = rw (over, append-nil) h

    sampled :
        (event : Event backend.Frame) (samples : Samples) (w' : Proc) (p p' : Prof)
        → event.0 || interrupted event.1.ucontext segments ≡ false
        → length (name_of event.1) ≤ max_thread_name
        → HasSettings p₀ p
        → w'.profiler ≡ ok p'
        → Sampled fs backend platform sample_size frame_pointer d layout finish event.1
            (name_of event.1)
            samples
            p
            p'
        → Grown event samples w'
    sampled event samples w' p p' clear fits kept there s =
        let same : p.blocklist_segments ≡ segments = ap (λ (q : Prof). q.blocklist_segments) kept in
        let made : returns s.taken ≡ returns (sample_of backend frame_pointer segments event.1) =
          sym s.made ∙ rw same (new-sample_of backend frame_pointer segments event.1 fits) in
        let taken : s.taken ≡ sample_of backend frame_pointer segments event.1 = cc in
        let grown =
          subst
            (λ u.
              let instance key = frames_key backend finish in
              Stands fs layout sample_size p'.profile_data
                (samples ++ record { item = u; count = 1 } ∷ []))
            taken s.stands in
        let settings : HasSettings p₀ p' =
          s.kept
          ∙ ap
              (λ (q : Prof). record q {
                profile_data = p'.profile_data;
                sample_counter = p'.sample_counter;
              })
              kept in
        (p', there, settings, rw clear grown)

    -- One signal.
    pub handler-Counts :
        (event : Event backend.Frame) (samples : Samples) (w : Proc)
        → IsNamed event.1
        → Counts p₀ samples w
        → Returns
            (perf_signal_handler fs backend platform sample_size frame_pointer d layout finish
              event.1
              (record w { locked = event.0 }))
            (Grown event samples)
    handler-Counts event samples w (ends, fits) (p, there, kept, stands) =
        let (w', run, (_, outcome)) =
          handler-Sampled fs backend platform sample_size frame_pointer d layout finish room event.1
            (name_of event.1) ends fits p samples stands (record w { locked = event.0 }) there in
        (w', run, by_outcome w' outcome)
      where
        by_outcome :
            (w' : Proc)
            → (event.0 || interrupted event.1.ucontext p.blocklist_segments ≡ true)
                × (w' ≡ record w { locked = event.0 })
              ⊎ (event.0 || interrupted event.1.ucontext p.blocklist_segments ≡ false)
                × (p' : Prof) × (w' ≡ record w { locked = event.0; profiler = ok p' })
                × Sampled fs backend platform sample_size frame_pointer d layout finish event.1
                    (name_of event.1)
                    samples
                    p
                    p'
            → Grown event samples w'
        by_outcome w' (inl (over, still)) =
            passed_over event samples w' (rw (ap (λ (q : Prof). q.blocklist_segments) kept) at over)
              (p, ap (λ (v : Proc). v.profiler) still ∙ there, kept, stands)
        by_outcome w' (inr (clear, p', set, s)) =
            sampled event samples w' p p'
              (rw (ap (λ (q : Prof). q.blocklist_segments) kept) at clear) fits kept
              (ap (λ (v : Proc). v.profiler) set) s

    pub samples_of-cons :
        (event : Event backend.Frame) (events : List (Event backend.Frame))
        → samples_of backend frame_pointer segments (event ∷ [])
            ++ samples_of backend frame_pointer segments events
          ≡ samples_of backend frame_pointer segments (event ∷ events)
    samples_of-cons event events =
        elim (Bool-cases (event.0 || interrupted event.1.ucontext segments)) [
          | inl over ↦ rw over refl
          | inr clear ↦ rw clear refl
        ]

    -- All signals, one after the other.
    pub handle_all-Counts :
        (events : List (Event backend.Frame)) (samples : Samples) (w : Proc)
        → AllNamed events
        → Counts p₀ samples w
        → Returns
            (handle_all fs backend platform sample_size frame_pointer d layout finish events w)
            (Counts p₀ (samples ++ samples_of backend frame_pointer segments events))
    unfolding handle_all
    handle_all-Counts [] samples w named h = (w, refl, rw append-nil h)
    handle_all-Counts (event ∷ events) samples w (named, rest) h =
        let (w', run, grown) = handler-Counts event samples w named h in
        let (w'', runs, counts) =
          handle_all-Counts events
            (samples ++ samples_of backend frame_pointer segments (event ∷ [])) w' rest grown in
        (w'', rw (run, runs), rw (append_assoc, samples_of-cons event events) at counts)
