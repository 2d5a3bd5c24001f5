-- ===== src/Profiler/Handler.antt =====
-- `perf_signal_handler` of src/profiler.rs. What it finds when the signal comes (the interrupted
-- program counter, the thread, the time, the frames that the unwinder would walk) is a parameter.
use strict_pprof_rs.Base.{
  ℕ, zero, suc, ◌+◌, ◌%◌, ◌^◌, ◌≤◌, ◌<◌, ◌≡◌, ◌⊎◌, inl, inr, refl, Bool, true, false, Option, none,
  some, List, [], ◌∷◌, ◌++◌, arith, Result, ok, err, Run, Returns, returns, panics, ◌>>=◌, ltb,
  ◌||◌, ◌&&◌, if◌then◌else◌, length, take, Bool-cases,
}
use strict_pprof_rs.Error.{Error}
use strict_pprof_rs.Collector.Bucket.{Entry}
use strict_pprof_rs.Collector.TempArray.{TempFiles, Layout, buffer_length}
use strict_pprof_rs.Collector.Combined.Exact.{Stands, add-Stands}
use strict_pprof_rs.Frames
use strict_pprof_rs.Frames.{Backend, UnresolvedFrames, max_depth, max_thread_name}
use strict_pprof_rs.Frames.Equal.{frames_key, new-name}
use strict_pprof_rs.Profiler.{Platform, Profiler, is_blocklisted, sample}
use strict_pprof_rs.Profiler.Thread.{write_thread_name_fallback, c_str, zeros}

-- What there is when the signal comes. `thread_name` is what `pthread_getname_np` writes, if it does;
-- `errno_behind` is the error number that the calls of the handler leave behind.
pub record Surroundings (Frame : Type 0) : Type 0 where
  pub ucontext : Option ℕ
  pub walk : List Frame
  pub now : ℕ
  pub current_thread : ℕ
  pub thread_name : Option (List ℕ)
  pub errno_behind : ℕ

-- The process: whether some thread holds the profiler's lock, the profiler, and `errno`.
pub record Process (File Frame SigAction : Type 0) : Type 0 where
  pub locked : Bool
  pub profiler : Result Error (Profiler File Frame SigAction)
  pub errno : ℕ

-- `write_thread_name`, on the empty array.
unfoldable pub write_thread_name : {Frame : Type 0} → Surroundings Frame → List ℕ
write_thread_name env = elim env.thread_name [
  | some name ↦ name
  | none ↦ write_thread_name_fallback env.current_thread zeros
]

module _ (backend : Backend) (frame_pointer : Bool) where
  open backend use {Frame, ip}

  -- The callback under `TraceImpl::trace`, on the frames that are left, `index` of them being taken.
  -- The walk ends where it answers false.
  unfoldable pub collect : List (ℕ × ℕ) → ℕ → List Frame → List Frame
  collect segments index [] = []
  collect segments index (frame ∷ rest) =
      let further = collect segments (index + 1) rest in
      if frame_pointer && is_blocklisted segments (ip frame)
      then []
      else if ltb index max_depth
      then frame ∷ further
      else []

  -- The frames before the first that is on the blocklist, where that is looked at.
  abbrev pub unblocked : List (ℕ × ℕ) → List Frame → List Frame
  unblocked segments [] = []
  unblocked segments (frame ∷ rest) =
      if frame_pointer && is_blocklisted segments (ip frame)
      then []
      else frame ∷ unblocked segments rest

  pub collect-take :
      (segments : List (ℕ × ℕ)) (index left : ℕ) (fs : List Frame)
      → index + left ≡ max_depth
      → collect segments index fs ≡ take left (unblocked segments fs)
  unfolding collect
  collect-take segments index zero [] h = refl
  collect-take segments index (suc left) [] h = refl
  collect-take segments index zero (f ∷ fs) h = ground arith
  collect-take segments index (suc left) (f ∷ fs) h =
      let rest = collect-take segments (index + 1) left fs (omega arith) in ground (arith, rest)

-- `profiler.is_blocklisted(addr)` for the interrupted address, if there is a context.
abbrev pub interrupted : Option ℕ → List (ℕ × ℕ) → Bool
interrupted none segments = false
interrupted (some addr) segments = is_blocklisted segments addr

module _ (fs : TempFiles) (backend : Backend) (platform : Platform fs) (sample_size : ℕ)
    (frame_pointer : Bool) (d : UnresolvedFrames backend.Frame)
    (layout : Layout fs.Byte (Entry (UnresolvedFrames backend.Frame))) (finish : List ℕ → ℕ) where
  abbrev pub Proc : Type 0
  Proc = Process fs.File backend.Frame platform.SigAction

  -- Under the lock. A name without NUL would be read past its array: no run survives that.
  take_sample :
      Surroundings backend.Frame
      → Profiler fs.File backend.Frame platform.SigAction
      → Run (Profiler fs.File backend.Frame platform.SigAction)
  take_sample env p =
      let bt = collect backend frame_pointer p.blocklist_segments 0 env.walk in
      elim (c_str (write_thread_name env)) [
        | none ↦ panics
        | some name ↦
            sample fs backend platform sample_size frame_pointer d layout finish p bt name
              env.current_thread env.now
      ]

  -- `perf_signal_handler`. `ErrnoProtector` puts the error number back on every way out.
  pub perf_signal_handler : Surroundings backend.Frame → Proc → Run Proc
  perf_signal_handler env w =
      let errno = w.errno in
      if w.locked then returns (record w { errno = errno }) else elim w.profiler [
        | err _ ↦ returns (record w { errno = errno })
        | ok p ↦
            if interrupted env.ucontext p.blocklist_segments
            then returns (record w { errno = errno })
            else take_sample env p >>= λ p'.
                let behind : Proc = record w { profiler = ok p'; errno = env.errno_behind } in
                returns (record behind { errno = errno })
      ]

  -- One sample of `env` has been taken from `p` to `p'`.
  pub record Sampled (env : Surroundings backend.Frame) (name : List ℕ)
      (samples : List (Entry (UnresolvedFrames backend.Frame)))
      (p p' : Profiler fs.File backend.Frame platform.SigAction) : Type 0 where
    pub taken : UnresolvedFrames backend.Frame
    pub made :
        Frames.new
          (take max_depth (unblocked backend frame_pointer p.blocklist_segments env.walk))
          name
          env.current_thread
          env.now
        ≡ returns taken
    pub counted : p'.sample_counter ≡ (p.sample_counter + 1) % 2 ^ 32
    pub stands :
        let instance key = frames_key backend finish in
        Stands fs layout sample_size p'.profile_data
          (samples ++ record { item = taken; count = 1 } ∷ [])
    pub kept : p' ≡ record p { profile_data = p'.profile_data; sample_counter = p'.sample_counter }

  module _ (room : 0 < buffer_length sample_size) (env : Surroundings backend.Frame) (name : List ℕ)
      (terminated : c_str (write_thread_name env) ≡ some name)
      (fits : length name ≤ max_thread_name) (p : Profiler fs.File backend.Frame platform.SigAction)
      (samples : List (Entry (UnresolvedFrames backend.Frame)))
      (stands : let instance key = frames_key backend finish in
        Stands fs layout sample_size p.profile_data samples) where
    abbrev taken_frames : List backend.Frame
    taken_frames = take max_depth (unblocked backend frame_pointer p.blocklist_segments env.walk)

    new-some :
        (u : UnresolvedFrames backend.Frame) × (Frames.new taken_frames name env.current_thread
            env.now
          ≡ returns u)
    new-some = elim (new-name taken_frames name env.current_thread env.now) [
      | inl (_, (u, made, _)) ↦ (u, made)
      | inr (long, _) ↦ absurd (omega (arith, long, fits))
    ]

    take_sample-Sampled : Returns (take_sample env p) (Sampled env name samples p)
    unfolding take_sample sample
    take_sample-Sampled =
        let instance key = frames_key backend finish in
        let (u, made) = new-some in
        let (r, run, s) =
          add-Stands fs layout sample_size room p.profile_data samples
            (record { item = u; count = 1 }) stands in
        let all =
          collect-take backend frame_pointer p.blocklist_segments 0 max_depth env.walk
            (omega arith) in
        (
          record p { profile_data = r.1; sample_counter = (p.sample_counter + 1) % 2 ^ 32 },
          rw (take_sample, terminated, all, sample, made, run),
          record { taken = u; made = made; counted = refl; stands = s; kept = refl },
        )

    -- If no thread holds the lock, there is a profiler, and the interrupted code is not on the
    -- blocklist, the handler takes one sample: of the frames in front of the first that is blocked
    -- (where frames are looked at), the first `MAX_DEPTH`. Otherwise it changes nothing. It always
    -- returns, with the error number that it found; a thread's name must end within its array,
    -- the buffer of the collector must have room for a sample, and the collector must stand for the
    -- samples before, or have failed to write; with the new sample it still does.
    pub handler-Sampled :
        (w : Proc)
        → w.profiler ≡ ok p
        → Returns (perf_signal_handler env w) (λ w'.
          (w'.errno ≡ w.errno)
          × ((w.locked || interrupted env.ucontext p.blocklist_segments ≡ true) × (w' ≡ w)
              ⊎ (w.locked || interrupted env.ucontext p.blocklist_segments ≡ false)
                × (p' : Profiler fs.File backend.Frame platform.SigAction) × (w'
                    ≡ record w { profiler = ok p' })
                × Sampled env name samples p p'))
    unfolding perf_signal_handler
    handler-Sampled w there = elim (Bool-cases (w.locked)) [
      | inl busy ↦ (w, ground (arith, busy), (refl, inl (ground (arith, busy), refl)))
      | inr free ↦ elim (Bool-cases (interrupted env.ucontext p.blocklist_segments)) [
        | inl blocked ↦ (
          w,
          ground (arith, free, there, blocked),
          (refl, inl (ground (arith, free, blocked), refl)),
        )
        | inr clear ↦
            let (p', run, sampled) = take_sample-Sampled in
            (
              record w { profiler = ok p' },
              ground (arith, free, there, clear, run),
              (refl, inr (ground (arith, free, clear), p', refl, sampled)),
            )
      ]
    ]
