-- ===== src/Criterion/Session.antt =====
-- A benchmark of src/criterion.rs from its start to its stop: whether the guard is gone at the end.
use strict_pprof_rs.Base.{
  ℕ, ◌≡◌, ◌⊎◌, inl, inr, refl, sym, ◌∙◌, subst, ap, Option, none, some, List, Bool, Result, ok, err,
}
use strict_pprof_rs.Base.Texts.{Text}
use strict_pprof_rs.Timer.{Timer}
use strict_pprof_rs.Collector.Bucket.{Entry}
use strict_pprof_rs.Collector.TempArray.{IoError, TempFiles, Layout}
use strict_pprof_rs.Frames.{Backend, UnresolvedFrames}
use strict_pprof_rs.Frames.Symbol.{Symbol, Texts}
use strict_pprof_rs.Profiler.{Platform, Profiler}
use strict_pprof_rs.Profiler.Owner.{SigactionSucceeds}
use strict_pprof_rs.Profiler.Guard
use strict_pprof_rs.Profiler.Guard.{
  Built, guard, failed, World, drop_guard, build, report_timing, with_frequency, default,
  session-restores,
}
use strict_pprof_rs.Criterion.{
  Output, PProfProfiler, Ended, idle, panicked, filename, Disk, set_active, drop_old,
  start_profiling, stop_profiling, with_dir, with_file,
}

module _ (fs : TempFiles) (backend : Backend) (platform : Platform fs) (sample_size : ℕ)
    (frame_pointer : Bool) (d : UnresolvedFrames backend.Frame) {Options : Type 0}
    (disk : Disk Options) where
  abbrev W : Type 0
  W = World fs backend platform sample_size frame_pointer d

  abbrev P : Type 0
  P = PProfProfiler Options

  module _ (layout : Layout fs.Byte (Entry (UnresolvedFrames backend.Frame))) (finish : List ℕ → ℕ)
      (texts : Texts) (resolve_in_perfmap : ℕ → Option Symbol)
      (finish_resolved : List (List (List ℕ)) × List ℕ × ℕ × ℕ → ℕ)
      (into_iter : List Text → List Text) where
    -- The directory or the file could not be made.
    abbrev pub CannotCreate : Text → Output Options → disk.State → Type 0
    CannotCreate benchmark_dir output s =
        ((e : IoError) × ((disk.create_dir_all benchmark_dir s).0 ≡ err e))
        ⊎ ((e : IoError) × ((disk.create (disk.join benchmark_dir (filename output))
                (disk.create_dir_all benchmark_dir s).1).0
              ≡ err e))

    -- What a stop with an active guard has done: it has dropped the guard, or it has panicked before.
    abbrev pub Stops : Text → P × W → Timer → disk.State → Ended disk.File × (P × W) → Type 0
    Stops benchmark_dir (p, w) timer s (e, (p', w')) =
        (p' ≡ record p { active_profiler = none })
          × (w' ≡ drop_guard fs backend platform sample_size frame_pointer d (some timer) w)
        ⊎ (e ≡ panicked) × (p' ≡ p) × (w' ≡ w) × CannotCreate benchmark_dir p.output s

    stop_profiling-Stops :
        (now : ℕ) (benchmark_dir : Text) (p : P) (w : W) (timer : Timer) (s : disk.State)
        → p.active_profiler ≡ some timer
        → Stops benchmark_dir
            (p, w)
            timer
            s
            (stop_profiling fs backend platform sample_size frame_pointer d disk layout finish texts
              resolve_in_perfmap finish_resolved into_iter now benchmark_dir
              (p, w)
              s).0
    unfolding stop_profiling
    stop_profiling-Stops now benchmark_dir p w timer s active =
        by_dir (disk.create_dir_all benchmark_dir s) refl
      where
        by_file :
            (s₁ : disk.State)
            → (disk.create_dir_all benchmark_dir s).1 ≡ s₁
            → (r : Result IoError disk.File × disk.State)
            → disk.create (disk.join benchmark_dir (filename p.output)) s₁ ≡ r
            → Stops benchmark_dir
                (p, w)
                timer
                s
                (with_file fs backend platform sample_size frame_pointer d disk layout finish texts
                  resolve_in_perfmap finish_resolved into_iter now
                  (p, w)
                  r).0
        by_file s₁ there (err e, s₂) made = inr (refl, refl, refl, inr (e, rw (there, made) refl))
        by_file s₁ there (ok file, s₂) made = rw active (inl (refl, refl))

        by_dir :
            (r : Result IoError (Unit {0}) × disk.State)
            → disk.create_dir_all benchmark_dir s ≡ r
            → Stops benchmark_dir
                (p, w)
                timer
                s
                (with_dir fs backend platform sample_size frame_pointer d disk layout finish texts
                  resolve_in_perfmap finish_resolved into_iter now benchmark_dir
                  (p, w)
                  r).0
        by_dir (err e, s₁) made = inr (refl, refl, refl, inl (e, rw made refl))
        by_dir (ok _, s₁) made =
            by_file s₁ (ap (λ r. r.1) made)
              (disk.create (disk.join benchmark_dir (filename p.output)) s₁) refl

    -- A start that did not panic has built a guard.
    start_profiling_lem :
        (start_time start_instant : ℕ) (p : P) (w : W) (pw : P × W)
        → p.active_profiler ≡ none
        → start_profiling fs backend platform sample_size frame_pointer d disk start_time
            start_instant
            (p, w)
          ≡ (idle, pw)
        → (timer : Timer) × (w' : W) × (Guard.new fs backend platform sample_size frame_pointer d
              p.frequency start_time start_instant w
            ≡ (guard timer, w'))
          × (pw ≡ (record p { active_profiler = some timer }, w'))
    unfolding start_profiling
    start_profiling_lem start_time start_instant p w pw nothing started =
        by_guard
          (Guard.new fs backend platform sample_size frame_pointer d p.frequency start_time
            start_instant w)
          refl started
      where
        by_guard :
            (r : Built × W)
            → Guard.new fs backend platform sample_size frame_pointer d p.frequency start_time
                start_instant w
              ≡ r
            → set_active fs backend platform sample_size frame_pointer d disk p r ≡ (idle, pw)
            → (timer : Timer) × (w' : W) × (Guard.new fs backend platform sample_size frame_pointer
                  d p.frequency start_time start_instant w
                ≡ (guard timer, w'))
              × (pw ≡ (record p { active_profiler = some timer }, w'))
        by_guard (guard timer, w') made h =
            let same : drop_old fs backend platform sample_size frame_pointer d disk
                  p.active_profiler w'
                ≡ w' =
              rw nothing refl in
            let at_once : (
              record p { active_profiler = some timer },
              drop_old fs backend platform sample_size frame_pointer d disk p.active_profiler w',
            )
                ≡ pw =
              ap (λ x. x.1) h in
            (
              timer,
              w',
              made,
              sym at_once ∙ ap (λ v. (record p { active_profiler = some timer }, v)) same,
            )
        by_guard (failed e, w') made h = absurd (cc)
        by_guard (Guard.panicked, w') made h = absurd (cc)

    -- What a stop has left behind, from an action of SIGPROF before the start.
    abbrev pub Restores :
        platform.Os
        → Text
        → Output Options
        → disk.State
        → P × W
        → Ended disk.File × (P × W)
        → Type 0
    Restores os benchmark_dir output s pw r =
        (r.1.0.active_profiler ≡ none) × (platform.installed r.1.1.1 ≡ platform.installed os)
        ⊎ (r.0 ≡ panicked) × (r.1 ≡ pw) × CannotCreate benchmark_dir output s

    -- A benchmark that could be started leaves no trace when it is stopped, whatever comes of its report,
    -- also if that panics: the guard is gone, and SIGPROF has the action that it had before the start,
    -- provided that calls of `sigaction` succeed. Only if the directory or the file cannot be made does
    -- the stop panic with the guard still active.
    pub benchmark-Restores :
        SigactionSucceeds platform
        → (start_time start_instant now : ℕ) (benchmark_dir : Text) (s : disk.State) (p : P)
          (profiler : Profiler fs.File backend.Frame platform.SigAction) (os : platform.Os)
          (pw : P × W)
        → p.active_profiler ≡ none
        → start_profiling fs backend platform sample_size frame_pointer d disk start_time
            start_instant
            (p, (ok profiler, os))
          ≡ (idle, pw)
        → Restores os benchmark_dir p.output s pw
            (stop_profiling fs backend platform sample_size frame_pointer d disk layout finish texts
              resolve_in_perfmap finish_resolved into_iter now benchmark_dir pw s).0
    benchmark-Restores answers start_time start_instant now benchmark_dir s p profiler os pw nothing
          started =
        let (timer, w, made, same) =
          start_profiling_lem start_time start_instant p (ok profiler, os) pw nothing started in
        let active : P = record p { active_profiler = some timer } in
        let undone =
          session-restores fs backend platform sample_size frame_pointer d answers
            (with_frequency p.frequency default) start_time start_instant profiler os timer w
            made in
        subst
          (λ pw'.
            Restores os benchmark_dir p.output s pw'
              (stop_profiling fs backend platform sample_size frame_pointer d disk layout finish
                texts resolve_in_perfmap finish_resolved into_iter now benchmark_dir pw' s).0)
          (sym same)
          (by_end w timer undone _ (stop_profiling-Stops now benchmark_dir active w timer s refl))
      where
        by_end :
            (w : W) (timer : Timer)
            → platform.installed
                (drop_guard fs backend platform sample_size frame_pointer d (some timer) w).1
              ≡ platform.installed os
            → (r : Ended disk.File × (P × W))
            → Stops benchmark_dir (record p { active_profiler = some timer }, w) timer s r
            → Restores os benchmark_dir p.output s (record p { active_profiler = some timer }, w) r
        by_end w timer undone (e, (p', w')) (inl (gone, dropped)) =
            inl (ap (λ q. q.active_profiler) gone, rw dropped undone)
        by_end w timer undone (e, (p', w')) (inr (panic, same_p, same_w, cannot)) =
            inr (panic, rw (same_p, same_w) refl, cannot)
