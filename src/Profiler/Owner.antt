-- ===== src/Profiler/Owner.antt =====
-- Who owns SIGPROF in the course of a profiler's life in src/profiler.rs: the calls of `start`, `stop`
-- and `sample`, and the settings that `ProfilerGuardBuilder::build` makes, in any order.
use strict_pprof_rs.Base.{
  ℕ, ◌+◌, ◌%◌, ◌^◌, ◌>>=◌, ◌≡◌, ◌≢◌, ◌⊎◌, inl, inr, sym, subst, ◌∙◌, Bool, true, false, none, some,
  List, arith, Result, ok, err, Run, returns, ap, bind-returns,
}
use strict_pprof_rs.Error.{creating_error, running, not_running, io_error, nix_error}
use strict_pprof_rs.Collector.Bucket.{Entry}
use strict_pprof_rs.Collector.TempArray.{IoError, TempFiles, Layout}
use strict_pprof_rs.Collector.Combined
use strict_pprof_rs.Collector.Combined.{Collector}
use strict_pprof_rs.Frames
use strict_pprof_rs.Frames.Equal.{frames_key}
use strict_pprof_rs.Frames.{Backend, UnresolvedFrames}
use strict_pprof_rs.Profiler.{Platform, Profiler, State, Outcome, SaFlag, start, stop, sample}
use strict_pprof_rs.Profiler.Life.{Started, start-Started, Stopped, stop-Stopped, restored}

-- No call of `sigaction` fails, as none with valid arguments does.
abbrev pub SigactionSucceeds : {fs : TempFiles} → Platform fs → Type 0
SigactionSucceeds platform =
    (os : platform.Os) (action : platform.SigAction) (e : ℕ)
    → (platform.sigaction os action).0 ≢ err e

module _ (fs : TempFiles) (backend : Backend) (platform : Platform fs) (sample_size : ℕ)
    (frame_pointer : Bool) (d : UnresolvedFrames backend.Frame)
    (layout : Layout fs.Byte (Entry (UnresolvedFrames backend.Frame))) (finish : List ℕ → ℕ) where
  open platform use {Os, SigAction, perf_action, installed, sigaction}

  abbrev St : Type 0
  St = State fs backend platform sample_size frame_pointer d

  abbrev Out : Type 0
  Out = Outcome fs backend platform sample_size frame_pointer d

  -- One call, however it ends.
  pub data Step (s t : St) : Type 0 where
    starts : (start fs backend platform sample_size frame_pointer d s).1 ≡ t → Step s t
    stops : (stop fs backend platform sample_size frame_pointer d s).1 ≡ t → Step s t
    samples :
        (bt : List backend.Frame) (name : List ℕ) (id time : ℕ)
        → sample fs backend platform sample_size frame_pointer d layout finish s.0 bt name id time
          ≡ returns t.0
        → s.1 ≡ t.1
        → Step s t
    configures :
        (on_stack : Bool) (segments : List (ℕ × ℕ))
        → (record s.0 { on_stack = on_stack; blocklist_segments = segments }, s.1) ≡ t
        → Step s t

  pub data Reach (s : St) : St → Type 0 where
    here : Reach s s
    then_step : {t u : St} → Reach s t → Step t u → Reach s u

  -- While the profiler is stopped, SIGPROF has the original action. While it runs, its handler is
  -- installed and the original action is remembered; or the original is in place again, after a stop
  -- that found no room for a file.
  abbrev pub IsOwned : SigAction → St → Type 0
  IsOwned original s =
      (s.0.is_running ≡ false) × (installed s.1 ≡ original)
      ⊎ (s.0.is_running ≡ true)
        × (s.0.old_sigaction ≡ some original)
        × ((flags : List SaFlag) × (installed s.1 ≡ perf_action flags))
      ⊎ (s.0.is_running ≡ true) × (s.0.old_sigaction ≡ none) × (installed s.1 ≡ original)

  module _ (answers : SigactionSucceeds platform) (original : SigAction) where
    start-IsOwned :
        (s : St) (r : Out)
        → Started fs backend platform sample_size frame_pointer d s r
        → IsOwned original s
        → IsOwned original r.1
    start-IsOwned s (ok _, t) (idle, now, set) h =
        let was : installed s.1 ≡ original = ground (arith, idle) in
        inr
          (inl (ap (λ p. p.is_running) set, ap (λ p. p.old_sigaction) set ∙ ap some was, (_, now)))
    start-IsOwned s (err running, t) (busy, same) h = subst (IsOwned original) (sym same) h
    start-IsOwned s (err (nix_error e), t) (idle, same, put, failed) h =
        absurd (answers _ _ e failed)
    start-IsOwned s (err (io_error e), t) h k = absurd h
    start-IsOwned s (err creating_error, t) h k = absurd h
    start-IsOwned s (err not_running, t) h k = absurd h

    restored-original :
        (s : St)
        → s.0.is_running ≡ true
        → IsOwned original s
        → restored fs backend platform sample_size frame_pointer d s ≡ original
    restored-original s busy h = ground (arith, busy)

    stop-IsOwned :
        (s : St) (r : Out)
        → Stopped fs backend platform sample_size frame_pointer d s r
        → IsOwned original s
        → IsOwned original r.1
    stop-IsOwned s (ok _, t) (busy, now, f, c, made, set, _) h =
        inl (ap (λ p. p.is_running) set, now ∙ restored-original s busy h)
    stop-IsOwned s (err not_running, t) (idle, same) h = subst (IsOwned original) (sym same) h
    stop-IsOwned s (err (nix_error e), t) (busy, same, set, action, there, failed) h =
        absurd (answers _ _ e failed)
    stop-IsOwned s (err (io_error e), t) (busy, now, set, _) h = inr (
        inr (
          ap (λ p. p.is_running) set ∙ busy,
          ap (λ p. p.old_sigaction) set,
          now ∙ restored-original s busy h,
        ))
    stop-IsOwned s (err creating_error, t) h k = absurd h
    stop-IsOwned s (err running, t) h k = absurd h

    sample-IsOwned :
        (s t : St) (bt : List backend.Frame) (name : List ℕ) (id time : ℕ)
        → sample fs backend platform sample_size frame_pointer d layout finish s.0 bt name id time
          ≡ returns t.0
        → s.1 ≡ t.1
        → IsOwned original s
        → IsOwned original t
    unfolding sample
    sample-IsOwned s t bt name id time run same h =
        let instance key = frames_key backend finish in
        let keep : Result IoError (Unit {0}) × Collector fs.File (UnresolvedFrames backend.Frame)
            → Run (Profiler fs.File backend.Frame SigAction) =
          λ (_, data'). returns (record s.0 {
            profile_data = data';
            sample_counter = (s.0.sample_counter + 1) % 2 ^ 32;
          }) in
        let add = λ (u : UnresolvedFrames backend.Frame).
          Combined.add fs layout sample_size s.0.profile_data u 1 in
        let (u, _, added) =
          bind-returns (Frames.new bt name id time) (λ u. add u >>= keep) t.0 run in
        let (r, _, kept) = bind-returns (add u) keep t.0 added in
        let put = ap installed same in ground (arith, kept, put)

    Step-IsOwned : {s t : St} → Step s t → IsOwned original s → IsOwned original t
    Step-IsOwned {s} (starts e) h =
        subst (IsOwned original) e
          (start-IsOwned s _ (start-Started fs backend platform sample_size frame_pointer d s) h)
    Step-IsOwned {s} (stops e) h =
        subst (IsOwned original) e
          (stop-IsOwned s _ (stop-Stopped fs backend platform sample_size frame_pointer d s) h)
    Step-IsOwned {s} {t} (samples bt name id time run same) h =
        sample-IsOwned s t bt name id time run same h
    Step-IsOwned (configures on_stack segments e) h = subst (IsOwned original) e h

    -- Provided that calls of `sigaction` succeed and that SIGPROF's action is changed by the profiler
    -- alone, from a state in which the profiler is stopped and the original action is installed, or in
    -- which it owns SIGPROF, no sequence of starts, stops, samples and settings loses the original action: whenever
    -- the profiler is stopped, it is the one installed.
    pub Reach-IsOwned : {s t : St} → Reach s t → IsOwned original s → IsOwned original t
    Reach-IsOwned here h = h
    Reach-IsOwned (then_step r st) h = Step-IsOwned st (Reach-IsOwned r h)
