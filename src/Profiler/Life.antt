-- ===== src/Profiler/Life.antt =====
-- Starting and stopping in src/profiler.rs, against the signal action of the process: what each call
-- does, however the system answers, and who owns SIGPROF after any sequence of calls.
use strict_pprof_rs.Base.{
  ℕ, ◌≡◌, inl, inr, refl, sym, subst, ◌∙◌, Bool, true, false, none, some, arith, Result, ok, err,
  ap, Option-cases, Bool-cases,
}
use strict_pprof_rs.Error.{creating_error, running, not_running, io_error, nix_error}
use strict_pprof_rs.Collector.TempArray
use strict_pprof_rs.Collector.TempArray.{IoError, TempFiles, Layout}
use strict_pprof_rs.Collector.Combined
use strict_pprof_rs.Collector.Combined.{Collector}
use strict_pprof_rs.Frames.{Backend, UnresolvedFrames}
use strict_pprof_rs.Profiler.{
  Platform, State, Outcome, handler_flags, register_signal_handler, unregister_signal_handler,
  start, stop, init,
}

module _ (fs : TempFiles) (backend : Backend) (platform : Platform fs) (sample_size : ℕ)
    (frame_pointer : Bool) (d : UnresolvedFrames backend.Frame) where
  open platform use {Os, SigAction, perf_action, installed, sigaction, new_file}

  abbrev St : Type 0
  St = State fs backend platform sample_size frame_pointer d

  abbrev Out : Type 0
  Out = Outcome fs backend platform sample_size frame_pointer d

  -- The action that the profiler registers.
  abbrev pub own : St → SigAction
  own (p, os) = perf_action (handler_flags fs backend platform sample_size frame_pointer d p)

  -- What a start has done, by how it ended.
  abbrev pub Started : St → Out → Type 0
  Started s (ok _, t) =
      (s.0.is_running ≡ false)
      × (installed t.1 ≡ own s)
      × (t.0 ≡ record s.0 { old_sigaction = some (installed s.1); is_running = true })
  Started s (err running, t) = (s.0.is_running ≡ true) × (t ≡ s)
  Started s (err (nix_error e), t) =
      (s.0.is_running ≡ false)
      × (t.0 ≡ s.0)
      × (installed t.1 ≡ installed s.1)
      × ((sigaction s.1 (own s)).0 ≡ err e)
  Started s (err _, t) = ⊥

  -- Only a profiler that is stopped starts: the handler is installed, and the action that was there is
  -- remembered. A running one answers `Running`, and nothing has changed; a failing system call leaves
  -- the profiler and the action as they were.
  pub start-Started : (s : St) → Started s (start fs backend platform sample_size frame_pointer d s)
  unfolding start register_signal_handler
  start-Started s = by_answer (sigaction s.1 (own s)) refl s.0.is_running refl
    where
      by_answer :
          (r : Result ℕ SigAction × Os)
          → sigaction s.1 (own s) ≡ r
          → (b : Bool) → s.0.is_running ≡ b
          → Started s (start fs backend platform sample_size frame_pointer d s)
      by_answer r called true busy = ground (arith, busy)
      by_answer (ok old, os') called false idle =
          let (was, now) = platform.sigaction_ok s.1 os' (own s) old called in
          simp (idle, called, was, now) (refl, refl, refl)
      by_answer (err e, os') called false idle =
          let same = platform.sigaction_err s.1 os' (own s) e called in
          simp (idle, called, same) (refl, refl, refl, refl)

  -- The action that a stop puts in place: the remembered one, if there is one.
  abbrev pub restored : St → SigAction
  restored s = elim s.0.old_sigaction [ none ↦ installed s.1 | some action ↦ action ]

  -- What a stop has done, by how it ended.
  abbrev pub Stopped : St → Out → Type 0
  Stopped s (ok _, t) =
      (s.0.is_running ≡ true)
      × (installed t.1 ≡ restored s)
      × (f : fs.File) × (c : Collector fs.File (UnresolvedFrames backend.Frame)) × (Combined.new
            sample_size d (ok f)
          ≡ ok c)
      × (t.0 ≡ record s.0 {
        profile_data = c;
        sample_counter = 0;
        old_sigaction = none;
        is_running = false;
      })
      × ((before : Os) × ((new_file before).0 ≡ ok f))
  Stopped s (err not_running, t) = (s.0.is_running ≡ false) × (t ≡ s)
  Stopped s (err (nix_error e), t) =
      (s.0.is_running ≡ true)
      × (installed t.1 ≡ installed s.1)
      × (t.0 ≡ record s.0 { old_sigaction = none })
      × (action : SigAction) × (s.0.old_sigaction ≡ some action)
      × ((sigaction s.1 action).0 ≡ err e)
  Stopped s (err (io_error e), t) =
      (s.0.is_running ≡ true)
      × (installed t.1 ≡ restored s)
      × (t.0 ≡ record s.0 { old_sigaction = none; sample_counter = 0 })
      × ((before : Os) × ((new_file before).0 ≡ err e))
  Stopped s (err _, t) = ⊥

  -- What `init` has done, from an action that is not its business.
  abbrev Initialised : St → Out → Type 0
  Initialised s (ok _, t) =
      (installed t.1 ≡ installed s.1)
      × (f : fs.File) × (c : Collector fs.File (UnresolvedFrames backend.Frame)) × (Combined.new
            sample_size d (ok f)
          ≡ ok c)
      × (t.0 ≡ record s.0 { profile_data = c; sample_counter = 0; is_running = false })
      × ((before : Os) × ((new_file before).0 ≡ ok f))
  Initialised s (err (io_error e), t) =
      (installed t.1 ≡ installed s.1)
      × (t.0 ≡ record s.0 { sample_counter = 0 })
      × ((before : Os) × ((new_file before).0 ≡ err e))
  Initialised s (err _, t) = ⊥

  init-Initialised :
      (s : St) → Initialised s (init fs backend platform sample_size frame_pointer d s)
  unfolding init Combined.new TempArray.new
  init-Initialised s = by_file (new_file s.1) refl
    where
      by_file :
          (r : Result IoError fs.File × Os)
          → new_file s.1 ≡ r
          → Initialised s (init fs backend platform sample_size frame_pointer d s)
      by_file (ok f, os') opened =
          let same : installed os' ≡ installed s.1 =
            subst (λ r. installed r.1 ≡ installed s.1) opened (platform.installed-new_file s.1) in
          rw opened (same, f, _, refl, refl, (s.1, ap (λ r. r.0) opened))
      by_file (err e, os') opened =
          let same : installed os' ≡ installed s.1 =
            subst (λ r. installed r.1 ≡ installed s.1) opened (platform.installed-new_file s.1) in
          rw opened (same, refl, (s.1, ap (λ r. r.0) opened))

  Initialised-Stopped :
      (s : St) (os : Os) (r : Out)
      → s.0.is_running ≡ true
      → installed os ≡ restored s
      → Initialised (record s.0 { old_sigaction = none }, os) r
      → Stopped s r
  Initialised-Stopped s os (ok _, t) busy back (same, f, c, made, now, opened) =
      (busy, same ∙ back, f, c, made, now, opened)
  Initialised-Stopped s os (err (io_error e), t) busy back (same, now, failed) =
      (busy, same ∙ back, now, failed)
  Initialised-Stopped s os (err (nix_error e), t) busy back h = absurd h
  Initialised-Stopped s os (err creating_error, t) busy back h = absurd h
  Initialised-Stopped s os (err running, t) busy back h = absurd h
  Initialised-Stopped s os (err not_running, t) busy back h = absurd h

  module _ (s : St) (busy : s.0.is_running ≡ true) where
    unset-Stopped :
        s.0.old_sigaction ≡ none
        → Stopped s (stop fs backend platform sample_size frame_pointer d s)
    unfolding stop unregister_signal_handler
    unset-Stopped unset =
        let whole : ◌≡◌ {A = St} (record s.0 { old_sigaction = none }, s.1) s =
          λ i. (record s.0 { old_sigaction = sym unset i }, s.1) in
        let back : installed s.1 ≡ restored s = ground (arith, unset) in
        let run : stop fs backend platform sample_size frame_pointer d s
            ≡ init fs backend platform sample_size frame_pointer d s =
          ground (arith, busy, unset) in
        let done =
          subst (λ t. Initialised t (init fs backend platform sample_size frame_pointer d s))
            (sym whole) (init-Initialised s) in
        subst (Stopped s) (sym run) (Initialised-Stopped s s.1 _ busy back done)

    set-Stopped :
        (action : SigAction) (r : Result ℕ SigAction × Os)
        → sigaction s.1 action ≡ r
        → s.0.old_sigaction ≡ some action
        → Stopped s (stop fs backend platform sample_size frame_pointer d s)
    unfolding stop unregister_signal_handler
    set-Stopped action (ok old, os') called there =
        let now = (platform.sigaction_ok s.1 os' action old called).1 in
        let back : installed os' ≡ restored s = ground (arith, there, now) in
        let run : stop fs backend platform sample_size frame_pointer d s
            ≡ init fs backend platform sample_size frame_pointer d
                (record s.0 { old_sigaction = none }, os') =
          ground (arith, busy, there, called) in
        subst (Stopped s) (sym run) (
          Initialised-Stopped s os' _ busy back
            (init-Initialised (record s.0 { old_sigaction = none }, os')))
    set-Stopped action (err e, os') called there =
        let same = platform.sigaction_err s.1 os' action e called in
        let run : stop fs backend platform sample_size frame_pointer d s
            ≡ (err (nix_error e), (record s.0 { old_sigaction = none }, os')) =
          ground (arith, busy, there, called) in
        subst (Stopped s) (sym run) (busy, same, refl, action, there, ap (λ r. r.0) called)

  -- Only a running profiler stops: the remembered action is put back, if there is one, and the data
  -- are those of a new collector over a file that was opened for it. If the system call fails, the
  -- handler stays and the remembered action is lost; if no file can be opened, the action has been put
  -- back but the profiler still counts as running.
  pub stop-Stopped : (s : St) → Stopped s (stop fs backend platform sample_size frame_pointer d s)
  unfolding stop
  stop-Stopped s = elim (Bool-cases s.0.is_running) [
    | inr idle ↦ ground (arith, idle)
    | inl busy ↦ elim (Option-cases s.0.old_sigaction) [
      | inl unset ↦ unset-Stopped s busy unset
      | inr (action, there) ↦ set-Stopped s busy action (sigaction s.1 action) refl there
    ]
  ]
