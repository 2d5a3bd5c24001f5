-- ===== src/Profiler.antt =====
-- `Profiler` of src/profiler.rs: starting and stopping the sampling, and taking one sample. The system
-- calls are parameters, over a state of the system that they pass on.
pub mod Life
pub mod Owner
pub mod Thread
pub mod Handler
pub mod Blocklist
pub mod Guard
pub mod Tests
use strict_pprof_rs.Base.{
  ℕ, ◌+◌, ◌%◌, ◌^◌, ◌≡◌, Bool, true, false, Option, none, some, List, [], ◌∷◌, Key, Result, ok, err,
  Run, returns, ◌>>=◌, ltb, ◌&&◌, if◌then◌else◌,
}
use strict_pprof_rs.Error.{Error, running, not_running, io_error, nix_error}
use strict_pprof_rs.Timer.{Itimerval}
use strict_pprof_rs.Collector.Bucket.{Entry}
use strict_pprof_rs.Collector.TempArray.{IoError, TempFiles, Layout}
use strict_pprof_rs.Collector.Combined
use strict_pprof_rs.Collector.Combined.{Collector}
use strict_pprof_rs.Frames
use strict_pprof_rs.Frames.{Backend, UnresolvedFrames}
use strict_pprof_rs.Frames.Equal.{frames_key}

-- The flags that are given to `sigaction`.
pub data SaFlag : Type 0 where
  sa_siginfo sa_restart sa_onstack : SaFlag

-- The system: temporary files, the action that is installed for SIGPROF, and the profiling timer.
-- `installed` is that action, which the code never asks for.
pub record Platform (fs : TempFiles) : Type 1 where
  pub Os : Type 0
  pub SigAction : Type 0
  -- `SigAction::new(SigAction(perf_signal_handler), flags, empty)`
  pub perf_action : List SaFlag → SigAction
  pub installed : Os → SigAction
  pub sigaction : Os → SigAction → Result ℕ SigAction × Os
  pub new_file : Os → Result IoError fs.File × Os
  pub setitimer : Os → Itimerval → Os
  -- A call of `sigaction` that succeeds gives the old action and installs the new one.
  pub sigaction_ok :
      (os os' : Os) (action old : SigAction)
      → sigaction os action ≡ (ok old, os')
      → (old ≡ installed os) × (installed os' ≡ action)
  -- One that fails leaves the action in place.
  pub sigaction_err :
      (os os' : Os) (action : SigAction) (e : ℕ)
      → sigaction os action ≡ (err e, os')
      → installed os' ≡ installed os
  -- Files and timers have nothing to do with signal actions.
  pub installed-new_file : (os : Os) → installed (new_file os).1 ≡ installed os
  pub installed-setitimer : (os : Os) (t : Itimerval) → installed (setitimer os t) ≡ installed os

pub record Profiler (File Frame SigAction : Type 0) : Type 0 where
  pub profile_data : Collector File (UnresolvedFrames Frame)
  pub sample_counter : ℕ
  pub old_sigaction : Option SigAction
  pub is_running : Bool
  pub on_stack : Bool
  pub blocklist_segments : List (ℕ × ℕ)

-- `is_blocklisted`
unfoldable pub is_blocklisted : List (ℕ × ℕ) → ℕ → Bool
is_blocklisted [] addr = false
is_blocklisted (libs ∷ rest) addr =
    if ltb libs.0 addr && ltb addr libs.1 then true else is_blocklisted rest addr

-- The feature `frame-pointer` is on or off; `d` is `UnresolvedFrames::default()`.
module _ (fs : TempFiles) (backend : Backend) (platform : Platform fs) (sample_size : ℕ)
    (frame_pointer : Bool) (d : UnresolvedFrames backend.Frame) where
  open platform use {Os, SigAction, perf_action, sigaction, new_file}

  abbrev pub State : Type 0
  State = Profiler fs.File backend.Frame SigAction × Os

  abbrev pub Outcome : Type 0
  Outcome = Result Error (Unit {0}) × State

  -- `Profiler::new`, with the file that `Collector::new` opens.
  unfoldable pub new : Os → Result Error (Profiler fs.File backend.Frame SigAction) × Os
  new os =
      let (opened, os') = new_file os in
      (
        elim (Combined.new sample_size d opened) [
          | err e ↦ err (io_error e)
          | ok collector ↦ ok (record {
            profile_data = collector;
            sample_counter = 0;
            old_sigaction = none;
            is_running = false;
            on_stack = false;
            blocklist_segments = [];
          })
        ],
        os',
      )

  -- The flags of `register_signal_handler`.
  unfoldable pub handler_flags : Profiler fs.File backend.Frame SigAction → List SaFlag
  handler_flags p =
      if frame_pointer && p.on_stack
      then sa_siginfo ∷ sa_restart ∷ sa_onstack ∷ []
      else sa_siginfo ∷ sa_restart ∷ []

  -- `let old_action = ...?; self.old_sigaction = Some(old_action)`
  abbrev remember : Profiler fs.File backend.Frame SigAction → Result ℕ SigAction × Os → Outcome
  remember p (err e, os') = (err (nix_error e), (p, os'))
  remember p (ok old_action, os') = (ok tt, (record p { old_sigaction = some old_action }, os'))

  unfoldable pub register_signal_handler : State → Outcome
  register_signal_handler (p, os) = remember p (sigaction os (perf_action (handler_flags p)))

  -- The call under `take`, which has emptied the field whatever comes of the call.
  abbrev restore : Profiler fs.File backend.Frame SigAction → Result ℕ SigAction × Os → Outcome
  restore p (err e, os') = (err (nix_error e), (p, os'))
  restore p (ok _, os') = (ok tt, (p, os'))

  unfoldable pub unregister_signal_handler : State → Outcome
  unregister_signal_handler (p, os) = elim p.old_sigaction [
    | none ↦ (ok tt, (p, os))
    | some old_action ↦ restore (record p { old_sigaction = none }) (sigaction os old_action)
  ]

  -- `result?; next`
  abbrev and_then : Outcome → (State → Outcome) → Outcome
  and_then (err e, s) next = (err e, s)
  and_then (ok _, s) next = next s

  unfoldable pub start : State → Outcome
  start s =
      if s.0.is_running
      then (err running, s)
      else and_then (register_signal_handler s)
          (λ (p, os). (ok tt, (record p { is_running = true }, os)))

  -- `self.data = Collector::new()?; self.running = false`, with the file that `new` opened.
  abbrev replace_data :
      Profiler fs.File backend.Frame SigAction → Result IoError fs.File × Os → Outcome
  replace_data p (opened, os') = elim (Combined.new sample_size d opened) [
    | err e ↦ (err (io_error e), (p, os'))
    | ok collector ↦ (ok tt, (record p { profile_data = collector; is_running = false }, os'))
  ]

  unfoldable pub init : State → Outcome
  init (p, os) = replace_data (record p { sample_counter = 0 }) (new_file os)

  unfoldable pub stop : State → Outcome
  stop s =
      if s.0.is_running then and_then (unregister_signal_handler s) init else (err not_running, s)

  -- `sample`, whose counter is an `i32`. An error of the collector is passed over.
  unfoldable pub sample :
      Layout fs.Byte (Entry (UnresolvedFrames backend.Frame))
      → (List ℕ → ℕ)
      → Profiler fs.File backend.Frame SigAction
      → List backend.Frame
      → List ℕ
      → ℕ
      → ℕ
      → Run (Profiler fs.File backend.Frame SigAction)
  sample layout finish p backtrace thread_name thread_id sample_timestamp =
      let instance key = frames_key backend finish in
      Frames.new backtrace thread_name thread_id sample_timestamp >>= λ frames.
      Combined.add fs layout sample_size p.profile_data frames 1 >>= λ (_, data').
      returns (record p { profile_data = data'; sample_counter = (p.sample_counter + 1) % 2 ^ 32 })
