-- ===== src/Profiler/Tests.antt =====
-- The theorems about the profiler, on a system whose SIGPROF action is a number.
use strict_pprof_rs.Base.{
  ℕ, suc, ◌^◌, ◌≤◌, ◌≡◌, ◌≢◌, ◌⊎◌, ◌↔◌, ◌||◌, inl, refl, Bool, true, false, none, some, List, [],
  ◌∷◌, arith, Result, ok, err, Returns, length,
}
use strict_pprof_rs.Base.Int.{pos}
use strict_pprof_rs.Base.Decimal.{number_from, All, IsDigit}
use strict_pprof_rs.Timer.{Timer, Itimerval, interval_of}
use strict_pprof_rs.Timer as Timers
use strict_pprof_rs.Collector.Bucket.{Entry}
use strict_pprof_rs.Collector.Combined.{Collector}
use strict_pprof_rs.Collector.Combined as Collectors
use strict_pprof_rs.Collector.Combined.Exact.{new-Collects}
use strict_pprof_rs.Collector.Combined.Sound.{Collects}
use strict_pprof_rs.Frames.Equal.{frames_key}
use strict_pprof_rs.Report.Tests.{plain, Sample, Cells, in_memory, sample, cell_layout, count_hash}
use strict_pprof_rs.Profiler.{
  SaFlag, Platform, Profiler, State, start, stop, is_blocklisted, handler_flags,
  register_signal_handler,
}
use strict_pprof_rs.Profiler.Life.{Stopped, stop-Stopped}
use strict_pprof_rs.Profiler.Owner.{
  SigactionSucceeds, Reach, here, then_step, starts, stops, IsOwned, Reach-IsOwned,
}
use strict_pprof_rs.Profiler.Thread.{write_thread_name_fallback, c_str, zeros, fallback-reads}
use strict_pprof_rs.Profiler.Handler.{
  Surroundings, Process, perf_signal_handler, interrupted, write_thread_name, Sampled,
  handler-Sampled,
}
use strict_pprof_rs.Profiler.Blocklist.{SharedLibrary, blocklist, IsInBlocked, blocklist_iff}
use strict_pprof_rs.Profiler.Guard.{
  default, guard, build, drop_guard, Builds, build-Builds, World, session-restores,
}

-- The action is the number of flags that the profiler's has, or another number.
abbrev flag_count : List SaFlag → ℕ
flag_count [] = 0
flag_count (f ∷ fs) = suc (flag_count fs)

abbrev exchange : ℕ → ℕ → Result ℕ ℕ × ℕ
exchange os action = (ok os, action)

pub exchange_ok :
    (os os' action old : ℕ) → exchange os action ≡ (ok old, os') → (old ≡ os) × (os' ≡ action)
exchange_ok os os' action old e = (cc, cc)

pub exchange_err : (os os' action e : ℕ) → exchange os action ≡ (err e, os') → os' ≡ os
exchange_err os os' action e same = absurd (cc)

abbrev pub numbered : Platform in_memory
numbered = record {
  Os = ℕ;
  SigAction = ℕ;
  perf_action = flag_count;
  installed = λ os. os;
  sigaction = exchange;
  new_file = λ os. (ok [], os);
  setitimer = λ os t. os;
  sigaction_ok = exchange_ok;
  sigaction_err = exchange_err;
  installed-new_file = λ os. refl;
  installed-setitimer = λ os t. refl;
}

pub exchange_succeeds : SigactionSucceeds numbered
exchange_succeeds os action e same = cc

abbrev pub blank : Sample
blank = (sample 0 [] 0).item

abbrev no_samples : List (Entry Sample)
no_samples = []

pub fresh :
    (c : Collector Cells Sample) × (Collectors.new (2 ^ 17) blank (ok []) ≡ ok c)
    × Collects in_memory ⦃key = frames_key plain count_hash⦄ cell_layout (2 ^ 17) c no_samples
fresh =
    new-Collects in_memory ⦃key = frames_key plain count_hash⦄ cell_layout (2 ^ 17) blank [] refl

abbrev pub idle_profiler : Profiler Cells ℕ ℕ
idle_profiler = record {
  profile_data = fresh.0;
  sample_counter = 0;
  old_sigaction = none;
  is_running = false;
  on_stack = false;
  blocklist_segments = (4096, 8192) ∷ [];
}

-- SIGPROF has the action 1000 at first.
abbrev idle : State in_memory plain numbered (2 ^ 17) true blank
idle = (idle_profiler, 1000)

abbrev started : State in_memory plain numbered (2 ^ 17) true blank
started = (record idle_profiler { old_sigaction = some 1000; is_running = true }, 2)

stop-Stopped_example :
    Stopped in_memory plain numbered
      (2 ^ 17)
      true
      blank
      started
      (stop in_memory plain numbered (2 ^ 17) true blank started)
stop-Stopped_example = stop-Stopped in_memory plain numbered (2 ^ 17) true blank started

abbrev after_stop : State in_memory plain numbered (2 ^ 17) true blank
after_stop =
    (stop in_memory plain numbered (2 ^ 17) true blank
      (start in_memory plain numbered (2 ^ 17) true blank idle).1).1

life : Reach in_memory plain numbered (2 ^ 17) true blank cell_layout count_hash idle after_stop
life = then_step (then_step here (starts refl)) (stops refl)

Reach-IsOwned_example :
    IsOwned in_memory plain numbered (2 ^ 17) true blank cell_layout count_hash 1000 after_stop
Reach-IsOwned_example =
    Reach-IsOwned in_memory plain numbered (2 ^ 17) true blank cell_layout count_hash
      exchange_succeeds 1000 life (inl (refl, refl))

fallback-reads_example :
    (name : List ℕ) × (c_str (write_thread_name_fallback 140_737_353_971_520 zeros) ≡ some name)
    × (length name ≤ 15)
    × All IsDigit name
    × (((j : ℕ) × (140_737_353_971_520 ≡ 10 ^ j) × (length name ≡ j) × (number_from 0 name ≡ 0))
        ⊎ ((j : ℕ) → 140_737_353_971_520 ≢ 10 ^ j) × (number_from 0 name ≡ 140_737_353_971_520))
fallback-reads_example = fallback-reads 140_737_353_971_520 (omega arith)

abbrev libc : List SharedLibrary
libc = record { name = some (b'l' ∷ b'c' ∷ []); segments = (4096, 4096) ∷ [] } ∷ []

abbrev always : List ℕ → List ℕ → Bool
always _ _ = true

blocklist_iff_example :
    (is_blocklisted (blocklist always ((b'c' ∷ []) ∷ []) libc) 5000 ≡ true)
    ↔ IsInBlocked always ((b'c' ∷ []) ∷ []) libc 5000
blocklist_iff_example = blocklist_iff always ((b'c' ∷ []) ∷ []) libc 5000

-- A signal in code at address 100, on a stack of three frames of which the last is blocked.
abbrev pub signal : Surroundings ℕ
signal = record {
  ucontext = some 100;
  walk = 100 ∷ 200 ∷ 5000 ∷ [];
  now = 7;
  current_thread = 1;
  thread_name = some (b'm' ∷ 0 ∷ []);
  errno_behind = 14;
}

abbrev process : Process Cells ℕ ℕ
process = record { locked = false; profiler = ok started.0; errno = 2 }

named : c_str (write_thread_name signal) ≡ some (b'm' ∷ [])
unfolding c_str write_thread_name
named = refl

handler-Sampled_example :
    Returns
      (perf_signal_handler in_memory plain numbered
        (2 ^ 17)
        true
        blank
        cell_layout
        count_hash
        signal
        process)
      (λ w'.
        (w'.errno ≡ process.errno)
        × ((process.locked || interrupted signal.ucontext started.0.blocklist_segments ≡ true)
              × (w' ≡ process)
            ⊎ (process.locked || interrupted signal.ucontext started.0.blocklist_segments ≡ false)
              × (p' : Profiler Cells ℕ ℕ) × (w' ≡ record process { profiler = ok p' })
              × Sampled in_memory plain numbered
                  (2 ^ 17)
                  true
                  blank
                  cell_layout
                  count_hash
                  signal
                  (b'm' ∷ [])
                  no_samples
                  started.0
                  p'))
handler-Sampled_example =
    handler-Sampled in_memory plain numbered (2 ^ 17) true blank cell_layout count_hash
      (omega arith) signal (b'm' ∷ []) named (omega arith) started.0 no_samples (inl fresh.2)
      process refl

build-Builds_example :
    Builds in_memory plain numbered
      (2 ^ 17)
      true
      blank
      default
      5
      6
      idle_profiler
      1000
      (build in_memory plain numbered (2 ^ 17) true blank default 5 6 (ok idle_profiler, 1000))
build-Builds_example =
    build-Builds in_memory plain numbered (2 ^ 17) true blank default 5 6 idle_profiler 1000

abbrev pub running_world : World in_memory plain numbered (2 ^ 17) true blank
running_world = (
  ok (record idle_profiler {
    old_sigaction = some 1000;
    is_running = true;
    on_stack = false;
    blocklist_segments = [];
  }),
  2,
)

abbrev pub timer : Timer
timer = record { frequency = pos 99; start_time = 5; start_instant = 6 }

built :
    build in_memory plain numbered (2 ^ 17) true blank default 5 6 (ok idle_profiler, 1000)
    ≡ (guard timer, running_world)
unfolding build start register_signal_handler handler_flags Timers.new interval_of
built = refl

session-restores_example :
    (drop_guard in_memory plain numbered (2 ^ 17) true blank (some timer) running_world).1 ≡ 1000
session-restores_example =
    session-restores in_memory plain numbered (2 ^ 17) true blank exchange_succeeds default 5 6
      idle_profiler 1000 timer running_world built
