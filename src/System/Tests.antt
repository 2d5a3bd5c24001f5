-- ===== src/System/Tests.antt =====
-- Whole profiles on an in-memory file, with a few signals.
use strict_pprof_rs.Base.{
  ℕ, ◌>>=◌, Bool, ◌^◌, ◌≡◌, ◌≢◌, refl, true, false, some, List, [], ◌∷◌, arith, ok, Returns,
}
use strict_pprof_rs.Timer as Timers
use strict_pprof_rs.Timer.{interval_of}
use strict_pprof_rs.Collector.Combined.{try_iter}
use strict_pprof_rs.Frames.Equal.{frames_key}
use strict_pprof_rs.Frames.Symbol.{Frames}
use strict_pprof_rs.Report.{new as new_report}
use strict_pprof_rs.Report.Total.{IsTotal}
use strict_pprof_rs.System.Resolved.{session-IsTotal}
use strict_pprof_rs.Base.Int.{pos}
use strict_pprof_rs.System.Sequence.{
  Session, run_sessions, AllReport, Ready, run_sessions-AllReport,
}
use strict_pprof_rs.Pprof.Tests.{as_they_are, kept}
use strict_pprof_rs.System.Export.{exported, IsExport, session-IsExport}
use strict_pprof_rs.System.Shapes.{ReadsFit, session-Fits}
use strict_pprof_rs.Report.Tests.{
  plain, Cells, in_memory, cell_layout, count_hash, same_texts, letter, no_hash,
}
use strict_pprof_rs.Profiler.{Profiler, start, register_signal_handler, handler_flags}
use strict_pprof_rs.Profiler as Profilers
use strict_pprof_rs.Profiler.Thread.{c_str}
use strict_pprof_rs.Profiler.Handler.{write_thread_name}
use strict_pprof_rs.Profiler.Guard.{
  ProfilerGuardBuilder, default, guard, build, World, report_timing,
}
use strict_pprof_rs.Profiler.Tests.{
  numbered, exchange_succeeds, blank, fresh, idle_profiler, signal, timer,
}
use strict_pprof_rs.System.{Event, AllNamed, samples_of, handle_all, observe_resolved}
use strict_pprof_rs.System.Reports.{
  Action, signalled, reported, NamedActions, run_actions, EachCounts, session-EachCounts,
}

abbrev with_blocklist : ProfilerGuardBuilder
with_blocklist = record default { blocklist_segments = (4096, 8192) ∷ [] }

abbrev new_profiler : Profiler Cells ℕ ℕ
new_profiler = record idle_profiler { blocklist_segments = [] }

new_one : Profilers.new in_memory plain numbered (2 ^ 17) true blank 1000 ≡ (ok new_profiler, 1000)
unfolding Profilers.new
new_one = rw fresh.1 refl

abbrev after_build : World in_memory plain numbered (2 ^ 17) true blank
after_build = (ok (record idle_profiler { old_sigaction = some 1000; is_running = true }), 2)

built :
    build in_memory plain numbered (2 ^ 17) true blank with_blocklist 5 6 (ok new_profiler, 1000)
    ≡ (guard timer, after_build)
unfolding build start register_signal_handler handler_flags Timers.new interval_of
built = refl

-- One signal that is counted, one while the lock is held, and one in blocked code.
abbrev events : List (Event ℕ)
events = (false, signal) ∷ (true, signal) ∷ (false, record signal { ucontext = some 5000 }) ∷ []

all_named : AllNamed events
unfolding c_str write_thread_name
all_named = ((refl, omega arith), ((refl, omega arith), ((refl, omega arith), tt)))

-- A report after the first signal, and one after three more events.
abbrev actions : List (Action ℕ)
actions =
    signalled (false, signal)
    ∷ reported 20
    ∷ signalled (true, signal)
    ∷ signalled (false, record signal { ucontext = some 5000 })
    ∷ signalled (false, signal)
    ∷ reported 36
    ∷ []

actions_named : NamedActions actions
unfolding c_str write_thread_name
actions_named =
    ((refl, omega arith), ((refl, omega arith), ((refl, omega arith), ((refl, omega arith), tt))))

session-EachCounts_example :
    Returns
      (run_actions in_memory plain numbered
        (2 ^ 17)
        true
        blank
        cell_layout
        count_hash
        timer
        actions
        (record { locked = false; profiler = after_build.0; errno = 2 }))
      (EachCounts in_memory plain numbered
        (2 ^ 17)
        true
        blank
        cell_layout
        count_hash
        timer
        ((4096, 8192) ∷ [])
        []
        actions)
session-EachCounts_example =
    session-EachCounts in_memory plain numbered (2 ^ 17) true blank cell_layout count_hash timer
      (omega arith) with_blocklist 5 6 2 1000 1000 new_profiler after_build actions (λ f e. cc)
      new_one built actions_named (omega arith)

abbrev any_row : Frames → Bool
any_row f = true

session-IsTotal_example :
    Returns
      (observe_resolved in_memory plain numbered
        (2 ^ 17)
        true
        blank
        cell_layout
        count_hash
        same_texts
        letter
        no_hash
        events
        after_build.0
        2
        (new_report (report_timing (some timer) 36)))
      (IsTotal in_memory plain cell_layout
        (2 ^ 17)
        count_hash
        same_texts
        letter
        no_hash
        (new_report (report_timing (some timer) 36))
        any_row
        (samples_of plain true ((4096, 8192) ∷ []) events))
session-IsTotal_example =
    session-IsTotal in_memory plain numbered (2 ^ 17) true blank cell_layout count_hash same_texts
      letter no_hash (omega arith) with_blocklist 5 6 2 1000 1000 new_profiler timer after_build
      events (new_report (report_timing (some timer) 36)) any_row (λ f e. cc) new_one built
      all_named (omega arith) (λ a b h. refl) (λ a b h. refl)

session-Fits_example :
    Returns
      (handle_all in_memory plain numbered
        (2 ^ 17)
        true
        blank
        cell_layout
        count_hash
        events
        (record { locked = false; profiler = after_build.0; errno = 2 }))
      (λ w'.
        let instance key = frames_key plain count_hash in
        (p' : Profiler Cells ℕ ℕ) × (w'.profiler ≡ ok p')
        × Returns
            (try_iter in_memory cell_layout (2 ^ 17) p'.profile_data)
            (ReadsFit in_memory plain numbered (2 ^ 17) true blank cell_layout count_hash))
session-Fits_example =
    session-Fits in_memory plain numbered (2 ^ 17) true blank cell_layout count_hash (omega arith)
      with_blocklist 5 6 2 1000 1000 new_profiler timer after_build events (λ f e. cc) new_one built
      all_named

-- Two profiles with the same signals, of which the second has no blocklist.
abbrev two_profiles : List (Session ℕ)
two_profiles =
    record {
      builder = with_blocklist;
      start_time = 5;
      start_instant = 6;
      now = 36;
      errno = 2;
      events = events;
    }
    ∷ record {
      builder = default;
      start_time = 40;
      start_instant = 40;
      now = 50;
      errno = 2;
      events = events;
    }
    ∷ []

nonzero : default.frequency ≢ pos 0
nonzero h = cc

run_sessions-AllReport_example :
    Returns
      (run_sessions in_memory plain numbered
        (2 ^ 17)
        true
        blank
        cell_layout
        count_hash
        two_profiles
        (ok new_profiler, 1000))
      (λ (reports, w').
        AllReport in_memory plain numbered
          (2 ^ 17)
          true
          blank
          cell_layout
          count_hash
          two_profiles
          reports
        × Ready in_memory plain numbered (2 ^ 17) true blank cell_layout count_hash w')
run_sessions-AllReport_example =
    run_sessions-AllReport in_memory plain numbered (2 ^ 17) true blank cell_layout count_hash
      (omega arith) exchange_succeeds (λ os. ([], refl, refl)) two_profiles (ok new_profiler, 1000)
      ((nonzero, all_named, omega arith), ((nonzero, all_named, omega arith), tt))
      (new_profiler, refl, refl, fresh.2)

session-IsExport_example :
    Returns
      (observe_resolved in_memory plain numbered
          (2 ^ 17)
          true
          blank
          cell_layout
          count_hash
          same_texts
          letter
          no_hash
          events
          after_build.0
          2
          (new_report (report_timing (some timer) 36))
        >>= exported in_memory plain numbered
            (2 ^ 17)
            true
            blank
            cell_layout
            count_hash
            same_texts
            letter
            no_hash
            as_they_are)
      (IsExport in_memory plain numbered
        (2 ^ 17)
        true
        blank
        cell_layout
        count_hash
        same_texts
        letter
        no_hash
        98
        (samples_of plain true ((4096, 8192) ∷ []) events))
unfolding Timers.timing
session-IsExport_example =
    session-IsExport in_memory plain numbered (2 ^ 17) true blank cell_layout count_hash same_texts
      letter no_hash (omega arith) with_blocklist 5 6 2 1000 1000 new_profiler timer after_build
      events (new_report (report_timing (some timer) 36)) 98 as_they_are (λ f e. cc) new_one built
      all_named (omega arith) kept refl
