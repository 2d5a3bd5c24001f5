-- ===== src/Criterion/Tests.antt =====
-- A benchmark on a disk that numbers its files and keeps what is drawn.
use strict_pprof_rs.Base.{ℕ, ◌+◌, ◌^◌, ◌≡◌, refl, true, none, some, List, [], ◌∷◌, ◌++◌, ok}
use strict_pprof_rs.Base.Int.{pos}
use strict_pprof_rs.Base.Texts.{Text}
use strict_pprof_rs.Report.Tests.{
  plain, in_memory, cell_layout, count_hash, same_texts, letter, no_hash,
}
use strict_pprof_rs.Profiler.{start, register_signal_handler, handler_flags}
use strict_pprof_rs.Profiler.Guard.{build}
use strict_pprof_rs.Profiler.Tests.{
  numbered, blank, idle_profiler, timer, running_world, exchange_succeeds,
}
use strict_pprof_rs.Timer as Timers
use strict_pprof_rs.Timer.{interval_of}
use strict_pprof_rs.Criterion.{
  Disk, flamegraph, PProfProfiler, new, idle, P, W, start_profiling, stop_profiling,
}
use strict_pprof_rs.Criterion.Session.{Restores, benchmark-Restores}

abbrev numbered_files : Disk ℕ
numbered_files = record {
  State = ℕ;
  File = List Text;
  create_dir_all = λ dir n. (ok tt, n);
  join = λ dir name. dir ++ name;
  create = λ path n. (ok (path ∷ []), n + 1);
  default_options = 0;
  from_lines = λ options lines file. ok (file ++ lines);
  encode = λ profile. ok [];
  write_all = λ file content. ok (content ∷ file);
}

abbrev benchmarks : PProfProfiler ℕ
benchmarks = new (pos 99) (flamegraph none)

abbrev under_way :
    P in_memory plain numbered (2 ^ 17) true blank numbered_files
    × W in_memory plain numbered (2 ^ 17) true blank numbered_files
under_way = (record benchmarks { active_profiler = some timer }, running_world)

started :
    start_profiling in_memory plain numbered
      (2 ^ 17)
      true
      blank
      numbered_files
      5
      6
      (benchmarks, (ok idle_profiler, 1000))
    ≡ (idle, under_way)
unfolding start_profiling build start register_signal_handler handler_flags Timers.new interval_of
started = refl

benchmark-Restores_example :
    Restores in_memory plain numbered
      (2 ^ 17)
      true
      blank
      numbered_files
      cell_layout
      count_hash
      same_texts
      letter
      no_hash
      (λ ts. ts)
      1000
      []
      (flamegraph none)
      0
      under_way
      (stop_profiling in_memory plain numbered
        (2 ^ 17)
        true
        blank
        numbered_files
        cell_layout
        count_hash
        same_texts
        letter
        no_hash
        (λ ts. ts)
        9
        []
        under_way
        0).0
benchmark-Restores_example =
    benchmark-Restores in_memory plain numbered (2 ^ 17) true blank numbered_files cell_layout
      count_hash same_texts letter no_hash (λ ts. ts) exchange_succeeds 5 6 9 [] 0 benchmarks
      idle_profiler 1000 under_way refl started
