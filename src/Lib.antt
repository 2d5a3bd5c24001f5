-- ===== src/Lib.antt =====
-- pprof (the repository's Cargo package) is a CPU profiler that a program runs on itself. A guard
-- (src/profiler.rs) installs a handler for SIGPROF and arms a timer (src/timer.rs). The handler
-- takes one call stack at each signal, as an `UnresolvedFrames` (src/frames.rs), and adds it to a
-- collector (src/collector.rs), which counts in bounded memory and spills what it evicts to a
-- temporary file. A report (src/report.rs) reads the collector, merges the entries, and resolves
-- the addresses to symbols. The handler and the report meet under one lock.
--
-- The parts, and the files that model them:
--   Base         what all parts share: lists and Boolean tests over the native numbers, machine
--                words, `Result`, runs that return or panic, keys (`Eq` and `Hash` with their laws),
--                a hash map as an association list, texts, signed division, decimal numerals.
--   Error        src/error.rs.
--   Collector    src/collector.rs. Collector/Bucket is `Bucket` (`add` with the loop of `for_each` as
--                `bump`, a free slot as `place`, the eviction of the rarest as `replace` and
--                `min_scan`; Iter is `BucketIterator`). Collector/Counter is `HashCounter`.
--                Collector/TempArray is `TempFdArray` (`push`, `flush_buffer`; Iter is `try_iter` and
--                its iterator). Collector/Combined is `Collector`, which is a counter with an array
--                behind it.
--   Frames       src/frames.rs: `UnresolvedFrames` with `eq` and `hash`. Symbol is `Symbol` and
--                `Frames` with their methods and equality, Resolve is `From<UnresolvedFrames> for
--                Frames`, and Handler its test for the symbols of the signal handler.
--   Timer        src/timer.rs: `Timer::new`, `drop` and `timing`.
--   Report       src/report.rs: `ReportBuilder`, `build_unresolved` and `build`, on what the lock
--                guards.
--   Protos       src/proto/perftools.profiles.rs: the messages of a profile.
--   Pprof        src/report.rs: `pprof`. Strings is about its string table, Functions about the
--                tables of functions and locations, Samples about the whole profile.
--   Flamegraph   src/report.rs: `flamegraph_with_options`, and `Debug` of a report and its samples.
--   AddrValidate src/addr_validate.rs. Pipe states what the system calls document of a pipe, and what
--                the two loops make of it; Validity is about `validate` and `open_pipe`, Create
--                about `create_pipe` as it is on macOS.
--   Profiler     src/profiler.rs: `start`, `stop`, `init`, the two calls of `sigaction`, `sample`.
--                Handler is `perf_signal_handler`, Thread is `write_thread_name_fallback`, Blocklist
--                is `blocklist`, Guard is `build` and the drop of a guard.
--   PerfMap      src/perfmap.rs: `PerfMap::new` and `find`. Resolver is `init_resolver` and the
--                threads of `get_resolver`.
--   Unwind       src/backtrace. Context is the signal context, FramePointer is `Trace::trace` of
--                frame_pointer.rs (Piped is the same loop with its calls of `validate`), Framehop is
--                framehop_unwinder.rs, Shlib is framehop_unwinder/shlib.rs, Backtrace is
--                backtrace_rs.rs, and Backends are the frames of each unwinder, which the handler and
--                the reports take as a parameter.
--   Criterion    src/criterion.rs: `start_profiling` and `stop_profiling`. Session is about both.
--   System       whole profiles, composed of the parts above: a profiler that is made, a guard that is
--                built, the handler at each of a list of signals, and a report of either kind, one
--                after the other, with (Export) the pprof of the one with symbols; (Reports) signals
--                and reports in any order; and (Sequence) profiles one after the other, each up to the
--                drop of its guard. Callback is the closure of `perf_signal_handler`, which Walk runs
--                under the walks of frame_pointer.rs and of framehop.
--   Build        build.rs: `generate_prost`, with its panics; Comment is the line by which it knows a
--                file that is current.
-- The modules that are named for what they prove (Add, Rarest, Read, Exact, Rows, Life, Owner and
-- so on) define predicates for the statements, and lemmas. The Tests modules run the code on small
-- inputs.
--
-- How the code is modelled. A `&mut self` method takes the state and gives the new one with its
-- result; a `Result` is a `Result`; an index out of range and a failed `assert` panic. `usize`,
-- `isize` and `u64` are 64 bits wide. Counts are `isize` and are kept as bit patterns, which wrap,
-- as in an optimised build; a build with overflow checks would panic there. Sizes and the number of
-- flushes are not wrapped: they would need a file of 2 ^ 64 bytes. Unsafe code that views values as
-- bytes is a layout with a round trip. Texts are lists of codes. A loop over an iterator is a drain
-- with fuel for one call of `next` more than there are items, which is the call that gives `None`;
-- the two loops on a thread's number run at most `MAX_THREAD_NAME` times, and that is their
-- recursion.
--
-- What is a parameter, since its code is elsewhere: the temporary file (a write that succeeds
-- appends all of its bytes, one that fails appends fewer, and a read through a new handle starts at
-- the first byte), the memory layout of entries, the hasher (equal words give equal hashes),
-- `sigaction` (it gives the old action and installs the new one, or fails and changes nothing),
-- `setitimer`, the clocks, the unwinder (in the handler, as the frames that it would walk, which
-- System/Walk finds, and three methods of a frame), the calls on the pipe (a read empties it or fills
-- its buffer, a write of readable bytes succeeds where there is room; `fcntl` sets the flags of one
-- descriptor, or fails and changes nothing), demangling and UTF-8, the loaded libraries, a
-- post-processor of frames, the crates framehop and backtrace (whose frames are walked in order until
-- the closure answers false), object files, files of a benchmark, SHA256 and prost, the order in which
-- a `HashSet` gives its members (the same members in some order), and the drawing of folded lines. The
-- files of build.rs are one too (the generator and a write leave the description alone, and what a
-- successful write has written is then there; each call may fail). A report takes the lookup in a perf map as a parameter too, which `resolve_in_perfmap` of PerfMap can
-- fill.
--
-- A numeral is written with fuel for 20 digits, which a 64-bit number does not exceed.
--
-- A walk along frame pointers or over framehop's frames needs one round of fuel more than the
-- callback answers true, and the callback of the handler does that `MAX_DEPTH` times at most.
--
-- The loops of `validate` go round once for each call that a signal interrupts. How many of those
-- are still to come is part of what a system state is seen to be, and the fuel exceeds it.
--
-- A thread of `get_resolver` is two steps behind its comparison of times, which is atomic with the
-- read of the file's time. The lines that it reads later are part of what the system answers to its
-- call, and they may be any. `RESOLVER` is made in one step.
--
-- The lock lets one thread at a time at the profiler, so a call is one step; a signal that comes in
-- the middle of one finds the lock held. A handler that reads a thread's name without end is taken
-- to panic, though what the code does then is undefined.
--
-- Not modelled: logging, which has no effect on the state, and the fields of a signal context on
-- FreeBSD. Examples and benches are not part of the library's logic, and `generate_protobuf` of
-- build.rs only calls a code generator.
pub mod Base
pub mod Error
pub mod Collector
pub mod Frames
pub mod Timer
pub mod Report
pub mod Protos
pub mod Pprof
pub mod Flamegraph
pub mod PerfMap
pub mod AddrValidate
pub mod Unwind
pub mod Profiler
pub mod Criterion
pub mod System
pub mod Build
