-- ===== src/Unwind/Backtrace.antt =====
-- `Trace::trace` of src/backtrace/backtrace_rs.rs, which leaves the walk to the crate backtrace.
use strict_pprof_rs.Base.{◌≡◌, Bool, Option, List}
use strict_pprof_rs.Unwind.Context.{UContext}
use strict_pprof_rs.Unwind.Feed.{feed}

-- The crate, in the thread that calls it: the frames on its stack, and `trace_unsynchronized`, which
-- calls the closure on each frame until it answers false.
pub record Crate : Type 1 where
  pub Frame : Type 0
  pub frames : List Frame
  pub trace_unsynchronized : {S : Type 0} → (S → Frame → Bool × S) → S → S
  pub trace_unsynchronized_lem :
      {S : Type 0} (cb : S → Frame → Bool × S) (s : S)
      → trace_unsynchronized cb s ≡ feed cb s frames

-- `trace`. The signal context is not looked at, so the walk starts at the handler itself.
unfoldable pub trace :
    (crate : Crate) {S : Type 0} → Option UContext → (S → crate.Frame → Bool × S) → S → S
trace crate ucontext cb s = crate.trace_unsynchronized cb s
