-- ===== src/System/Walk.antt =====
-- What the closure of `perf_signal_handler` has taken when a walk of src/backtrace is over: along frame
-- pointers, with the calls of `validate`, and over the frames of the crate framehop.
mod Tests
use strict_pprof_rs.Base.{
  ℕ, ◌+◌, ◌<◌, ◌≡◌, ◌⊎◌, inl, inr, refl, ◌∙◌, ap, Bool, Option, List, [], Returns, take, Result,
  none, some,
}
use strict_pprof_rs.Frames.{Backend, RawSymbol, max_depth}
use strict_pprof_rs.Profiler.Handler.{unblocked}
use strict_pprof_rs.AddrValidate.{Pipes, mem_validate_pipe, Calls}
use strict_pprof_rs.AddrValidate.Pipe.{View, Laws, Quiet}
use strict_pprof_rs.AddrValidate.Validity.{IsSound, IsUnused, Unopened}
use strict_pprof_rs.Unwind.Context.{Libc, UContext}
use strict_pprof_rs.Unwind.FramePointer.{FramePointerLayout}
use strict_pprof_rs.Unwind.FramePointer.Piped.{trace, returned, trace-Walked}
use strict_pprof_rs.Unwind.Feed.{feed}
use strict_pprof_rs.Unwind.Framehop
use strict_pprof_rs.Unwind.Framehop.{
  Frames, Target, Registers, UnwindRegs, get_regs_from_context, seen, trace-seen,
}
use strict_pprof_rs.System.Callback.{Taken, callback, left, callback-spends, feed-take}
use strict_pprof_rs.Unwind.Backends.{frame_pointer_frames}

module _ (looks : Bool) (segments : List (ℕ × ℕ)) (macos : Bool) (find_enclosing : ℕ → ℕ)
    (resolve : ℕ → List RawSymbol) where
  -- Frames that are their addresses.
  abbrev backend : Backend
  backend = frame_pointer_frames macos find_enclosing resolve

  -- The closure on them.
  abbrev pub step : Taken backend looks segments → ℕ → Bool × Taken backend looks segments
  step = callback backend looks segments

  module _ {S : Type 0} {calls : Calls S} (view : View calls) (laws : Laws view)
      (read_ptr : ℕ → FramePointerLayout) (tries : ℕ) where
    open view use {interrupts}

    -- With fuel for one frame more than `MAX_DEPTH`, and for the interrupts to come, the handler's
    -- walk over the pipe ends, from whatever context and on whatever memory, if the pipe is open
    -- with at most one check's bytes in it or has not been used. It has taken the
    -- return addresses along the chain of readable frames, up to the first that is blocked and
    -- `MAX_DEPTH` at most; or it has taken none, the pipe was not open, and a call of `pipe2` has failed. The pipe is left as sound as
    -- it was, and what is readable stays so.
    pub trace-Taken :
        (fuel : ℕ) (libc : Libc) (ucontext : Option UContext) (p : Pipes) (s : S)
        → max_depth < fuel
        → interrupts s < tries
        → IsSound view p s
        → Returns
            (trace calls read_ptr tries step fuel libc ucontext ([], 0) (p, s))
            (λ (t, (p', s')).
              ((t.0
                    ≡ take max_depth (
                        unblocked backend looks segments (
                          returned calls read_ptr tries step view laws s libc ucontext
                            (max_depth + 1))))
                  × IsSound view p' s'
                ⊎ (t.0 ≡ []) × IsUnused view p p' × Unopened view s s')
              × Quiet view s s')
    trace-Taken fuel libc ucontext p s enough few sound =
        let (x, ran, (outcome, quiet)) =
          trace-Walked calls read_ptr tries step view laws (left backend looks segments)
            (callback-spends backend looks segments) fuel libc ucontext ([], 0) p s enough few
            sound in
        let ips = returned calls read_ptr tries step view laws s libc ucontext (max_depth + 1) in
        (
          x,
          ran,
          (
            elim outcome [
              | inl (done, sound') ↦
                  inl (ap (λ t. t.0) done ∙ feed-take backend looks segments ips, sound')
              | inr (kept, unused, failed) ↦ inr (ap (λ t. t.0) kept, unused, failed)
            ],
            quiet,
          ),
        )

  module _ {E : Type 0} (framehop : Frames E) (read : ℕ → Result (Unit {0}) ℕ) where
    -- The addresses that the crate framehop gives from these registers, one more than `MAX_DEPTH` at
    -- most.
    abbrev pub addresses_from : framehop.Unwinder → Option (UnwindRegs × ℕ) → List ℕ
    addresses_from u none = []
    addresses_from u (some (regs, pc)) =
        Framehop.addresses framehop read step (max_depth + 1) (framehop.iter_frames u pc regs)

    -- Nothing, where another thread holds the unwinder.
    abbrev pub listed : Target → Option (Option Registers) → Option framehop.Unwinder → List ℕ
    listed target ctx none = []
    listed target ctx (some u) = addresses_from u (get_regs_from_context target ctx)

    seen-listed :
        (target : Target) (ctx : Option (Option Registers)) (unwinder : Option framehop.Unwinder)
        → seen framehop read step
            (left backend looks segments)
            (callback-spends backend looks segments)
            target
            ctx
            ([], 0)
            unwinder
          ≡ feed step ([], 0) (listed target ctx unwinder)
    seen-listed target ctx none = refl
    seen-listed target ctx (some u) = by_registers (get_regs_from_context target ctx)
      where
        by_registers :
            (o : Option (UnwindRegs × ℕ))
            → Framehop.seen_from framehop read step
                (left backend looks segments)
                (callback-spends backend looks segments)
                ([], 0)
                u
                o
              ≡ feed step ([], 0) (addresses_from u o)
        by_registers none = refl
        by_registers (some (regs, pc)) = refl

    -- The same walk with the unwinder of framehop_unwinder.rs, which may be held by another thread:
    -- it ends, and has taken the addresses that the crate gives, up to the first that is blocked
    -- and `MAX_DEPTH` at most.
    pub framehop-Taken :
        (fuel : ℕ) (target : Target) (ctx : Option (Option Registers))
        (unwinder : Option framehop.Unwinder)
        → max_depth < fuel
        → Returns (Framehop.trace framehop read step target ctx fuel ([], 0) unwinder) (λ (t, _).
          t.0 ≡ take max_depth (unblocked backend looks segments (listed target ctx unwinder)))
    framehop-Taken fuel target ctx unwinder enough =
        let (x, ran, walked) =
          trace-seen framehop read step (left backend looks segments)
            (callback-spends backend looks segments) target ctx fuel ([], 0) unwinder enough in
        let ips = listed target ctx unwinder in
        (
          x,
          ran,
          ap (λ t. t.0) (walked ∙ seen-listed target ctx unwinder)
              ∙ feed-take backend looks segments ips,
        )
