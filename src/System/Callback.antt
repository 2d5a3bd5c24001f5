-- ===== src/System/Callback.antt =====
-- The closure that `perf_signal_handler` of src/profiler.rs gives to the unwinder.
use mathlib.Core.List.{append_assoc, append-nil}
use strict_pprof_rs.Base.{
  ℕ, ◌+◌, ◌-◌, ◌++◌, ◌<◌, ◌≡◌, inl, inr, refl, ◌∙◌, ap, Bool, true, false, Option, List, [], ◌∷◌,
  arith, ltb, ◌&&◌, if◌then◌else◌, take, Bool-cases,
}
use strict_pprof_rs.Frames.{Backend, RawSymbol, max_depth}
use strict_pprof_rs.Profiler.{is_blocklisted}
use strict_pprof_rs.Profiler.Handler.{collect, collect-take, unblocked}
use strict_pprof_rs.Unwind.Feed.{feed}
use strict_pprof_rs.Unwind.Context.{UContext}
use strict_pprof_rs.Unwind.Backtrace as Backtrace
use strict_pprof_rs.Unwind.Backtrace.{Crate}
use strict_pprof_rs.Unwind.Backends.{backtrace_frames}

module _ (backend : Backend) (looks : Bool) (segments : List (ℕ × ℕ)) where
  open backend use {Frame, ip}

  -- The variables `bt` and `index`.
  abbrev pub Taken : Type 0
  Taken = List Frame × ℕ

  -- The closure. `looks` is the feature `frame-pointer`.
  abbrev pub callback : Taken → Frame → Bool × Taken
  callback (bt, index) frame =
      if looks && is_blocklisted segments (ip frame)
      then (false, (bt, index))
      else if ltb index max_depth
      then (true, (bt ++ frame ∷ [], index + 1))
      else (false, (bt, index))

  abbrev pub left : Taken → ℕ
  left (bt, index) = max_depth - index

  pub callback-spends :
      (t : Taken) (frame : Frame) → (callback t frame).0 ≡ true → left (callback t frame).1 < left t
  callback-spends t frame on = ground arith

  -- Fed with the frames of a walk, it takes what `collect` takes of them.
  feed-collect :
      (bt : List Frame) (index : ℕ) (fs : List Frame)
      → (feed callback (bt, index) fs).0 ≡ bt ++ collect backend looks segments index fs
  unfolding collect
  feed-collect bt index [] = rw append-nil refl
  feed-collect bt index (f ∷ fs) = elim (Bool-cases (looks && is_blocklisted segments (ip f))) [
    | inl blocked ↦ rw (blocked, append-nil) refl
    | inr clear ↦ elim (Bool-cases (ltb index max_depth)) [
      | inl room ↦ rw (clear, room, feed-collect (bt ++ f ∷ []) (index + 1) fs, append_assoc) refl
      | inr full ↦ rw (clear, full, append-nil) refl
    ]
  ]

  -- From the start, these are the frames in front of the first that is blocked, `MAX_DEPTH` at most.
  pub feed-take :
      (fs : List Frame)
      → (feed callback ([], 0) fs).0 ≡ take max_depth (unblocked backend looks segments fs)
  feed-take fs =
      feed-collect [] 0 fs ∙ collect-take backend looks segments 0 max_depth fs (omega arith)

-- With the crate backtrace, the walk takes of all frames of the thread, whatever the context, those in
-- front of the first that is blocked, `MAX_DEPTH` at most.
pub backtrace-Taken :
    (crate : Crate) (ip symbol_address : crate.Frame → ℕ) (resolve : crate.Frame → List RawSymbol)
    (looks : Bool) (segments : List (ℕ × ℕ)) (ucontext : Option UContext)
    → (let backend = backtrace_frames crate.Frame ip symbol_address resolve in
        (Backtrace.trace crate ucontext (callback backend looks segments) ([], 0)).0
        ≡ take max_depth (unblocked backend looks segments crate.frames))
unfolding Backtrace.trace
backtrace-Taken crate ip symbol_address resolve looks segments ucontext =
    let backend = backtrace_frames crate.Frame ip symbol_address resolve in
    ap (λ t. t.0) (crate.trace_unsynchronized_lem (callback backend looks segments) ([], 0))
    ∙ feed-take backend looks segments crate.frames
