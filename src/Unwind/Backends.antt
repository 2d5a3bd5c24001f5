-- ===== src/Unwind/Backends.antt =====
-- The frames of the three unwinders of src/backtrace, as the rest of the program uses them.
use strict_pprof_rs.Base.{ℕ, Bool, List, if◌then◌else◌}
use strict_pprof_rs.Frames.{Backend, RawSymbol}

-- `symbol_address` of a frame that is only an address: itself on macOS, and otherwise what
-- `_Unwind_FindEnclosingFunction` finds.
abbrev pub function_address : Bool → (ℕ → ℕ) → ℕ → ℕ
function_address macos find_enclosing ip = if macos then ip else find_enclosing ip

-- `Frame` of frame_pointer.rs. `resolve` is `backtrace::resolve`.
abbrev pub frame_pointer_frames : Bool → (ℕ → ℕ) → (ℕ → List RawSymbol) → Backend
frame_pointer_frames macos find_enclosing resolve = record {
  Frame = ℕ;
  ip = λ frame. frame;
  symbol_address = function_address macos find_enclosing;
  resolve_symbol = resolve;
}

-- `Frame` of framehop_unwinder.rs, which is the same.
abbrev pub framehop_frames : Bool → (ℕ → ℕ) → (ℕ → List RawSymbol) → Backend
framehop_frames = frame_pointer_frames

-- A frame of the crate backtrace, with its own methods.
abbrev pub backtrace_frames :
    (Frame : Type 0) → (ip symbol_address : Frame → ℕ) → (Frame → List RawSymbol) → Backend
backtrace_frames Frame ip symbol_address resolve_frame = record {
  Frame = Frame;
  ip = ip;
  symbol_address = symbol_address;
  resolve_symbol = resolve_frame;
}
