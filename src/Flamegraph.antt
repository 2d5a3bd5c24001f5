-- ===== src/Flamegraph.antt =====
-- `Report::flamegraph` of src/report.rs: the report as folded lines, which the crate inferno draws;
-- and the text forms of a symbol, a sample and a report.

mod Tests
pub mod Lines
use strict_pprof_rs.Base.{ℕ, suc, List, [], ◌∷◌, ◌++◌, map, Result, ok, err, Run, returns, panics}
use mathlib.Core.List.{reverse}
use strict_pprof_rs.Base.Int.{ℤ, pos, negsuc, signed}
use strict_pprof_rs.Base.Decimal.{decimal}
use strict_pprof_rs.Base.HashMap.{HashMap}
use strict_pprof_rs.Base.Texts.{Text}
use strict_pprof_rs.Frames.Symbol.{Symbol, Texts, Frames, name, thread_name_or_id}

abbrev number_text : ℤ → Text
number_text (pos n) = decimal n
number_text (negsuc n) = b'-' ∷ decimal (suc n)

-- An `isize` under `{}`.
unfoldable pub display_count : ℕ → Text
display_count n = number_text (signed n)

-- `String::pop`, whose result is not used.
unfoldable pub pop : Text → Text
pop [] = []
pop (c ∷ []) = []
pop (c ∷ d ∷ cs) = c ∷ pop (d ∷ cs)

module _ (texts : Texts) where
  -- `Display for Symbol`
  abbrev pub display : Symbol → Text
  display s = name texts s

  -- `write!(&mut line, "{};", symbol)` for each symbol.
  unfoldable pub write_symbols : Text → List Symbol → Text
  write_symbols line [] = line
  write_symbols line (s ∷ ss) = write_symbols (line ++ (display s ++ b';' ∷ [])) ss

  unfoldable pub write_frames : Text → List (List Symbol) → Text
  unfolding write_symbols
  write_frames line [] = line
  write_frames line (frame ∷ frames) = write_frames (write_symbols line (reverse frame)) frames

  -- The line of a row.
  unfoldable pub line_of : Frames × ℕ → Text
  unfolding write_frames pop display_count
  line_of (key, value) =
      pop (write_frames (thread_name_or_id key ++ b';' ∷ []) (reverse key.frames))
      ++ b' ' ∷ display_count value

  -- `flamegraph_with_options`. `from_lines` is inferno's, with its options; its error panics.
  unfoldable pub flamegraph_with_options :
      {W E : Type 0} → (List Text → W → Result E W) → HashMap Frames ℕ → W → Run W
  unfolding line_of
  flamegraph_with_options from_lines [] writer = returns writer
  flamegraph_with_options from_lines (row ∷ rows) writer =
      elim (from_lines (line_of row ∷ map line_of rows) writer) [
        | ok writer' ↦ returns writer'
        | err _ ↦ panics
      ]

  abbrev frame_mark : Text
  frame_mark = b'F' ∷ b'R' ∷ b'A' ∷ b'M' ∷ b'E' ∷ b':' ∷ b' ' ∷ []

  abbrev thread_mark : Text
  thread_mark = b'T' ∷ b'H' ∷ b'R' ∷ b'E' ∷ b'A' ∷ b'D' ∷ b':' ∷ b' ' ∷ []

  abbrev thread_id_mark : Text
  thread_id_mark = b'T' ∷ b'h' ∷ b'r' ∷ b'e' ∷ b'a' ∷ b'd' ∷ b'I' ∷ b'd' ∷ b'(' ∷ []

  unfoldable pub debug_symbols : List Symbol → Text
  debug_symbols [] = []
  debug_symbols (s ∷ ss) = display s ++ (b' ' ∷ b'-' ∷ b'>' ∷ b' ' ∷ debug_symbols ss)

  unfoldable pub debug_stack : List (List Symbol) → Text
  unfolding debug_symbols
  debug_stack [] = []
  debug_stack (frame ∷ frames) = frame_mark ++ (debug_symbols frame ++ debug_stack frames)

  -- `Debug for Frames`
  unfoldable pub debug_frames : Frames → Text
  unfolding debug_stack
  debug_frames f =
      debug_stack f.frames
      ++ (thread_mark ++ (elim f.thread_name [
        | [] ↦ thread_id_mark ++ (decimal f.thread_id ++ b')' ∷ [])
        | _ ↦ f.thread_name
      ]))

  -- `Debug for Report`
  unfoldable pub debug_report : HashMap Frames ℕ → Text
  unfolding debug_frames display_count
  debug_report [] = []
  debug_report (row ∷ rows) =
      debug_frames row.0 ++ (b' ' ∷ display_count row.1 ++ (10 ∷ debug_report rows))
