-- ===== src/Frames/Tests.antt =====
-- The theorems about samples and symbols, on frames that are numbers.
use mathlib.Core.Option.{none}
use strict_pprof_rs.Base.{
  ℕ, zero, suc, inl, ◌≡◌, ◌↔◌, refl, true, some, List, [], ◌∷◌, ◌++◌, replicate, Option, false,
}
use strict_pprof_rs.Frames.{Backend, UnresolvedFrames, RawSymbol, equal, hash}
use strict_pprof_rs.Frames.Equal.{stack, equal_iff, hash-equal}
use strict_pprof_rs.Frames.Symbol.{Symbol, Texts, Frames, frames_equal, name, raw_name}
use strict_pprof_rs.Frames.Compare.{shown as compared, frames_equal_iff}
use strict_pprof_rs.Frames.Handler.{handler_name, NamesHandler}
use strict_pprof_rs.Frames.Resolve.{
  HandlerFree, shown, resolve_frames, symbolised, Keeps, resolve_frames-handler,
  resolve_frames-Keeps,
}

abbrev named : List ℕ → RawSymbol
named n = record { name = some n; addr = none; lineno = none; filename = none }

-- Frame 0 is the handler's, frame 1 has no symbols, and others have a name of one letter.
abbrev letters : ℕ → List RawSymbol
letters zero = named handler_name ∷ []
letters (suc zero) = []
letters n = named (n ∷ []) ∷ []

abbrev lettered : Backend
lettered = record { Frame = ℕ; ip = λ f. f; symbol_address = λ f. f; resolve_symbol = letters }

abbrev plain_texts : Texts
plain_texts = record { from_utf8_lossy = λ bs. bs; demangle = λ bs. bs }

abbrev no_perfmap : ℕ → Option Symbol
no_perfmap _ = none

abbrev sample : ℕ → List ℕ → ℕ → UnresolvedFrames ℕ
sample thread frames time = record {
  frames = frames;
  thread_name = replicate 16 0;
  thread_name_length = 0;
  thread_id = thread;
  sample_timestamp = time;
}

abbrev thread : ℕ
thread = 1

equal_iff_example : (equal lettered (sample 1 (7 ∷ []) 10) (sample 1 (8 ∷ []) 10) ≡ true) ↔ (
    (thread ≡ thread)
    × (stack lettered (sample 1 (7 ∷ []) 10) ≡ stack lettered (sample 1 (8 ∷ []) 10)))
equal_iff_example = equal_iff lettered (sample 1 (7 ∷ []) 10) (sample 1 (8 ∷ []) 10)

same_stack : equal lettered (sample 1 (7 ∷ []) 10) (sample 1 (7 ∷ []) 20) ≡ true
unfolding equal
same_stack = refl

hash-equal_example : hash lettered (sample 1 (7 ∷ []) 10) ≡ hash lettered (sample 1 (7 ∷ []) 20)
hash-equal_example = hash-equal lettered (sample 1 (7 ∷ []) 10) (sample 1 (7 ∷ []) 20) same_stack

abbrev resolved : ℕ → Frames
resolved time = record {
  frames = (record { name = some (7 ∷ []); addr = none; lineno = none; filename = none } ∷ []) ∷ [];
  thread_name = b'm' ∷ [];
  thread_id = 1;
  sample_timestamp = time;
}

frames_equal_iff_example :
    (frames_equal (resolved 10) (resolved 20) ≡ true)
    ↔ (compared (resolved 10) ≡ compared (resolved 20))
frames_equal_iff_example = frames_equal_iff (resolved 10) (resolved 20)

two_free : HandlerFree lettered plain_texts no_perfmap (2 ∷ 1 ∷ [])
unfolding name raw_name
two_free = (((λ e. absurd (cc e)), (λ e. absurd (cc e)), tt), (tt, tt))

three_free : HandlerFree lettered plain_texts no_perfmap (3 ∷ 1 ∷ [])
unfolding name raw_name
three_free = (((λ e. absurd (cc e)), (λ e. absurd (cc e)), tt), (tt, tt))

is_the_handler : NamesHandler plain_texts (shown lettered plain_texts no_perfmap 0)
unfolding name raw_name
is_the_handler = inl (inl refl)

resolve_frames-handler_example :
    resolve_frames lettered plain_texts no_perfmap false (2 ∷ 1 ∷ 0 ∷ 5 ∷ 3 ∷ 1 ∷ [])
    ≡ symbolised lettered plain_texts no_perfmap (2 ∷ 1 ∷ [])
      ++ symbolised lettered plain_texts no_perfmap (3 ∷ 1 ∷ [])
resolve_frames-handler_example =
    resolve_frames-handler lettered plain_texts no_perfmap (2 ∷ 1 ∷ []) (3 ∷ 1 ∷ []) 0 5 two_free
      is_the_handler three_free

resolve_frames-Keeps_example :
    Keeps lettered plain_texts no_perfmap []
      (0 ∷ 2 ∷ 3 ∷ [])
      (resolve_frames lettered plain_texts no_perfmap false (0 ∷ 2 ∷ 3 ∷ []))
resolve_frames-Keeps_example = resolve_frames-Keeps lettered plain_texts no_perfmap (0 ∷ 2 ∷ 3 ∷ [])
