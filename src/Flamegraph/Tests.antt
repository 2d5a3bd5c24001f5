-- ===== src/Flamegraph/Tests.antt =====
-- A folded line, and the text form of the same row.
use mathlib.Core.List.{flatten}
use strict_pprof_rs.Base.{ℕ, ◌≡◌, refl, none, some, [], ◌∷◌, arith}
use strict_pprof_rs.Base.Decimal.{decimal}
use strict_pprof_rs.Frames.Symbol.{Symbol, Texts, Frames, name, raw_name, thread_name_or_id}
use strict_pprof_rs.Flamegraph.{line_of}
use strict_pprof_rs.Flamegraph.Lines.{read_line, stack_of, read_line-line_of, Lacks, AllLack}

abbrev plain_texts : Texts
plain_texts = record { from_utf8_lossy = λ bs. bs; demangle = λ bs. bs }

abbrev symbol : ℕ → Symbol
symbol c = record { name = some (c ∷ []); addr = none; lineno = none; filename = none }

abbrev key : Frames
key = record {
  frames = (symbol b'a' ∷ symbol b'b' ∷ []) ∷ (symbol b'c' ∷ []) ∷ [];
  thread_name = b'm' ∷ [];
  thread_id = 1;
  sample_timestamp = 5;
}

no_semicolon : Lacks b';' (thread_name_or_id key)
unfolding thread_name_or_id
no_semicolon = (λ e. omega arith, tt)

no_semicolons : AllLack b';' (stack_of plain_texts key)
unfolding name raw_name flatten
no_semicolons = ((λ e. omega arith, tt), ((λ e. omega arith, tt), ((λ e. omega arith, tt), tt)))

read_line-line_of_example :
    read_line (line_of plain_texts (key, 12))
    ≡ some (thread_name_or_id key ∷ stack_of plain_texts key, 12)
read_line-line_of_example =
    read_line-line_of plain_texts key 12 (omega arith) no_semicolon no_semicolons

-- m;c;b;a 12
folded :
    line_of plain_texts (key, 12)
    ≡ b'm' ∷ b';' ∷ b'c' ∷ b';' ∷ b'b' ∷ b';' ∷ b'a' ∷ b' ' ∷ b'1' ∷ b'2' ∷ []
unfolding line_of name raw_name thread_name_or_id decimal
folded = refl
