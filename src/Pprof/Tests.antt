-- ===== src/Pprof/Tests.antt =====
-- The export of a small report: two rows that share a function.
use strict_pprof_rs.Base.{ℕ, ◌≡◌, refl, true, none, some, List, [], ◌∷◌, Returns}
use strict_pprof_rs.Base.Int.{pos}
use strict_pprof_rs.Base.Texts.{Text}
use strict_pprof_rs.Timer.{ReportTiming}
use strict_pprof_rs.Frames.Symbol.{Symbol, Texts, Frames}
use strict_pprof_rs.Report.{Report}
use strict_pprof_rs.Pprof.{pprof, contains}
use strict_pprof_rs.Pprof.Samples.{Decodes, pprof-Decodes}

abbrev plain_texts : Texts
plain_texts = record { from_utf8_lossy = λ bs. bs; demangle = λ bs. bs }

abbrev symbol : ℕ → Symbol
symbol c = record {
  name = some (c ∷ []);
  addr = none;
  lineno = some 3;
  filename = some (b'f' ∷ []);
}

abbrev row : List (List Symbol) → Frames
row frames = record {
  frames = frames;
  thread_name = b'm' ∷ [];
  thread_id = 1;
  sample_timestamp = 5;
}

abbrev some_timing : ReportTiming
some_timing = record { frequency = pos 100; start_time = 5; duration = 30 }

abbrev report : Report Frames
report = record {
  rows =
      (row ((symbol b'a' ∷ symbol b'b' ∷ []) ∷ (symbol b'c' ∷ []) ∷ []), 4)
      ∷ (row ((symbol b'b' ∷ []) ∷ []), 2)
      ∷ [];
  timing = some_timing;
}

abbrev pub as_they_are : List Text → List Text
as_they_are us = us

pub kept : (q : Text) (us : List Text) → contains q us ≡ true → contains q (as_they_are us) ≡ true
kept q us h = h

pprof-Decodes_example :
    Returns (pprof plain_texts as_they_are report) (Decodes plain_texts 99 report)
pprof-Decodes_example = pprof-Decodes plain_texts as_they_are report 99 kept refl
