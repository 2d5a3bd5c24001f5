-- ===== src/Report/Tests.antt =====
-- Samples on an in-memory file, and the theorem about the resolved report there.
use strict_pprof_rs.Base.{
  ℕ, ◌+◌, ◌^◌, ◌≡◌, refl, List, [], ◌∷◌, ◌++◌, arith, Result, ok, err, Returns, length, take, leb,
  if◌then◌else◌, replicate, length-take, ◌<◌, returns, Option, some, none,
}
use strict_pprof_rs.Base.Int.{pos}
use strict_pprof_rs.Timer.{ReportTiming}
use strict_pprof_rs.Collector.Bucket.{Entry}
use strict_pprof_rs.Collector.TempArray.{IoError, TempFiles, Layout}
use strict_pprof_rs.Frames.{Backend, UnresolvedFrames}
use strict_pprof_rs.Frames.Equal.{frames_key}
use strict_pprof_rs.Collector.Bucket.{slice}
use strict_pprof_rs.Collector.Bucket.Iter as Bucket_iter
use strict_pprof_rs.Collector.Counter as Counter
use strict_pprof_rs.Collector.TempArray.Iter as Array_iter
use strict_pprof_rs.Collector.Combined.{Collector, try_iter}
use strict_pprof_rs.Frames.Symbol.{Symbol, Texts}
use strict_pprof_rs.Report.{build, new}
use strict_pprof_rs.Report.Resolved.{IsResolved, build-IsResolved}

-- Frames that are their own addresses.
abbrev pub plain : Backend
plain = record { Frame = ℕ; ip = λ f. f; symbol_address = λ f. f; resolve_symbol = λ f. [] }

abbrev pub Sample : Type 0
Sample = UnresolvedFrames ℕ

abbrev pub Cells : Type 0
Cells = List (Entry Sample)

-- A memory whose cells hold whole entries.
abbrev pub append_cells : Cells → Cells → Result IoError (Unit {0}) × Cells
append_cells f cells = (ok tt, f ++ cells)

abbrev pub read_cells : Cells → ℕ → Result IoError (Cells × Cells)
read_cells h n = if leb n (length h) then ok (take n h, h) else err 0

pub append_cells_ok : (f f' cells : Cells) → append_cells f cells ≡ (ok tt, f') → f' ≡ f ++ cells
append_cells_ok f f' cells e = cc

pub append_cells_err :
    (f f' cells : Cells) (x : IoError)
    → append_cells f cells ≡ (err x, f')
    → (n : ℕ) × (n < length cells) × (f' ≡ f ++ take n cells)
append_cells_err f f' cells x e = absurd (cc)

pub read_cells_ok :
    (f h h' : Cells) (n : ℕ) (cells : Cells)
    → ◌≡◌ {A = Result IoError Cells} (ok f) (ok h)
    → read_cells h n ≡ ok (cells, h')
    → (cells ≡ take n f) × (length cells ≡ n)
read_cells_ok f h h' n cells o r = ground (arith, length-take n h)

abbrev pub in_memory : TempFiles
in_memory = record {
  Byte = Entry Sample;
  File = Cells;
  Handle = Cells;
  contents = λ f. f;
  write_all = append_cells;
  reopen = λ f. ok f;
  read_exact = read_cells;
  seek_end = λ h. ok (length h);
  write_all_ok = append_cells_ok;
  write_all_err = append_cells_err;
  read_exact_ok = read_cells_ok;
}

abbrev pub sample : ℕ → List ℕ → ℕ → Entry Sample
sample thread stack time = record {
  item = record {
    frames = stack;
    thread_name = replicate 16 0;
    thread_name_length = 0;
    thread_id = thread;
    sample_timestamp = time;
  };
  count = 1;
}

abbrev pub first_cell : Cells → Entry Sample
first_cell [] = sample 0 [] 0
first_cell (e ∷ _) = e

abbrev pub cell_layout : Layout (Entry Sample) (Entry Sample)
cell_layout = record {
  size_of = 1;
  to_bytes = λ e. e ∷ [];
  from_bytes = first_cell;
  size_of_pos = omega arith;
  length-to_bytes = λ e. refl;
  from_bytes-to_bytes = λ e. refl;
}

abbrev some_timing : ReportTiming
some_timing = record { frequency = pos 99; start_time = 5; duration = 30 }

abbrev pub count_hash : List ℕ → ℕ
count_hash [] = 0
count_hash (w ∷ ws) = w + count_hash ws

-- A collector with one sample in the counter, and the same in the buffer behind it.
abbrev both : Collector Cells Sample
both = record {
  map = record { buckets = record { length = 1; entries = sample 1 (7 ∷ 8 ∷ []) 100 ∷ [] } ∷ [] };
  temp_array = record {
    file = [];
    buffer = sample 1 (7 ∷ 8 ∷ []) 100 ∷ sample 0 [] 0 ∷ [];
    buffer_index = 1;
    flush_n = 0;
  };
}

abbrev twice : List (Entry Sample)
twice = sample 1 (7 ∷ 8 ∷ []) 100 ∷ sample 1 (7 ∷ 8 ∷ []) 100 ∷ []

twice_read :
    try_iter in_memory ⦃key = frames_key plain count_hash⦄ cell_layout (2 ^ 17) both
    ≡ returns (ok twice)
unfolding try_iter Counter.iter Bucket_iter.iter Bucket_iter.drain Bucket_iter.next
    Counter.chain_iters Array_iter.try_iter Array_iter.drain Array_iter.next Array_iter.decode slice
twice_read = refl

-- The symbol of an address has one letter.
abbrev pub letter : ℕ → Option Symbol
letter ip = some (record { name = some (ip ∷ []); addr = none; lineno = none; filename = none })

abbrev pub same_texts : Texts
same_texts = record { from_utf8_lossy = λ bs. bs; demangle = λ bs. bs }

abbrev pub no_hash : List (List (List ℕ)) × List ℕ × ℕ × ℕ → ℕ
no_hash _ = 0

build-IsResolved_example :
    Returns
      (build in_memory plain cell_layout
        (2 ^ 17)
        count_hash
        same_texts
        letter
        no_hash
        (new some_timing)
        (ok both))
      (IsResolved in_memory plain cell_layout
        (2 ^ 17)
        count_hash
        same_texts
        letter
        no_hash
        (new some_timing)
        (ok twice))
build-IsResolved_example =
    build-IsResolved in_memory plain cell_layout (2 ^ 17) count_hash same_texts letter no_hash
      (new some_timing) both (ok twice) twice_read
      (omega arith, omega arith, (omega arith, omega arith, tt))
