-- ===== src/Report/Resolved.antt =====
-- `ReportBuilder::build` of src/report.rs against what it reads from the collector: the rows of resolved
-- samples.
use native.Mathlib.Nat.{zero-add}
use strict_pprof_rs.Base.{
  ℕ, ◌≤◌, ◌<◌, ◌≡◌, refl, none, some, Option, List, [], ◌∷◌, arith, Result, ok, err, Returns,
  returns, word, Agrees, leb, true, false, take, length,
}
use strict_pprof_rs.Error.{Error, io_error}
use strict_pprof_rs.Collector.Bucket.{Entry, slice}
use strict_pprof_rs.Collector.TempArray.{TempFiles, Layout, IoError}
use strict_pprof_rs.Collector.Combined.{Collector, try_iter}
use strict_pprof_rs.Frames.{Backend, UnresolvedFrames}
use strict_pprof_rs.Frames.Equal.{frames_key}
use strict_pprof_rs.Frames.Symbol.{Symbol, Texts, Frames}
use strict_pprof_rs.Frames.Compare.{resolved_key}
use strict_pprof_rs.Frames.Resolve.{resolve, resolve_frames}
use strict_pprof_rs.Report.{Report, ReportBuilder, build, resolved_row}
use strict_pprof_rs.Report.Rows.{value, value-nil, positives, IsKeyed, merge-positives}

module _ (fs : TempFiles) (backend : Backend)
    (layout : Layout fs.Byte (Entry (UnresolvedFrames backend.Frame))) (sample_size : ℕ)
    (finish : List ℕ → ℕ) (texts : Texts) (resolve_in_perfmap : ℕ → Option Symbol)
    (finish_resolved : List (List (List ℕ)) × List ℕ × ℕ × ℕ → ℕ) where
  abbrev Sample : Type 0
  Sample = UnresolvedFrames backend.Frame

  -- The name's length is inside its array, and the count is a word.
  abbrev pub AllNamed : List (Entry Sample) → Type 0
  AllNamed [] = Unit
  AllNamed (e ∷ es) =
      (e.item.thread_name_length ≤ length e.item.thread_name) × (e.count < word) × AllNamed es

  abbrev processed : Option (Frames → Frames) → Frames → Frames
  processed none f = f
  processed (some processor) f = processor f

  -- The row under which a sample is counted: its symbols, without the handler's frames, and its
  -- thread's name, after the post-processor.
  abbrev pub row_of : Option (Frames → Frames) → Sample → Frames
  row_of processor u = processed processor (record {
    frames = resolve_frames backend texts resolve_in_perfmap false u.frames;
    thread_name = texts.from_utf8_lossy (take u.thread_name_length u.thread_name);
    thread_id = u.thread_id;
    sample_timestamp = u.sample_timestamp;
  })

  resolved_row-row_of :
      (processor : Option (Frames → Frames)) (u : Sample)
      → u.thread_name_length ≤ length u.thread_name
      → resolved_row fs backend layout sample_size finish texts resolve_in_perfmap finish_resolved
          processor u
        ≡ returns (row_of processor u)
  unfolding resolved_row resolve slice
  resolved_row-row_of none u h =
      let inside : leb u.thread_name_length (length u.thread_name) ≡ true = ground (arith, h) in
      rw inside refl
  resolved_row-row_of (some processor) u h =
      let inside : leb u.thread_name_length (length u.thread_name) ≡ true = ground (arith, h) in
      rw inside refl

  -- Every item has its row.
  pub AllNamed-IsKeyed :
      (processor : Option (Frames → Frames)) (es : List (Entry Sample))
      → AllNamed es
      → IsKeyed ⦃key = resolved_key finish_resolved⦄
          (resolved_row fs backend layout sample_size finish texts resolve_in_perfmap
            finish_resolved processor)
          (row_of processor)
          es
  AllNamed-IsKeyed processor [] h = tt
  AllNamed-IsKeyed processor (e ∷ es) (named, small, rest) =
      (resolved_row-row_of processor e.item named, small, AllNamed-IsKeyed processor es rest)

  -- What is read from the collector: an error, or entries whose names are in order.
  abbrev pub AreNamed : Result IoError (List (Entry Sample)) → Type 0
  AreNamed (err e) = Unit
  AreNamed (ok es) = AllNamed es

  -- The report has the builder's timing, and the row of each resolved sample holds what its entries
  -- add up to, modulo 2 ^ 64 and without a wrap if the sum is below. An error of the read is passed on.
  abbrev pub IsResolved :
      ReportBuilder → Result IoError (List (Entry Sample)) → Result Error (Report Frames) → Type 0
  IsResolved b (err e) x = x ≡ err (io_error e)
  IsResolved b (ok es) (err x) = ⊥
  IsResolved b (ok es) (ok report) =
      let instance key = resolved_key finish_resolved in
      (report.timing ≡ b.timing)
      × ((q : Frames)
          → Agrees (value q report.rows) (positives (row_of b.frames_post_processor) q es))

  -- If the names of what is read from the collector are in order and its counts fit a word, `build`
  -- does not panic. It passes an error of the read on. Otherwise the report has the builder's timing,
  -- and its row for a resolved and post-processed sample holds the sum of the positive counts of
  -- exactly the entries that give that row, modulo 2 ^ 64, and without a wrap if the sum is below.
  pub build-IsResolved :
      (b : ReportBuilder) (c : Collector fs.File Sample) (r : Result IoError (List (Entry Sample)))
      → try_iter fs ⦃key = frames_key backend finish⦄ layout sample_size c ≡ returns r
      → AreNamed r
      → Returns
          (build fs backend layout sample_size finish texts resolve_in_perfmap finish_resolved b
            (ok c))
          (IsResolved b r)
  unfolding build
  build-IsResolved b c (err e) read h = (err (io_error e), rw read refl, refl)
  build-IsResolved b c (ok es) read h =
      let instance key = resolved_key finish_resolved in
      let (rows, merges, agree) =
        merge-positives
          (resolved_row fs backend layout sample_size finish texts resolve_in_perfmap
            finish_resolved b.frames_post_processor)
          (row_of b.frames_post_processor) es [] (AllNamed-IsKeyed b.frames_post_processor es h) in
      (
        ok (record { rows = rows; timing = b.timing }),
        rw (read, merges) refl,
        (refl, λ q. rw (value-nil q, zero-add) at (agree q)),
      )
