-- ===== src/Report/Total.antt =====
-- `ReportBuilder::build` of src/report.rs against the samples that went into the collector: how many of
-- them the resolved rows count.
use strict_pprof_rs.Base.{
  ℕ, ◌≤◌, ◌<◌, ◌≡◌, refl, Bool, Option, List, [], ◌∷◌, arith, Result, ok, err, Returns, returns,
  word, half_word, leb, not, length,
}
use strict_pprof_rs.Error.{Error, io_error}
use strict_pprof_rs.Collector.Bucket.{Entry}
use strict_pprof_rs.Collector.Bucket.Weight.{weight}
use strict_pprof_rs.Collector.Bucket.Hits.{hits}
use strict_pprof_rs.Collector.TempArray.{TempFiles, Layout}
use strict_pprof_rs.Collector.Combined.{Collector, try_iter}
use strict_pprof_rs.Collector.Combined.Exact.{IsReliable, IsExact}
use strict_pprof_rs.Frames.{Backend, UnresolvedFrames}
use strict_pprof_rs.Frames.Equal.{frames_key}
use strict_pprof_rs.Frames.Symbol.{Symbol, Texts, Frames}
use strict_pprof_rs.Frames.Compare.{resolved_key}
use strict_pprof_rs.Report.{Report, ReportBuilder, build, resolved_row}
use strict_pprof_rs.Report.Sums.{
  total, total_weights, rows_total, Respects, AreSmall, merge-rows_total,
}
use strict_pprof_rs.Report.Resolved.{AllNamed, row_of, AllNamed-IsKeyed}

module _ (fs : TempFiles) (backend : Backend)
    (layout : Layout fs.Byte (Entry (UnresolvedFrames backend.Frame))) (sample_size : ℕ)
    (finish : List ℕ → ℕ) (texts : Texts) (resolve_in_perfmap : ℕ → Option Symbol)
    (finish_resolved : List (List (List ℕ)) × List ℕ × ℕ × ℕ → ℕ) where
  abbrev Sample : Type 0
  Sample = UnresolvedFrames backend.Frame

  -- The name's length is inside its array.
  abbrev pub IsNamed : Sample → Type 0
  IsNamed u = u.thread_name_length ≤ length u.thread_name

  abbrev pub AreNamed : List (Entry Sample) → Type 0
  AreNamed [] = Unit
  AreNamed (e ∷ es) = IsNamed e.item × AreNamed es

  abbrev misnamed : Sample → Bool
  misnamed u = not (leb u.thread_name_length (length u.thread_name))

  AreNamed-hits : (es : List (Entry Sample)) → AreNamed es → hits misnamed es ≡ 0
  AreNamed-hits [] h = refl
  AreNamed-hits (e ∷ es) (named, rest) = ground (arith, named, AreNamed-hits es rest)

  -- Entries that stem from named samples can be resolved.
  usable :
      (es : List (Entry Sample))
      → hits misnamed es ≤ 0
      → (let instance key = frames_key backend finish in (q : Sample) → weight q es < half_word)
      → AllNamed fs backend layout sample_size finish texts resolve_in_perfmap finish_resolved es
        × AreSmall es
  usable [] none_bad small = (tt, tt)
  usable (e ∷ es) none_bad small =
      let instance key = frames_key backend finish in
      let own = small e.item in
      let own_share = key.equal_refl e.item in
      let (named, counts) = usable es (ground (arith, none_bad)) (λ q. omega (arith, small q)) in
      let name : IsNamed e.item = ground (arith, none_bad) in
      let few : e.count < half_word = ground (arith, own, own_share) in
      ((name, omega (arith, few), named), (few, counts))

  -- The row under which a sample is counted.
  abbrev pub row : Option (Frames → Frames) → Sample → Frames
  row = row_of fs backend layout sample_size finish texts resolve_in_perfmap finish_resolved

  -- The report has the builder's timing, and the rows that pass the test count the samples whose row
  -- passes; or it is an error, which a reliable file system never causes.
  abbrev pub IsTotal :
      ReportBuilder → (Frames → Bool) → List (Entry Sample) → Result Error (Report Frames) → Type 0
  IsTotal b p samples (err e) = ¬ IsReliable fs
  IsTotal b p samples (ok report) =
      (report.timing ≡ b.timing)
      × (rows_total p report.rows ≡ total (λ u. p (row b.frames_post_processor u)) samples)

  module _ (b : ReportBuilder) (p : Frames → Bool)
      (same_rows : Respects ⦃key = resolved_key finish_resolved⦄ p)
      (same_samples : Respects ⦃key = frames_key backend finish⦄
        (λ u. p (row b.frames_post_processor u))) where
    pub built :
        (samples : List (Entry Sample)) (c : Collector fs.File Sample)
        (r : Result ℕ (List (Entry Sample)))
        → let instance key = frames_key backend finish in
          AreNamed samples
          → ((q : Sample) → weight q samples < half_word)
          → total (λ u. p (row b.frames_post_processor u)) samples < word
          → try_iter fs layout sample_size c ≡ returns r
          → IsExact fs layout sample_size samples r
          → Returns
              (build fs backend layout sample_size finish texts resolve_in_perfmap finish_resolved b
                (ok c))
              (IsTotal b p samples)
    unfolding build
    built samples c (err e) named small few read exact = (err (io_error e), rw read refl, exact)
    built samples c (ok es) named small few read (exact, given) =
        let instance key = frames_key backend finish in
        let same = λ (q : Sample). (exact q).1 (omega (arith, small q)) in
        let none_bad : hits misnamed es ≤ 0 =
          omega (arith, given misnamed, AreNamed-hits samples named) in
        let (keyed, counts) = usable es none_bad (λ q. omega (arith, small q, same q)) in
        let sums =
          total_weights (λ u. p (row b.frames_post_processor u)) same_samples es samples same in
        let (rows, merges, counted) =
          merge-rows_total ⦃key = resolved_key finish_resolved⦄ p same_rows
            (resolved_row fs backend layout sample_size finish texts resolve_in_perfmap
              finish_resolved b.frames_post_processor)
            (row b.frames_post_processor) es []
            (AllNamed-IsKeyed fs backend layout sample_size finish texts resolve_in_perfmap
              finish_resolved b.frames_post_processor es keyed)
            counts (omega (arith, sums, few)) in
        (
          ok (record { rows = rows; timing = b.timing }),
          rw (read, merges) refl,
          (refl, omega (arith, counted, sums)),
        )
