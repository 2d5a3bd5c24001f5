-- ===== src/Report/Exact.antt =====
-- The reports of src/report.rs against the samples that went into the collector.
use strict_pprof_rs.Base.{
  ℕ, ◌<◌, ◌≡◌, refl, List, [], ◌∷◌, arith, Key, Result, ok, err, Run, Returns, returns, ◌>>=◌,
  half_word, inl,
}
use strict_pprof_rs.Error.{Error, io_error}
use strict_pprof_rs.Timer.{ReportTiming}
use strict_pprof_rs.Collector.Bucket.{Entry}
use strict_pprof_rs.Collector.Bucket.Weight.{weight}
use strict_pprof_rs.Collector.TempArray.{TempFiles, Layout, buffer_length}
use strict_pprof_rs.Collector.Combined.{Collector, new, try_iter}
use strict_pprof_rs.Collector.Combined.Exact.{
  IsReliable, add_all, add_all-Stands, IsExact, try_iter-IsExact, new-Collects,
}
use strict_pprof_rs.Frames.{Backend, UnresolvedFrames}
use strict_pprof_rs.Frames.Equal.{frames_key}
use strict_pprof_rs.Report.{Report, build_unresolved}
use strict_pprof_rs.Report.Rows.{value, value-nil, positives, IsKeyed, merge-positives}

module _ {ℓ} {T : Type ℓ} ⦃key : Key T⦄ where
  -- Counts whose sums stay below 2 ^ 63 are positive or zero, so none is passed over.
  positives-weight :
      (es : List (Entry T))
      → ((q : T) → weight q es < half_word)
      → ((q : T) → positives (λ k. k) q es ≡ weight q es) × IsKeyed returns (λ k. k) es
  positives-weight [] small = (λ q. refl, tt)
  positives-weight (e ∷ es) small =
      let own = small e.item in
      let own_share = key.equal_refl e.item in
      let (sums, keyed) = positives-weight es (λ q. omega (arith, small q)) in
      (λ q. ground (arith, own, own_share, sums q), (refl, ground (arith, own, own_share), keyed))

module _ (fs : TempFiles) (backend : Backend)
    (layout : Layout fs.Byte (Entry (UnresolvedFrames backend.Frame))) (sample_size : ℕ)
    (finish : List ℕ → ℕ) where
  abbrev Sample : Type 0
  Sample = UnresolvedFrames backend.Frame

  -- The report has the timing it was given and, for each stack of each thread, the exact count; or
  -- it is an error, which a reliable file system never causes.
  abbrev pub IsHistogram :
      List (Entry Sample) → ReportTiming → Result Error (Report Sample) → Type 0
  IsHistogram samples timing (err e) = ¬ IsReliable fs
  IsHistogram samples timing (ok report) =
      let instance key = frames_key backend finish in
      (report.timing ≡ timing) × ((q : Sample) → value q report.rows ≡ weight q samples)

  pub merged :
      (samples : List (Entry Sample)) (timing : ReportTiming) (c : Collector fs.File Sample)
      (r : Result ℕ (List (Entry Sample)))
      → let instance key = frames_key backend finish in
        ((q : Sample) → weight q samples < half_word)
        → try_iter fs layout sample_size c ≡ returns r
        → IsExact fs layout sample_size samples r
        → Returns
            (build_unresolved fs backend layout sample_size finish (ok c) timing)
            (IsHistogram samples timing)
  unfolding build_unresolved
  merged samples timing c (err e) small run exact = (err (io_error e), rw run, exact)
  merged samples timing c (ok es) small run exact =
      let instance key = frames_key backend finish in
      let same = λ (q : Sample). (exact.0 q).1 (omega (arith, small q)) in
      let (sums, keyed) = positives-weight es (λ q. omega (arith, small q, same q)) in
      let (rows, merges, agree) = merge-positives returns (λ k. k) es [] keyed in
      (
        ok (record { rows = rows; timing = timing }),
        rw (run, merges),
        (
          refl,
          λ q.
              let none_yet = value-nil q in
              let total = (agree q).1 (omega (arith, none_yet, sums q, same q, small q)) in
              omega (arith, total, none_yet, sums q, same q),
        ),
      )

  -- A profiler's data from its first sample to its report: a new collector, every sample added, and
  -- the builder run.
  unfoldable pub profile :
      Sample → fs.File → List (Entry Sample) → ReportTiming → Run (Result Error (Report Sample))
  profile d f samples timing =
      let instance key = frames_key backend finish in
      elim (new sample_size d (ok f)) [
        | err e ↦ returns (err (io_error e))
        | ok c ↦ add_all fs layout sample_size c samples >>= λ c'.
            build_unresolved fs backend layout sample_size finish (ok c') timing
      ]

  -- Provided that the buffer has room for a sample, that the new file is empty, and that each stack
  -- of each thread has fewer than 2 ^ 63 samples, a profile of any number of samples does not panic.
  -- It ends in an error only if the file system has failed; otherwise the report's row for each stack
  -- of each thread holds exactly the number of its samples, and a stack with no row had none.
  pub profile-IsHistogram :
      (d : Sample) (f : fs.File) (samples : List (Entry Sample)) (timing : ReportTiming)
      → 0 < buffer_length sample_size
      → fs.contents f ≡ []
      → (let instance key = frames_key backend finish in
          (q : Sample) → weight q samples < half_word)
      → Returns (profile d f samples timing) (IsHistogram samples timing)
  unfolding profile
  profile-IsHistogram d f samples timing room fresh small =
      let instance key = frames_key backend finish in
      let (c, made, start) = new-Collects fs layout sample_size d f fresh in
      let (c', run, stands) = add_all-Stands fs layout sample_size room samples c [] (inl start) in
      let (r, read, exact) = try_iter-IsExact fs layout sample_size c' samples stands in
      let (report, built, histogram) = merged samples timing c' r small read exact in
      (report, rw (made, profile, run, built), histogram)
