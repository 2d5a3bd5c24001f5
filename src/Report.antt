-- ===== src/Report.antt =====
-- `ReportBuilder` of src/report.rs: the entries of the collector, merged into one row for each key.
pub mod Rows
pub mod Sums
pub mod Total
pub mod Exact
pub mod Resolved
pub mod Tests
use strict_pprof_rs.Base.{
  ℕ, zero, suc, ◌+◌, ◌≡◌, Option, none, some, List, [], ◌∷◌, Key, Result, ok, err, Run, returns,
  panics, ◌>>=◌, word_add, signed_ltb, if◌then◌else◌,
}
use strict_pprof_rs.Base.HashMap.{HashMap, get, assign, insert}
use strict_pprof_rs.Error.{Error, creating_error, from_io}
use strict_pprof_rs.Timer.{ReportTiming}
use strict_pprof_rs.Collector.Bucket.{Entry}
use strict_pprof_rs.Collector.TempArray.{TempFiles, Layout}
use strict_pprof_rs.Collector.Combined.{Collector, try_iter}
use strict_pprof_rs.Frames.{Backend, UnresolvedFrames}
use strict_pprof_rs.Frames.Equal.{frames_key}
use strict_pprof_rs.Frames.Symbol.{Symbol, Texts, Frames}
use strict_pprof_rs.Frames.Compare.{resolved_key}
use strict_pprof_rs.Frames.Resolve.{resolve}

-- `Report` and `UnresolvedReport`, by the type of their keys.
pub record Report {ℓ} (K : Type ℓ) : Type ℓ where
  pub rows : HashMap K ℕ
  pub timing : ReportTiming

-- `ReportBuilder`, but for the lock, whose content is an argument of the two builders.
pub record ReportBuilder : Type 0 where
  pub frames_post_processor : Option (Frames → Frames)
  pub timing : ReportTiming

-- `ReportBuilder::new`
abbrev pub new : ReportTiming → ReportBuilder
new timing = record { frames_post_processor = none; timing = timing }

-- `ReportBuilder::frames_post_processor`
abbrev pub with_processor : (Frames → Frames) → ReportBuilder → ReportBuilder
with_processor processor b = record b { frames_post_processor = some processor }

module _ {ℓ} {K : Type ℓ} ⦃key : Key K⦄ where
  -- Adds a count to the row of its key: `get_mut`, and `insert` if there is none.
  unfoldable pub tally : K → ℕ → HashMap K ℕ → Run (HashMap K ℕ)
  unfolding insert get assign
  tally k c m = elim (get k m) [
    | some value ↦ returns (assign k (word_add value c) m)
    | none ↦ let (old, m') = insert k c m in elim old [ none ↦ returns m' | some _ ↦ panics ]
  ]

  -- The loop of both builders, which differ in the key that they make of an item. Only entries with
  -- a count above zero are taken.
  unfoldable pub merge {κ} :
      {T : Type κ} → (T → Run K) → List (Entry T) → HashMap K ℕ → Run (HashMap K ℕ)
  merge to_key [] m = returns m
  merge to_key (e ∷ es) m =
      (if signed_ltb 0 e.count then (to_key e.item >>= λ k. tally k e.count m) else returns m)
      >>= merge to_key es

module _ (fs : TempFiles) (backend : Backend)
    (layout : Layout fs.Byte (Entry (UnresolvedFrames backend.Frame))) (sample_size : ℕ)
    (finish : List ℕ → ℕ) where
  -- `build_unresolved`, on what the lock guards.
  unfoldable pub build_unresolved :
      Result Error (Collector fs.File (UnresolvedFrames backend.Frame))
      → ReportTiming
      → Run (Result Error (Report (UnresolvedFrames backend.Frame)))
  build_unresolved (err e) timing = returns (err creating_error)
  build_unresolved (ok collector) timing =
      let instance key = frames_key backend finish in
      try_iter fs layout sample_size collector >>= λ entries. elim (from_io entries) [
        | err e ↦ returns (err e)
        | ok es ↦
            merge returns es [] >>= λ rows. returns (ok (record { rows = rows; timing = timing }))
      ]

  module _ (texts : Texts) (resolve_in_perfmap : ℕ → Option Symbol)
      (finish_resolved : List (List (List ℕ)) × List ℕ × ℕ × ℕ → ℕ) where
    -- The key of a row of `Report`: the resolved sample, after the post-processor if one is set.
    unfoldable pub resolved_row :
        Option (Frames → Frames) → UnresolvedFrames backend.Frame → Run Frames
    resolved_row frames_post_processor u = resolve backend texts resolve_in_perfmap u >>= λ frames.
        returns (elim frames_post_processor [ none ↦ frames | some processor ↦ processor frames ])

    -- `build`, on what the lock guards.
    unfoldable pub build :
        ReportBuilder
        → Result Error (Collector fs.File (UnresolvedFrames backend.Frame))
        → Run (Result Error (Report Frames))
    build b (err e) = returns (err creating_error)
    build b (ok collector) =
        let instance key = frames_key backend finish in
        let instance row_key = resolved_key finish_resolved in
        try_iter fs layout sample_size collector >>= λ entries. elim (from_io entries) [
          | err e ↦ returns (err e)
          | ok es ↦ merge (resolved_row b.frames_post_processor) es [] >>= λ rows.
              returns (ok (record { rows = rows; timing = b.timing }))
        ]
