-- ===== src/System/Export.antt =====
-- The pprof export of a whole profile of src: what the signals that came add up to in it.
use strict_pprof_rs.Base.{
  ℕ, suc, ◌+◌, ◌≡◌, ◌<◌, ◌∙◌, ap, refl, Bool, true, Option, List, [], ◌∷◌, arith, Result, ok, err,
  Run, Returns, returns, ◌>>=◌, length, half_word,
}
use strict_pprof_rs.Error.{Error}
use strict_pprof_rs.Timer.{Timer, ReportTiming}
use strict_pprof_rs.Collector.Bucket.{Entry}
use strict_pprof_rs.Collector.TempArray.{TempFiles, Layout, buffer_length}
use strict_pprof_rs.Collector.Combined.Exact.{IsReliable}
use strict_pprof_rs.Frames.{Backend, UnresolvedFrames}
use strict_pprof_rs.Profiler
use strict_pprof_rs.Profiler.{Platform, Profiler}
use strict_pprof_rs.Profiler.Guard.{ProfilerGuardBuilder, guard, World, build}
use strict_pprof_rs.System.{Event, AllNamed, samples_of, observe_resolved}
use strict_pprof_rs.Frames.Symbol.{Symbol, Texts, Frames}
use strict_pprof_rs.Report.{ReportBuilder}
use strict_pprof_rs.Report.Sums.{total}
use strict_pprof_rs.Report.Total.{IsTotal}
use strict_pprof_rs.Base.HashMap.{HashMap}
use strict_pprof_rs.Base.Texts.{Text}
use strict_pprof_rs.Protos.{Profile}
use strict_pprof_rs.Protos as Messages
use strict_pprof_rs.Report.{Report}
use strict_pprof_rs.Report.Sums.{rows_total}
use strict_pprof_rs.Pprof.{pprof, contains}
use strict_pprof_rs.Pprof.Samples.{Decodes, AllShow, pprof-Decodes}
use strict_pprof_rs.System.Resolved.{session-IsTotal}
use strict_pprof_rs.Base.Int.{pos}

-- The first value of each sample of a profile, which is its count, added up.
abbrev first_value : List ℕ → ℕ
first_value [] = 0
first_value (n ∷ ns) = n

abbrev pub counted : List Messages.Sample → ℕ
counted [] = 0
counted (s ∷ ss) = first_value s.value + counted ss

abbrev any_row : Frames → Bool
any_row f = true

AllShow-counted :
    (texts : Texts) (frequency : ℕ) (tbl : List Text) (name_at : ℕ → Option Text)
    (rows : HashMap Frames ℕ) (ss : List Messages.Sample)
    → AllShow texts frequency tbl name_at rows ss
    → counted ss ≡ rows_total any_row rows
AllShow-counted texts frequency tbl name_at [] [] h = refl
AllShow-counted texts frequency tbl name_at [] (s ∷ ss) h = absurd h
AllShow-counted texts frequency tbl name_at (r ∷ rs) [] h = absurd h
AllShow-counted texts frequency tbl name_at (r ∷ rs) (s ∷ ss) (one, rest) =
    let first : first_value s.value ≡ r.1 = ap first_value one.values in
    omega (arith, first, AllShow-counted texts frequency tbl name_at rs ss rest)

module _ (fs : TempFiles) (backend : Backend) (platform : Platform fs) (sample_size : ℕ)
    (frame_pointer : Bool) (d : UnresolvedFrames backend.Frame)
    (layout : Layout fs.Byte (Entry (UnresolvedFrames backend.Frame))) (finish : List ℕ → ℕ)
    (texts : Texts) (resolve_in_perfmap : ℕ → Option Symbol)
    (finish_resolved : List (List (List ℕ)) × List ℕ × ℕ × ℕ → ℕ) where
  -- Every sample counts once.
  total-length :
      (segments : List (ℕ × ℕ)) (events : List (Event backend.Frame))
      → total (λ u. true) (samples_of backend frame_pointer segments events)
        ≡ length (samples_of backend frame_pointer segments events)
  total-length segments [] = refl
  total-length segments (event ∷ events) = ground (arith, total-length segments events)

  -- `pprof` on the report, if there is one.
  abbrev pub exported :
      (List Text → List Text) → Result Error (Report Frames) → Run (Result Error Profile)
  exported into_iter (err e) = returns (err e)
  exported into_iter (ok report) = pprof texts into_iter report >>= λ profile. returns (ok profile)

  -- The profile stands for a report, and its counts add up to the number of the samples.
  abbrev pub IsExport :
      ℕ → List (Entry (UnresolvedFrames backend.Frame)) → Result Error Profile → Type 0
  IsExport frequency samples (err e) = ¬ IsReliable fs
  IsExport frequency samples (ok profile) =
      (report : Report Frames) × Decodes texts frequency report profile
      × (counted profile.sample ≡ length samples)

  -- From a new profiler on an empty file, whose guard could be built: whatever signals come, fewer than
  -- 2 ^ 63 of them, the handler, the report with symbols and its export to pprof return, provided that
  -- every thread's name ends in its array, that the buffer has room for a sample, that the frequency in
  -- the builder's timing is above zero, and that the set of strings gives all its members, in
  -- whatever order. There is an error only if the file system has failed. Otherwise a reader of the
  -- profile finds the rows of a report in it, and the counts of its samples add up to exactly the number
  -- of the signals that found the lock free and came outside the blocklist.
  pub session-IsExport :
      0 < buffer_length sample_size
      → (g : ProfilerGuardBuilder) (start_time start_instant errno : ℕ) (os₀ os : platform.Os)
        (profiler : Profiler fs.File backend.Frame platform.SigAction) (timer : Timer)
        (w : World fs backend platform sample_size frame_pointer d)
        (events : List (Event backend.Frame)) (b : ReportBuilder) (frequency : ℕ)
        (into_iter : List Text → List Text)
      → ((f : fs.File) → (platform.new_file os₀).0 ≡ ok f → fs.contents f ≡ [])
      → Profiler.new fs backend platform sample_size frame_pointer d os₀ ≡ (ok profiler, os)
      → build fs backend platform sample_size frame_pointer d g start_time start_instant
          (ok profiler, os)
        ≡ (guard timer, w)
      → AllNamed events
      → length events < half_word
      → ((q : Text) (us : List Text) → contains q us ≡ true → contains q (into_iter us) ≡ true)
      → b.timing.frequency ≡ pos (suc frequency)
      → Returns
          (observe_resolved fs backend platform sample_size frame_pointer d layout finish texts
              resolve_in_perfmap finish_resolved events w.0 errno b
            >>= exported into_iter)
          (IsExport frequency (samples_of backend frame_pointer g.blocklist_segments events))
  session-IsExport room g start_time start_instant errno os₀ os profiler timer w events b frequency
        into_iter empty new_one built named few all positive =
      let (answer, run, sums) =
        session-IsTotal fs backend platform sample_size frame_pointer d layout finish texts
          resolve_in_perfmap finish_resolved room g start_time start_instant errno os₀ os profiler
          timer w events b any_row empty new_one built named few (λ x y h. refl) (λ x y h. refl) in
      rw run (by_answer answer sums)
    where
      samples : List (Entry (UnresolvedFrames backend.Frame))
      samples = samples_of backend frame_pointer g.blocklist_segments events

      by_answer :
          (answer : Result Error (Report Frames))
          → IsTotal fs backend layout sample_size finish texts resolve_in_perfmap finish_resolved b
              any_row samples answer
          → Returns (exported into_iter answer) (IsExport frequency samples)
      by_answer (err e) failed = (err e, refl, failed)
      by_answer (ok report) (same, sums) =
          let (profile, run, decodes) =
            pprof-Decodes texts into_iter report frequency all
              (ap (λ (t : ReportTiming). t.frequency) same ∙ positive) in
          (
            ok profile,
            rw run refl,
            (
              report,
              decodes,
              AllShow-counted texts frequency _ _ report.rows profile.sample decodes.rows
                  ∙ sums
                  ∙ total-length g.blocklist_segments events,
            ),
          )
