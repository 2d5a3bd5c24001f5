-- ===== src/Collector/Combined/Sound.antt =====
-- `Collector::add` on a collector that stands for a sequence of additions, and after a failed flush.
use strict_pprof_rs.Base.{
  ℕ, ◌+◌, ◌<◌, ◌≤◌, ◌≡◌, Bool, Option, none, some, List, [], ◌∷◌, ◌++◌, arith, Key, Result, ok, err,
  Returns, returns, Agrees,
}
use strict_pprof_rs.Collector.Bucket.{Entry}
use strict_pprof_rs.Collector.Bucket.Hits.{hits, hits-append}
use strict_pprof_rs.Collector.Bucket.Weight.{weight, weight-append}
use strict_pprof_rs.Collector.Counter
use strict_pprof_rs.Collector.Counter.{HashCounter}
use strict_pprof_rs.Collector.Counter.Valid.{entries}
use strict_pprof_rs.Collector.Counter.Valid as Counters
use strict_pprof_rs.Collector.Counter.Add as Adds
use strict_pprof_rs.Collector.TempArray.{IoError, TempFiles, Layout, TempFdArray, buffer_length}
use strict_pprof_rs.Collector.TempArray.Store.{Holds, pushed, IsSpoilt, Pushed}
use strict_pprof_rs.Collector.TempArray.Push.{push-Pushed, push-IsSpoilt}
use strict_pprof_rs.Collector.Combined.{Collector, add}

module _ (fs : TempFiles) {T : Type 0} ⦃key : Key T⦄ (layout : Layout fs.Byte (Entry T))
    (sample_size : ℕ) where
  -- The collector stands for the sequence `samples` of additions.
  pub record Collects (c : Collector fs.File T) (samples : List (Entry T)) : Type 0 where
    pub valid : Counters.IsValid c.map
    pub flushed : List (Entry T)
    pub holds : Holds fs layout sample_size c.temp_array flushed
    pub exact :
        (q : T)
        → Agrees
            (weight q (entries c.map)
              + weight q (pushed fs layout sample_size c.temp_array flushed))
            (weight q samples)
    -- It holds no item that was not added.
    pub kept :
        (p : T → Bool)
        → hits p (entries c.map) + hits p (pushed fs layout sample_size c.temp_array flushed)
          ≤ hits p samples

  -- A flush has failed; the counter is still well-formed.
  pub record IsSpoiltCollector (c : Collector fs.File T) : Type 0 where
    pub valid : Counters.IsValid c.map
    pub spoilt : IsSpoilt fs layout sample_size c.temp_array

  -- What an addition to a collector that stands for `samples` has done, by how it ended.
  abbrev pub Added :
      List (Entry T) → Entry T → Result IoError (Unit {0}) × Collector fs.File T → Type 0
  Added samples e (ok _, c') = Collects c' (samples ++ e ∷ [])
  Added samples e (err _, c') = IsSpoiltCollector c'

  module _ (room : 0 < buffer_length sample_size) (c : Collector fs.File T) (e : Entry T) where
    -- After the counter has handed `old` back, and the array has taken it.
    spill-Added :
        (samples : List (Entry T)) (h : Collects c samples) (map' : HashCounter T) (old : Entry T)
        → Adds.Added c.map e.item e.count (map', some old)
        → (r : Result IoError (Unit {0}) × TempFdArray fs.File (Entry T))
        → Pushed fs layout sample_size c.temp_array h.flushed old r
        → Added samples e (r.0, record { map = map'; temp_array = r.1 })
    spill-Added samples h map' old a (ok _, array') (later, holds, order) = record {
      valid = a.valid;
      flushed = later;
      holds = holds;
      exact = λ q. rw order (
          let grown = weight-append q samples (e ∷ []) in
          let spilt =
            weight-append q (pushed fs layout sample_size c.temp_array h.flushed) (old ∷ []) in
          (
            omega (arith, a.conserved q, (h.exact q).0, grown, spilt),
            λ small.
                let before = (h.exact q).1 (omega (arith, grown)) in
                omega (arith, a.exact q (omega (arith, before, grown)), before, grown, spilt),
          ));
      kept = λ p. rw order (
          omega (
            arith,
            a.kept p,
            h.kept p,
            hits-append p samples (e ∷ []),
            hits-append p (pushed fs layout sample_size c.temp_array h.flushed) (old ∷ []),
          ));
    }
    spill-Added samples h map' old a (err _, array') spoilt = record {
      valid = a.valid;
      spoilt = spoilt;
    }

    evict-Added :
        (samples : List (Entry T)) (h : Collects c samples) (map' : HashCounter T)
        (o : Option (Entry T))
        → Counter.add c.map e.item e.count ≡ returns (map', o)
        → Adds.Added c.map e.item e.count (map', o)
        → Returns (add fs layout sample_size c e.item e.count) (Added samples e)
    unfolding add
    evict-Added samples h map' none run a = (
      (ok tt, record c { map = map' }),
      rw run,
      record {
        valid = a.valid;
        flushed = h.flushed;
        holds = h.holds;
        exact = λ q.
            let grown = weight-append q samples (e ∷ []) in
            (
              omega (arith, a.conserved q, (h.exact q).0, grown),
              λ small.
                  let before = (h.exact q).1 (omega (arith, grown)) in
                  omega (arith, a.exact q (omega (arith, before, grown)), before, grown),
            );
        kept = λ p. omega (arith, a.kept p, h.kept p, hits-append p samples (e ∷ []));
      },
    )
    evict-Added samples h map' (some old) run a =
        let (r, pushes, p) =
          push-Pushed fs layout sample_size room c.temp_array old h.flushed h.holds in
        (
          (r.0, record { map = map'; temp_array = r.1 }),
          rw (run, pushes),
          spill-Added samples h map' old a r p,
        )

    -- From a sound collector, an addition that succeeds is counted; one that fails spoils it.
    pub add-Added :
        (samples : List (Entry T))
        → Collects c samples
        → Returns (add fs layout sample_size c e.item e.count) (Added samples e)
    add-Added samples h =
        let (r, run, a) = Adds.counter_add-Added c.map e.item e.count h.valid in
        evict-Added samples h r.0 r.1 run a

    spoilt_evict :
        (h : IsSpoiltCollector c) (map' : HashCounter T) (o : Option (Entry T))
        → Counter.add c.map e.item e.count ≡ returns (map', o)
        → Counters.IsValid map'
        → Returns (add fs layout sample_size c e.item e.count) (λ r. IsSpoiltCollector r.1)
    unfolding add
    spoilt_evict h map' none run v =
        ((ok tt, record c { map = map' }), rw run, record { valid = v; spoilt = h.spoilt })
    spoilt_evict h map' (some old) run v =
        let (r, pushes, p) = push-IsSpoilt fs layout sample_size room c.temp_array old h.spoilt in
        (
          (r.0, record { map = map'; temp_array = r.1 }),
          rw (run, pushes),
          record { valid = v; spoilt = p },
        )

    -- An addition to a spoilt collector leaves it spoilt.
    pub add-IsSpoiltCollector :
        IsSpoiltCollector c
        → Returns (add fs layout sample_size c e.item e.count) (λ r. IsSpoiltCollector r.1)
    add-IsSpoiltCollector h =
        let (r, run, a) = Adds.counter_add-Added c.map e.item e.count h.valid in
        spoilt_evict h r.0 r.1 run a.valid
