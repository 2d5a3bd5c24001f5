-- ===== src/Collector/Combined/Exact.antt =====
-- `Collector` against the sequence of samples that it was given: whatever the file system answers,
-- what can be read from a collector are the exact counts.
use mathlib.Core.List.{append-nil, append_assoc}
use strict_pprof_rs.Base.{
  ℕ, suc, ◌*◌, ◌≤◌, ◌<◌, ◌≡◌, ◌⊎◌, inl, inr, refl, Bool, List, [], ◌∷◌, ◌++◌, arith, Key, Result,
  ok, err, Run, Returns, returns, ◌>>=◌, length, take, Agrees, length-replicate, replicate,
}
use strict_pprof_rs.Collector.Bucket.{Entry}
use strict_pprof_rs.Collector.Bucket.Hits.{hits, hits-append}
use strict_pprof_rs.Collector.Bucket.Weight.{weight, weight-append}
use strict_pprof_rs.Collector.Counter
use strict_pprof_rs.Collector.Counter.{HashCounter}
use strict_pprof_rs.Collector.Counter.Valid.{entries}
use strict_pprof_rs.Collector.Counter.Add as Adds
use strict_pprof_rs.Collector.TempArray
use strict_pprof_rs.Collector.TempArray.{IoError, TempFiles, Layout, TempFdArray, buffer_length}
use strict_pprof_rs.Collector.TempArray.Store.{Holds, WritesSucceed, length-encode}
use strict_pprof_rs.Collector.TempArray.Read.{Yields, try_iter-Yields, try_iter-IsSpoilt}
use strict_pprof_rs.Collector.TempArray.Iter
use strict_pprof_rs.Collector.Combined.{Collector, new, add, try_iter}
use strict_pprof_rs.Collector.Combined.Sound.{
  Collects, IsSpoiltCollector, Added, add-Added, add-IsSpoiltCollector,
}

-- The file system never fails, and reads what the file holds.
pub record IsReliable (fs : TempFiles) : Type 0 where
  pub writes : WritesSucceed fs
  pub reads :
      (f : fs.File) (n : ℕ)
      → n ≤ length (fs.contents f)
      → (h h' : fs.Handle) × (bytes : List fs.Byte) × (k : ℕ) × (fs.reopen f ≡ ok h)
        × (fs.read_exact h n ≡ ok (bytes, h'))
        × (fs.seek_end h' ≡ ok k)

module _ (fs : TempFiles) {T : Type 0} ⦃key : Key T⦄ (layout : Layout fs.Byte (Entry T))
    (sample_size : ℕ) where
  -- Adds each sample in turn; like `Profiler::sample`, it goes on after an error.
  unfoldable pub add_all : Collector fs.File T → List (Entry T) → Run (Collector fs.File T)
  add_all c [] = returns c
  add_all c (e ∷ es) = add fs layout sample_size c e.item e.count >>= λ (_, c'). add_all c' es

  -- The collector counts `samples`, or a flush has failed on the way.
  abbrev pub Stands : Collector fs.File T → List (Entry T) → Type 0
  Stands c samples =
      Collects fs layout sample_size c samples ⊎ IsSpoiltCollector fs layout sample_size c

  module _ (room : 0 < buffer_length sample_size) where
    -- One more sample.
    pub add-Stands :
        (c : Collector fs.File T) (samples : List (Entry T)) (e : Entry T)
        → Stands c samples
        → Returns (add fs layout sample_size c e.item e.count) (λ r. Stands r.1 (samples ++ e ∷ []))
    add-Stands c samples e (inr spoilt) =
        let (r, run, s) = add-IsSpoiltCollector fs layout sample_size room c e spoilt in
        (r, run, inr s)
    add-Stands c samples e (inl sound) =
        let (r, run, a) = add-Added fs layout sample_size room c e samples sound in
        (r, run, by_result r a)
      where
        by_result :
            (r : Result IoError (Unit {0}) × Collector fs.File T)
            → Added fs layout sample_size samples e r
            → Stands r.1 (samples ++ e ∷ [])
        by_result (ok _, c') a = inl a
        by_result (err _, c') a = inr a

    pub add_all-Stands :
        (es : List (Entry T)) (c : Collector fs.File T) (samples : List (Entry T))
        → Stands c samples
        → Returns (add_all c es) (λ c'. Stands c' (samples ++ es))
    unfolding add_all
    add_all-Stands [] c samples h = (c, refl, rw append-nil h)
    add_all-Stands (e ∷ es) c samples h =
        let (r, run, s) = add-Stands c samples e h in
        let (c', runs, t) = add_all-Stands es r.1 (samples ++ e ∷ []) s in
        (c', rw (run, runs), rw append_assoc at t)

  -- What a read of a collector that stands for `samples` gives: exact counts, of items that were
  -- given, or an error, which a reliable file system never causes.
  abbrev pub IsExact : List (Entry T) → Result IoError (List (Entry T)) → Type 0
  IsExact samples (err e) = ¬ IsReliable fs
  IsExact samples (ok es) =
      ((q : T) → Agrees (weight q es) (weight q samples))
      × ((p : T → Bool) → hits p es ≤ hits p samples)

  -- A reliable file system reads a sound array.
  unreadable :
      (a : TempFdArray fs.File (Entry T)) (flushed values : List (Entry T)) (e : IoError)
      → Holds fs layout sample_size a flushed
      → IsReliable fs
      → ¬ Yields fs layout sample_size a values (err e)
  unreadable a flushed values e holds reliable y =
      let stored : length (fs.contents a.file)
          ≡ buffer_length sample_size * a.flush_n * layout.size_of =
        rw (holds.on_disk, length-encode layout flushed, holds.counted) in
      let (h, h', bytes, k, o, x, s) =
        reliable.reads a.file (buffer_length sample_size * a.flush_n * layout.size_of)
          (omega (arith, stored)) in
      y h h' bytes k o x s

  pub try_iter-IsExact :
      (c : Collector fs.File T) (samples : List (Entry T))
      → Stands c samples
      → Returns (try_iter fs layout sample_size c) (IsExact samples)
  unfolding try_iter
  try_iter-IsExact c samples (inr h) =
      let (r, run, (e, same)) = try_iter-IsSpoilt fs layout sample_size c.temp_array h.spoilt in
      (
        err e,
        ground (arith, Adds.iter-entries c.map h.valid, run, same),
        λ reliable. h.spoilt.failed reliable.writes,
      )
  try_iter-IsExact c samples (inl h) =
      let (r, run, y) = try_iter-Yields fs layout sample_size c.temp_array h.flushed h.holds in
      by_result r run y
    where
      spilt : List (Entry T)
      spilt = take c.temp_array.buffer_index c.temp_array.buffer ++ h.flushed

      by_result :
          (r : Result IoError (Iter.TempFdArrayIterator fs.Byte (Entry T)))
          → Iter.try_iter fs layout sample_size c.temp_array ≡ returns r
          → Yields fs layout sample_size c.temp_array spilt r
          → Returns (try_iter fs layout sample_size c) (IsExact samples)
      by_result (err e) run y = (
        err e,
        rw (Adds.iter-entries c.map h.valid, run),
        λ reliable. unreadable c.temp_array h.flushed spilt e h.holds reliable y,
      )
      by_result (ok it) run (whole, drains) = (
        ok (entries c.map ++ spilt),
        rw (
          Adds.iter-entries c.map h.valid,
          run,
          drains (suc (length (Iter.items layout it))) (rw whole (omega arith)),
        ),
        (
          λ q.
              let whole_sum = weight-append q (entries c.map) spilt in
              let there =
                weight-append q (take c.temp_array.buffer_index c.temp_array.buffer) h.flushed in
              let back =
                weight-append q h.flushed (take c.temp_array.buffer_index c.temp_array.buffer) in
              (
                omega (arith, (h.exact q).0, whole_sum, there, back),
                λ small. omega (arith, (h.exact q).1 small, whole_sum, there, back),
              ),
          λ p. omega (
            arith,
            h.kept p,
            hits-append p (entries c.map) spilt,
            hits-append p (take c.temp_array.buffer_index c.temp_array.buffer) h.flushed,
            hits-append p h.flushed (take c.temp_array.buffer_index c.temp_array.buffer),
          ),
        ),
      )

  -- A new collector stands for no sample.
  pub new-Collects :
      (d : T) (f : fs.File)
      → fs.contents f ≡ []
      → (c : Collector fs.File T) × (new sample_size d (ok f) ≡ ok c)
        × Collects fs layout sample_size c []
  unfolding new TempArray.new
  new-Collects d f fresh =
      let (valid, none_yet) = Adds.empty-IsValid d in
      (
        record {
          map = Counter.empty d;
          temp_array = record {
            file = f;
            buffer = replicate (buffer_length sample_size) (record { item = d; count = 0 });
            buffer_index = 0;
            flush_n = 0;
          };
        },
        refl,
        record {
          valid = valid;
          flushed = [];
          holds = record {
            width = length-replicate (buffer_length sample_size) (record { item = d; count = 0 });
            fits = omega arith;
            on_disk = fresh;
            counted = omega arith;
          };
          exact = λ q. rw none_yet (refl, λ _. refl);
          kept = λ p. rw none_yet (omega arith);
        },
      )

  -- From a new collector, additions in any number can be followed by a read.
  unfoldable pub collect : T → fs.File → List (Entry T) → Run (Result IoError (List (Entry T)))
  collect d f samples = elim (new sample_size d (ok f)) [
    | err e ↦ returns (err e)
    | ok c ↦ add_all c samples >>= try_iter fs layout sample_size
  ]

  -- Provided that the buffer has room for an entry and that the new file is empty:
  -- a collector that was new, was given `samples` in any number and is then read does not panic. It
  -- gives an error only if the file system has failed, and otherwise entries whose counts add up, for
  -- each key, to the counts that were given under that key: modulo 2 ^ 64, and exactly if that sum
  -- fits a 64-bit word. For every test on items, no more of these entries pass it than of the samples;
  -- so the collector gives out no item that it was not given.
  pub collect-IsExact :
      (d : T) (f : fs.File) (samples : List (Entry T))
      → 0 < buffer_length sample_size
      → fs.contents f ≡ []
      → Returns (collect d f samples) (IsExact samples)
  unfolding collect
  collect-IsExact d f samples room fresh =
      let (c, made, start) = new-Collects d f fresh in
      let (c', run, stands) = add_all-Stands room samples c [] (inl start) in
      let (r, read, exact) = try_iter-IsExact c' samples stands in
      (r, rw (made, collect, run, read), exact)
