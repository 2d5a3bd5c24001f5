-- ===== src/Collector/Combined.antt =====
-- `Collector` of src/collector.rs: the counter, and behind it the array of what the counter evicts.
pub mod Sound
pub mod Exact
use strict_pprof_rs.Base.{
  ℕ, suc, Option, none, some, List, [], ◌∷◌, ◌++◌, Key, Result, ok, err, Run, returns, ◌>>=◌,
  length,
}
use strict_pprof_rs.Collector.Bucket.{Entry}
use strict_pprof_rs.Collector.Counter
use strict_pprof_rs.Collector.Counter.{HashCounter}
use strict_pprof_rs.Collector.TempArray
use strict_pprof_rs.Collector.TempArray.{IoError, TempFiles, Layout, TempFdArray}
use strict_pprof_rs.Collector.TempArray.Iter

pub record Collector (File T : Type 0) : Type 0 where
  pub map : HashCounter T
  pub temp_array : TempFdArray File (Entry T)

-- `Collector::new`, where `opened` is what `NamedTempFile::new` gave, and `d` is `T::default()`.
unfoldable pub new :
    {File T : Type 0} → ℕ → T → Result IoError File → Result IoError (Collector File T)
new sample_size d opened =
    elim (TempArray.new sample_size (record { item = d; count = 0 }) opened) [
      | err e ↦ err e
      | ok temp_array ↦ ok (record { map = Counter.empty d; temp_array = temp_array })
    ]

module _ (fs : TempFiles) {T : Type 0} ⦃key : Key T⦄ (layout : Layout fs.Byte (Entry T))
    (sample_size : ℕ) where
  -- `Collector::add`
  unfoldable pub add :
      Collector fs.File T → T → ℕ → Run (Result IoError (Unit {0}) × Collector fs.File T)
  add c k n = Counter.add c.map k n >>= λ (map', evict). elim evict [
    | none ↦ returns (ok tt, record c { map = map' })
    | some entry ↦ TempArray.push fs layout sample_size c.temp_array entry >>= λ (result, array').
        returns (result, record { map = map'; temp_array = array' })
  ]

  -- `Collector::try_iter`, as the entries that a loop over it sees.
  unfoldable pub try_iter : Collector fs.File T → Run (Result IoError (List (Entry T)))
  try_iter c = Counter.iter c.map >>= λ counted.
      Iter.try_iter fs layout sample_size c.temp_array >>= λ opened. elim opened [
        | err e ↦ returns (err e)
        | ok it ↦ Iter.drain layout (suc (length (Iter.items layout it))) it >>= λ spilt.
            returns (ok (counted ++ spilt))
      ]
