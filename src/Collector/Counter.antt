-- ===== src/Collector/Counter.antt =====
-- `HashCounter` of src/collector.rs: 4096 buckets, of which the key's hash picks one.
pub mod Valid
pub mod Add
use strict_pprof_rs.Base.{
  ℕ, zero, suc, ◌+◌, ◌%◌, Option, none, some, List, [], ◌∷◌, ◌++◌, Key, Run, returns, panics, ◌>>=◌,
  length, get_elem?, set, replicate,
}
use strict_pprof_rs.Collector.Bucket
use strict_pprof_rs.Collector.Bucket.{Bucket, Entry}
use strict_pprof_rs.Collector.Bucket.Iter

-- `BUCKETS`, which is 1 << 12.
abbrev pub bucket_count : ℕ
bucket_count = 4096

pub record HashCounter {ℓ} (T : Type ℓ) : Type ℓ where
  pub buckets : List (Bucket T)

-- `Default`, with `T::default()` given.
unfoldable pub empty {ℓ} : {T : Type ℓ} → T → HashCounter T
empty d = record { buckets = replicate bucket_count (Bucket.empty d) }

module _ {ℓ} {T : Type ℓ} ⦃key : Key T⦄ where
  -- The index of the bucket for a key.
  abbrev pub home : T → ℕ
  home k = key.hash k % bucket_count

  -- `HashCounter::add`
  unfoldable pub add : HashCounter T → T → ℕ → Run (HashCounter T × Option (Entry T))
  add m k c = elim (get_elem? m.buckets (home k)) [
    | none ↦ panics
    | some bucket ↦ Bucket.add bucket k c >>= λ (bucket', evict).
        returns (record { buckets = set m.buckets (home k) bucket' }, evict)
  ]

-- The iterators of the further buckets, each chained behind what was there.
unfoldable pub chain_iters {ℓ} :
    {T : Type ℓ} → List (Entry T) → List (Bucket T) → Run (List (Entry T))
chain_iters acc [] = returns acc
chain_iters acc (b ∷ bs) =
    Iter.drain (suc b.length) (Iter.iter b) >>= λ es. chain_iters (acc ++ es) bs

-- `HashCounter::iter`, as the entries that a loop over it sees. `buckets[0]` stands first.
unfoldable pub iter {ℓ} : {T : Type ℓ} → HashCounter T → Run (List (Entry T))
iter m = elim m.buckets [
  | [] ↦ panics
  | b ∷ bs ↦ Iter.drain (suc b.length) (Iter.iter b) >>= λ es. chain_iters (es ++ []) bs
]
