-- ===== src/Collector/Bucket/Iter.antt =====
-- `Bucket::iter` and `BucketIterator` of src/collector.rs: it yields the entries in use, in order.
use strict_pprof_rs.Base.{
  ℕ, zero, suc, ◌+◌, ◌≤◌, ◌<◌, ◌≡◌, Option, none, some, List, [], ◌∷◌, arith, Key, Run, returns,
  panics, diverges, ◌>>=◌, ltb, if◌then◌else◌, length, get_elem?, take, drop, get_at,
}
use strict_pprof_rs.Collector.Bucket.{Entry, Bucket}
use strict_pprof_rs.Collector.Bucket.Add.{live, IsValid}

pub record BucketIterator {ℓ} (T : Type ℓ) : Type ℓ where
  pub related_bucket : Bucket T
  pub index : ℕ

module _ {ℓ} {T : Type ℓ} where
  unfoldable pub iter : Bucket T → BucketIterator T
  iter b = record { related_bucket = b; index = 0 }

  -- `Iterator::next`
  unfoldable pub next : BucketIterator T → Run (Option (Entry T) × BucketIterator T)
  next it =
      if ltb it.index it.related_bucket.length
      then elim (get_elem? it.related_bucket.entries it.index) [
        | none ↦ panics
        | some e ↦ returns (some e, record it { index = it.index + 1 })
      ]
      else returns (none, it)

  -- What a caller that loops over the iterator sees.
  unfoldable pub drain : ℕ → BucketIterator T → Run (List (Entry T))
  unfolding next
  drain zero it = diverges
  drain (suc fuel) it = next it >>= λ (o, it'). elim o [
    | none ↦ returns []
    | some e ↦ drain fuel it' >>= λ es. returns (e ∷ es)
  ]

  drain_lem :
      (b : Bucket T) (n i fuel : ℕ)
      → i + n ≡ b.length
      → b.length ≤ length b.entries
      → n < fuel
      → drain fuel (record { related_bucket = b; index = i }) ≡ returns (take n (drop i b.entries))
  unfolding drain
  drain_lem b n i zero e w f = absurd (omega arith)
  drain_lem b zero i (suc fuel) e w f = ground arith
  drain_lem b (suc n) i (suc fuel) e w f =
      let (x, found, split) = get_at b.entries i (omega arith) in
      let step : (i + 1) ≡ suc i = omega arith in
      let rest = drain_lem b n (i + 1) fuel (omega arith) w (omega arith) in
      let rest' = rw step at rest in ground (arith, found, split, rest')

-- A loop over a well-formed bucket's iterator ends, and sees each entry in use once, in order.
pub drain-iter {ℓ} :
    {T : Type ℓ} ⦃key : Key T⦄ (b : Bucket T) (fuel : ℕ)
    → IsValid b
    → b.length < fuel
    → drain fuel (iter b) ≡ returns (live b)
unfolding iter
drain-iter b fuel v f = drain_lem b b.length 0 fuel (omega arith) (omega (arith, v.width, v.fits)) f
