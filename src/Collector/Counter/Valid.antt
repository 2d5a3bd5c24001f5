-- ===== src/Collector/Counter/Valid.antt =====
-- The well-formedness of `HashCounter`: each bucket is well-formed and holds only keys whose hash
-- leads to it, so that a key is counted in one place.
use strict_pprof_rs.Base.{
  ℕ, zero, suc, ◌+◌, ◌≤◌, ◌<◌, ◌≡◌, ◌≢◌, refl, Bool, List, [], ◌∷◌, ◌++◌, arith, Key, length,
  get_or, set, AllAt,
}
use strict_pprof_rs.Collector.Bucket.{Bucket, Entry}
use strict_pprof_rs.Collector.Bucket.Add as Buckets
use strict_pprof_rs.Collector.Bucket.Add.{live}
use strict_pprof_rs.Collector.Bucket.Hits.{hits, hits-append}
use strict_pprof_rs.Collector.Bucket.Weight.{weight, occurs, weight-append, occurs-append}
use strict_pprof_rs.Collector.Counter.{HashCounter, home, bucket_count}

-- The entries in use of all buckets, in order.
abbrev pub live_all {ℓ} : {T : Type ℓ} → List (Bucket T) → List (Entry T)
live_all [] = []
live_all (b ∷ bs) = live b ++ live_all bs

abbrev pub entries {ℓ} : {T : Type ℓ} → HashCounter T → List (Entry T)
entries m = live_all m.buckets

module _ {ℓ} {T : Type ℓ} ⦃key : Key T⦄ where
  -- The bucket at index `i` is well-formed and holds no key of another bucket.
  pub record Fits (i : ℕ) (b : Bucket T) : Type ℓ where
    pub valid : Buckets.IsValid b
    pub placed : (q : T) → home q ≢ i → occurs q (live b) ≡ 0

  pub record IsValid (m : HashCounter T) : Type ℓ where
    pub width : length m.buckets ≡ bucket_count
    pub all_fit : AllAt Fits 0 m.buckets

  occurs-elsewhere :
      (q : T) (i : ℕ) (bs : List (Bucket T))
      → home q < i
      → AllAt Fits i bs
      → occurs q (live_all bs) ≡ 0
  occurs-elsewhere q i [] lt h = refl
  occurs-elsewhere q i (b ∷ bs) lt h = omega (
    arith,
    occurs-append q (live b) (live_all bs),
    h.0.placed q (omega arith),
    occurs-elsewhere q (i + 1) bs (omega arith) h.1,
  )

  -- What occurs in all the buckets occurs in the home bucket.
  pub occurs-home :
      (q : T) (i : ℕ) (bs : List (Bucket T)) (d : Bucket T) (j : ℕ)
      → i + j ≡ home q
      → j < length bs
      → AllAt Fits i bs
      → occurs q (live_all bs) ≡ occurs q (live (get_or bs j d))
  occurs-home q i [] d j e lt h = absurd (omega arith)
  occurs-home q i (b ∷ bs) d zero e lt h = omega (
    arith,
    occurs-append q (live b) (live_all bs),
    occurs-elsewhere q (i + 1) bs (omega arith) h.1,
  )
  occurs-home q i (b ∷ bs) d (suc j) e lt h = omega (
    arith,
    occurs-append q (live b) (live_all bs),
    h.0.placed q (omega arith),
    occurs-home q (i + 1) bs d j (omega arith) (omega arith) h.1,
  )

  -- A write over a bucket trades its entries for the new bucket's.
  pub weight-set_bucket :
      (q : T) (bs : List (Bucket T)) (j : ℕ) (b d : Bucket T)
      → j < length bs
      → weight q (live_all (set bs j b)) + weight q (live (get_or bs j d))
        ≡ weight q (live_all bs) + weight q (live b)
  weight-set_bucket q [] j b d lt = absurd (omega arith)
  weight-set_bucket q (x ∷ bs) zero b d lt =
      omega (arith, weight-append q (live x) (live_all bs), weight-append q (live b) (live_all bs))
  weight-set_bucket q (x ∷ bs) (suc j) b d lt = omega (
    arith,
    weight-append q (live x) (live_all bs),
    weight-append q (live x) (live_all (set bs j b)),
    weight-set_bucket q bs j b d (omega arith),
  )

  -- A bucket weighs no more than all of them.
  pub weight-get_bucket :
      (q : T) (bs : List (Bucket T)) (j : ℕ) (d : Bucket T)
      → j < length bs
      → weight q (live (get_or bs j d)) ≤ weight q (live_all bs)
  weight-get_bucket q [] j d lt = absurd (omega arith)
  weight-get_bucket q (x ∷ bs) zero d lt = omega (arith, weight-append q (live x) (live_all bs))
  weight-get_bucket q (x ∷ bs) (suc j) d lt =
      omega
        (arith, weight-append q (live x) (live_all bs), weight-get_bucket q bs j d (omega arith))

-- The same for the items that pass a test.
pub hits-set_bucket {ℓ} :
    {T : Type ℓ} (p : T → Bool) (bs : List (Bucket T)) (j : ℕ) (b d : Bucket T)
    → j < length bs
    → hits p (live_all (set bs j b)) + hits p (live (get_or bs j d))
      ≡ hits p (live_all bs) + hits p (live b)
hits-set_bucket p [] j b d lt = absurd (omega arith)
hits-set_bucket p (x ∷ bs) zero b d lt =
    omega (arith, hits-append p (live x) (live_all bs), hits-append p (live b) (live_all bs))
hits-set_bucket p (x ∷ bs) (suc j) b d lt = omega (
  arith,
  hits-append p (live x) (live_all bs),
  hits-append p (live x) (live_all (set bs j b)),
  hits-set_bucket p bs j b d (omega arith),
)
