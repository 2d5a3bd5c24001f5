-- ===== src/Collector/Counter/Add.antt =====
-- `HashCounter::add` and `HashCounter::iter`: no count is lost, no key is counted in two places, and
-- no index is out of range.
use strict_pprof_rs.Base.{
  ℕ, zero, suc, ◌+◌, ◌≤◌, ◌<◌, ◌≡◌, ◌∙◌, refl, Bool, Option, List, [], ◌∷◌, ◌++◌, arith, Key,
  Returns, returns, length, get_or, set, AllAt, AllAt-get, AllAt-set, AllAt-replicate, EqWord, word,
  ap, get_elem?-get_or, get_or-set_self, length-set, length-replicate, replicate,
}
use mathlib.Core.List.{append-nil, append_assoc}
use strict_pprof_rs.Collector.Bucket
use strict_pprof_rs.Collector.Bucket.{Bucket, Entry}
use strict_pprof_rs.Collector.Bucket.Add as Buckets
use strict_pprof_rs.Collector.Bucket.Add.{live, add-Added as bucket_add-Added}
use strict_pprof_rs.Collector.Bucket.Iter
use strict_pprof_rs.Collector.Bucket.Hits.{hit, hits}
use strict_pprof_rs.Collector.Bucket.Weight.{evicted, share, weight, occurs}
use strict_pprof_rs.Collector.Counter.{
  HashCounter, home, bucket_count, empty, add, iter, chain_iters,
}
use strict_pprof_rs.Collector.Counter.Valid.{
  live_all, entries, Fits, IsValid, occurs-home, weight-set_bucket, weight-get_bucket,
  hits-set_bucket,
}

module _ {ℓ} {T : Type ℓ} ⦃key : Key T⦄ where
  -- What `add m k c` has done when it returns `r`.
  pub record Added (m : HashCounter T) (k : T) (c : ℕ) (r : HashCounter T × Option (Entry T))
      : Type ℓ where
    pub valid : IsValid r.0
    pub conserved :
        (q : T)
        → EqWord
            (weight q (entries r.0) + weight q (evicted r.1))
            (weight q (entries m) + share q k c)
    pub exact :
        (q : T)
        → weight q (entries m) + share q k c < word
        → weight q (entries r.0) + weight q (evicted r.1) ≡ weight q (entries m) + share q k c
    pub kept :
        (p : T → Bool) → hits p (entries r.0) + hits p (evicted r.1) ≤ hits p (entries m) + hit p k
    pub present : occurs k (entries r.0) ≡ 1

  home-lt : (k : T) → home k < bucket_count
  home-lt k = omega arith

  -- In a well-formed counter a key is counted at most once.
  pub occurs-le-one : (m : HashCounter T) (q : T) → T → IsValid m → occurs q (entries m) ≤ 1
  occurs-le-one m q d v =
      let lt : home q < length m.buckets = omega (arith, home-lt q, v.width) in
      let bucket : Bucket T = get_or m.buckets (home q) (Bucket.empty d) in
      rw (occurs-home q 0 m.buckets (Bucket.empty d) (home q) (omega arith) lt v.all_fit) (
        (AllAt-get Fits 0 m.buckets (home q) (home q) (Bucket.empty d) (omega arith) lt
            v.all_fit).valid.distinct
          q)

  bucket-Fits :
      (i : ℕ) (b : Bucket T) (k : T) (c : ℕ) (r : Bucket T × Option (Entry T))
      → home k ≡ i
      → Fits i b
      → Buckets.Added b k c r
      → Fits i r.0
  bucket-Fits i b k c r e f a = record {
    valid = a.valid;
    placed = λ q ne. ground (arith, f.placed q ne, a.few q, key.hash-equal q k);
  }

  module _ (m : HashCounter T) (k : T) (c : ℕ) (v : IsValid m) where
    abbrev bucket : Bucket T
    bucket = get_or m.buckets (home k) (Bucket.empty k)

    home-lt-length : home k < length m.buckets
    home-lt-length = omega (arith, home-lt k, v.width)

    bucket_fit : Fits (home k) bucket
    bucket_fit =
        AllAt-get Fits 0 m.buckets (home k) (home k) (Bucket.empty k) (omega arith) home-lt-length
          v.all_fit

    -- What the bucket's `add` did is what the counter's does.
    set-Added :
        (r : Bucket T × Option (Entry T))
        → Buckets.Added bucket k c r
        → Added m k c (record { buckets = set m.buckets (home k) r.0 }, r.1)
    set-Added r a =
        let fits =
          AllAt-set Fits 0 m.buckets (home k) (home k) r.0 (omega arith)
            (bucket-Fits (home k) bucket k c r refl bucket_fit a) v.all_fit in
        let wide = length-set m.buckets (home k) r.0 in
        let lt : home k < length (set m.buckets (home k) r.0) =
          omega (arith, wide, home-lt-length) in
        record {
          valid = record { width = wide ∙ v.width; all_fit = fits };
          conserved = λ q. omega (
            arith,
            weight-set_bucket q m.buckets (home k) r.0 (Bucket.empty k) home-lt-length,
            a.conserved q,
          );
          exact = λ q small.
              let trade =
                weight-set_bucket q m.buckets (home k) r.0 (Bucket.empty k) home-lt-length in
              omega (
                arith,
                trade,
                a.exact q (
                    omega (
                      arith,
                      weight-get_bucket q m.buckets (home k) (Bucket.empty k) home-lt-length,
                    )),
              );
          kept = λ p. omega (
            arith,
            hits-set_bucket p m.buckets (home k) r.0 (Bucket.empty k) home-lt-length,
            a.kept p,
          );
          present =
              occurs-home k 0 (set m.buckets (home k) r.0) r.0 (home k) (omega arith) lt fits
              ∙ rw (get_or-set_self m.buckets (home k) r.0 r.0 home-lt-length) a.present;
        }

    -- On a well-formed counter `add` returns. The counter stays well-formed, its counts and what was
    -- evicted add up to the counts before and the new one (modulo 2 ^ 64, and exactly where the sum
    -- fits), for every key, and the key that was added is counted in exactly one place.
    pub counter_add-Added : Returns (add m k c) (Added m k c)
    unfolding add
    counter_add-Added =
        let (r, run, a) = bucket_add-Added bucket k c bucket_fit.valid in
        (
          (record { buckets = set m.buckets (home k) r.0 }, r.1),
          rw (get_elem?-get_or m.buckets (home k) (Bucket.empty k) home-lt-length, add, run),
          set-Added r a,
        )

  chain_iters-live_all :
      (bs : List (Bucket T)) (i : ℕ) (acc : List (Entry T))
      → AllAt Fits i bs
      → chain_iters acc bs ≡ returns (acc ++ live_all bs)
  unfolding chain_iters
  chain_iters-live_all [] i acc h = rw append-nil
  chain_iters-live_all (b ∷ bs) i acc h =
      rw (Iter.drain-iter b (suc b.length) h.0.valid (omega arith)) (
        chain_iters-live_all bs (i + 1) (acc ++ live b) h.1
        ∙ ap returns (append_assoc acc (live b) (live_all bs)))

  iter-live_all :
      (bs : List (Bucket T))
      → 0 < length bs
      → AllAt Fits 0 bs
      → iter (record { buckets = bs }) ≡ returns (live_all bs)
  unfolding iter
  iter-live_all [] h fits = absurd (omega arith)
  iter-live_all (b ∷ bs) h fits =
      rw (Iter.drain-iter b (suc b.length) fits.0.valid (omega arith), append-nil)
        (chain_iters-live_all bs 1 (live b) fits.1)

  -- A loop over a well-formed counter's iterator sees the entries in use of all buckets, in order.
  pub iter-entries : (m : HashCounter T) → IsValid m → iter m ≡ returns (entries m)
  iter-entries m v = iter-live_all m.buckets (omega (arith, v.width)) v.all_fit

  empty-Fits : (d : T) (i : ℕ) → Fits i (Bucket.empty d)
  unfolding Bucket.empty
  empty-Fits d i = record {
    valid = record { width = refl; fits = omega arith; distinct = λ q. omega arith };
    placed = λ q h. refl;
  }

  live_all-replicate : (n : ℕ) (d : T) → live_all (replicate n (Bucket.empty d)) ≡ []
  unfolding replicate Bucket.empty
  live_all-replicate zero d = refl
  live_all-replicate (suc n) d = live_all-replicate n d

  -- A new counter is well-formed, and empty.
  pub empty-IsValid : (d : T) → IsValid (empty d) × (entries (empty d) ≡ [])
  unfolding empty
  empty-IsValid d = (
    record {
      width = length-replicate bucket_count (Bucket.empty d);
      all_fit = AllAt-replicate Fits 0 bucket_count (Bucket.empty d) (empty-Fits d);
    },
    live_all-replicate bucket_count d,
  )
