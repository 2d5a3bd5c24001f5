-- ===== src/Collector/Bucket/Hits.antt =====
-- How many entries of a list have an item that passes a test. In these terms src/collector.rs hands out
-- no item that it was not given.
use strict_pprof_rs.Base.{
  ℕ, zero, suc, ◌+◌, ◌<◌, ◌≡◌, refl, Bool, List, [], ◌∷◌, ◌++◌, arith, Key, if◌then◌else◌, length,
  get_or, set,
}
use strict_pprof_rs.Collector.Bucket.{Entry, bump}

module _ {ℓ} {T : Type ℓ} (p : T → Bool) where
  abbrev pub hit : T → ℕ
  hit k = if p k then 1 else 0

  abbrev pub hits : List (Entry T) → ℕ
  hits [] = 0
  hits (e ∷ es) = hit e.item + hits es

  pub hits-append : (xs ys : List (Entry T)) → hits (xs ++ ys) ≡ hits xs + hits ys
  hits-append [] ys = omega arith
  hits-append (x ∷ xs) ys = omega (arith, hits-append xs ys)

  -- A write over an entry trades the one for the other.
  pub hits-set :
      (es : List (Entry T)) (i : ℕ) (e d : Entry T)
      → i < length es
      → hits (set es i e) + hits (get_or es i d ∷ []) ≡ hits es + hits (e ∷ [])
  hits-set [] i e d h = absurd (omega arith)
  hits-set (x ∷ es) zero e d h = omega arith
  hits-set (x ∷ es) (suc i) e d h = omega (arith, hits-set es i e d (omega arith))

  -- Counting up changes no item.
  pub hits-bump :
      ⦃key : Key T⦄ (k : T) (c : ℕ) (es : List (Entry T)) → hits (bump k c es).0 ≡ hits es
  unfolding bump
  hits-bump k c [] = refl
  hits-bump k c (e ∷ es) = ground (arith, hits-bump k c es)
