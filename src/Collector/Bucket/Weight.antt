-- ===== src/Collector/Bucket/Weight.antt =====
-- What a list of counted entries says of a key: how often the key occurs, and what its counts add up
-- to. These are the terms in which src/collector.rs promises to lose nothing.
use strict_pprof_rs.Base.{
  ℕ, zero, suc, ◌+◌, ◌≤◌, ◌<◌, ◌≡◌, refl, true, false, Option, none, some, List, [], ◌∷◌, ◌++◌,
  arith, Key, if◌then◌else◌, word, length, get_or, set, EqWord, equal_congr_right,
}
use strict_pprof_rs.Collector.Bucket.{Entry, bump}

-- The entry that a call hands back, as a list.
abbrev pub evicted {ℓ} : {T : Type ℓ} → Option (Entry T) → List (Entry T)
evicted none = []
evicted (some e) = e ∷ []

module _ {ℓ} {T : Type ℓ} ⦃key : Key T⦄ where
  abbrev pub share : T → T → ℕ → ℕ
  share q k c = if key.equal q k then c else 0

  -- The sum of the counts of the entries that equal `q`, before any wrap.
  abbrev pub weight : T → List (Entry T) → ℕ
  weight q [] = 0
  weight q (e ∷ es) = share q e.item e.count + weight q es

  abbrev pub occurs : T → List (Entry T) → ℕ
  occurs q [] = 0
  occurs q (e ∷ es) = share q e.item 1 + occurs q es

  pub weight-append :
      (q : T) (xs ys : List (Entry T)) → weight q (xs ++ ys) ≡ weight q xs + weight q ys
  weight-append q [] ys = omega arith
  weight-append q (x ∷ xs) ys = omega (arith, weight-append q xs ys)

  pub occurs-append :
      (q : T) (xs ys : List (Entry T)) → occurs q (xs ++ ys) ≡ occurs q xs + occurs q ys
  occurs-append q [] ys = omega arith
  occurs-append q (x ∷ xs) ys = omega (arith, occurs-append q xs ys)

  pub weight-eq-zero : (q : T) (es : List (Entry T)) → occurs q es ≡ 0 → weight q es ≡ 0
  weight-eq-zero q [] h = refl
  weight-eq-zero q (e ∷ es) h = ground (arith, weight-eq-zero q es)

  -- Entries of equal keys occur equally often.
  pub occurs_congr :
      (a b : T) (es : List (Entry T)) → key.equal a b ≡ true → occurs a es ≡ occurs b es
  occurs_congr a b [] h = refl
  occurs_congr a b (e ∷ es) h = ground (
    arith,
    occurs_congr a b es h,
    equal_congr_right e.item a b h,
    key.equal_symm a e.item,
    key.equal_symm b e.item,
  )

  -- A write over an entry trades the one for the other.
  pub weight-set :
      (q : T) (es : List (Entry T)) (i : ℕ) (e d : Entry T)
      → i < length es
      → weight q (set es i e) + weight q (get_or es i d ∷ []) ≡ weight q es + weight q (e ∷ [])
  weight-set q [] i e d h = absurd (omega arith)
  weight-set q (x ∷ es) zero e d h = omega arith
  weight-set q (x ∷ es) (suc i) e d h = omega (arith, weight-set q es i e d (omega arith))

  pub occurs-set :
      (q : T) (es : List (Entry T)) (i : ℕ) (e d : Entry T)
      → i < length es
      → occurs q (set es i e) + occurs q (get_or es i d ∷ []) ≡ occurs q es + occurs q (e ∷ [])
  occurs-set q [] i e d h = absurd (omega arith)
  occurs-set q (x ∷ es) zero e d h = omega arith
  occurs-set q (x ∷ es) (suc i) e d h = omega (arith, occurs-set q es i e d (omega arith))

  pub occurs-get_or :
      (q : T) (es : List (Entry T)) (i : ℕ) (d : Entry T)
      → i < length es
      → occurs q (get_or es i d ∷ []) ≤ occurs q es
  occurs-get_or q [] i d h = absurd (omega arith)
  occurs-get_or q (x ∷ es) zero d h = omega arith
  occurs-get_or q (x ∷ es) (suc i) d h = omega (arith, occurs-get_or q es i d (omega arith))

module _ {ℓ} {T : Type ℓ} ⦃key : Key T⦄ (k : T) (c : ℕ) where
  pub length-bump : (es : List (Entry T)) → length (bump k c es).0 ≡ length es
  unfolding bump
  length-bump [] = refl
  length-bump (e ∷ es) = ground (arith, length-bump es)

  pub occurs-bump : (q : T) (es : List (Entry T)) → occurs q (bump k c es).0 ≡ occurs q es
  unfolding bump
  occurs-bump q [] = refl
  occurs-bump q (e ∷ es) = ground (arith, occurs-bump q es)

  -- The loop reports an equal item exactly when there is one.
  pub bump-done : (es : List (Entry T)) → (bump k c es).1 ≡ true → 0 < occurs k es
  unfolding bump
  bump-done [] h = absurd (ground arith)
  bump-done (e ∷ es) h = ground (arith, bump-done es, key.equal_symm e.item k)

  pub bump-missing :
      (es : List (Entry T)) → (bump k c es).1 ≡ false → ((bump k c es).0 ≡ es) × (occurs k es ≡ 0)
  unfolding bump
  bump-missing [] h = (refl, refl)
  bump-missing (e ∷ es) h = ground (arith, bump-missing es, key.equal_symm e.item k)

  pub bump-absent :
      (es : List (Entry T)) → occurs k es ≡ 0 → ((bump k c es).0 ≡ es) × ((bump k c es).1 ≡ false)
  unfolding bump
  bump-absent [] h = (refl, refl)
  bump-absent (e ∷ es) h = ground (arith, bump-absent es, key.equal_symm e.item k)

  -- An item that is there once counts up by `c`; no other item changes.
  pub weight-bump :
      (q : T) (es : List (Entry T))
      → 0 < occurs k es
      → occurs k es ≤ 1
      → EqWord (weight q (bump k c es).0) (weight q es + share q k c)
  unfolding bump
  weight-bump q [] h u = absurd (omega arith)
  weight-bump q (e ∷ es) h u = ground (
    arith,
    bump-absent es,
    weight-bump q es,
    key.equal_symm e.item k,
    equal_congr_right q e.item k,
  )

  -- As long as the sum fits a word, it is exact.
  pub weight-bump_exact :
      (q : T) (es : List (Entry T))
      → 0 < occurs k es
      → occurs k es ≤ 1
      → weight q es + share q k c < word
      → weight q (bump k c es).0 ≡ weight q es + share q k c
  unfolding bump
  weight-bump_exact q [] h u small = absurd (omega arith)
  weight-bump_exact q (e ∷ es) h u small = ground (
    arith,
    bump-absent es,
    weight-bump_exact q es,
    key.equal_symm e.item k,
    equal_congr_right q e.item k,
  )
