-- ===== src/Collector/Bucket.antt =====
-- `Bucket` of src/collector.rs: up to four counted items, of which the rarest gives way.
pub mod Weight
pub mod Hits
pub mod Rarest
pub mod Add
pub mod Iter
use strict_pprof_rs.Base.{
  ℕ, suc, ◌+◌, ◌≡◌, Bool, true, false, Option, none, some, List, [], ◌∷◌, ◌++◌, Key, Run, returns,
  panics, ◌>>=◌, ltb, leb, if◌then◌else◌, word_add, signed_ltb, length, get_elem?, set, take, drop,
  replicate,
}

abbrev pub buckets_associativity : ℕ
buckets_associativity = 4

-- `count` is an `isize`, by its bit pattern.
pub record Entry {ℓ} (T : Type ℓ) : Type ℓ where
  pub item : T
  pub count : ℕ

-- `entries` is the fixed array; the first `length` of it are in use.
pub record Bucket {ℓ} (T : Type ℓ) : Type ℓ where
  pub length : ℕ
  pub entries : List (Entry T)

-- `Default`, with `T::default()` given.
unfoldable pub empty {ℓ} : {T : Type ℓ} → T → Bucket T
unfolding replicate
empty d = record {
  length = 0;
  entries = replicate buckets_associativity (record { item = d; count = 0 });
}

-- `&array[0..n]`
unfoldable pub slice {ℓ} : {A : Type ℓ} → List A → ℕ → Run (List A)
slice xs n = if leb n (length xs) then returns (take n xs) else panics

module _ {ℓ} {T : Type ℓ} where
  -- The scan for the least count, from `index` on.
  unfoldable pub min_scan : List (Entry T) → ℕ → ℕ → ℕ → ℕ
  min_scan [] index min_index min_count = min_index
  min_scan (e ∷ es) index min_index min_count =
      let better = signed_ltb e.count min_count in
      min_scan es (index + 1) (if better then index else min_index)
        (if better then e.count else min_count)

  -- Puts a new entry in the place of the rarest of the `live` ones, and returns that one.
  unfoldable pub replace : Bucket T → List (Entry T) → Entry T → Run (Bucket T × Option (Entry T))
  unfolding min_scan
  replace b live entry = elim (get_elem? b.entries 0) [
    | none ↦ panics
    | some first ↦
        let i = min_scan live 0 0 first.count in
        elim (get_elem? b.entries i) [
          | none ↦ panics
          | some old ↦ returns (record b { entries = set b.entries i entry }, some old)
        ]
  ]

  -- Writes a new entry behind those in use.
  unfoldable pub place : Bucket T → Entry T → Run (Bucket T × Option (Entry T))
  place b entry =
      if ltb b.length (length b.entries)
      then returns (record { length = b.length + 1; entries = set b.entries b.length entry }, none)
      else panics

module _ {ℓ} {T : Type ℓ} ⦃key : Key T⦄ where
  -- The loop of `for_each`: every equal item counts up, and `done` tells whether there was one.
  unfoldable pub bump : T → ℕ → List (Entry T) → List (Entry T) × Bool
  bump k c [] = ([], false)
  bump k c (e ∷ es) =
      let (rest, done) = bump k c es in
      if key.equal e.item k
      then (record e { count = word_add e.count c } ∷ rest, true)
      else (e ∷ rest, done)

  -- `Bucket::add`
  unfoldable pub add : Bucket T → T → ℕ → Run (Bucket T × Option (Entry T))
  unfolding slice bump place replace
  add b k c = slice b.entries b.length >>= λ live.
      let (live', done) = bump k c live in
      if done
      then returns (record b { entries = live' ++ drop b.length b.entries }, none)
      else if ltb b.length buckets_associativity
      then place b (record { item = k; count = c })
      else replace b live (record { item = k; count = c })
