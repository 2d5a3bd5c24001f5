-- ===== src/Collector/Bucket/Rarest.antt =====
-- The entry that `Bucket::add` replaces in a full bucket: one with the least count.
use native.Mathlib.Nat.{sub-zero}
use strict_pprof_rs.Base.{
  ℕ, ◌+◌, ◌-◌, ◌≤◌, ◌<◌, ◌≡◌, ◌⊎◌, false, List, [], ◌∷◌, arith, inl, inr, if◌then◌else◌, signed_ltb,
  length, get_or,
}
use strict_pprof_rs.Collector.Bucket.{Entry, min_scan}

module _ {ℓ} {T : Type ℓ} where
  -- The count that the scan ends with.
  abbrev least : List (Entry T) → ℕ → ℕ
  least [] m = m
  least (e ∷ es) m = least es (if signed_ltb e.count m then e.count else m)

  -- No entry has a count below `m`, as signed numbers.
  abbrev pub AtLeast : ℕ → List (Entry T) → Type 0
  AtLeast m [] = Unit
  AtLeast m (e ∷ es) = (signed_ltb e.count m ≡ false) × AtLeast m es

  least-AtLeast :
      (es : List (Entry T)) (m : ℕ) → (signed_ltb m (least es m) ≡ false) × AtLeast (least es m) es
  least-AtLeast [] m = ground arith
  least-AtLeast (e ∷ es) m =
      let (low, all) = least-AtLeast es (if signed_ltb e.count m then e.count else m) in
      ground arith

  -- The index that the scan ends with is where the least count stands.
  min_scan_lem :
      (es : List (Entry T)) (i mi m : ℕ) (d : Entry T)
      → ((min_scan es i mi m ≡ mi) × (least es m ≡ m))
        ⊎ ((i ≤ min_scan es i mi m)
            × (min_scan es i mi m < i + length es)
            × ((get_or es (min_scan es i mi m - i) d).count ≡ least es m))
  unfolding min_scan
  min_scan_lem [] i mi m d = ground arith
  min_scan_lem (e ∷ es) i mi m d = ground (
    arith,
    min_scan_lem es (i + 1) (if signed_ltb e.count m then i else mi)
        (if signed_ltb e.count m then e.count else m) d,
  )

  -- Started at the first entry, the scan ends at an entry with the least count of all.
  pub min_scan-AtLeast :
      (es : List (Entry T)) (d : Entry T)
      → 0 < length es
      → let i = min_scan es 0 0 (get_or es 0 d).count in
        (i < length es) × AtLeast (get_or es i d).count es
  min_scan-AtLeast es d h =
      let m : ℕ = (get_or es 0 d).count in
      let (_, all) = least-AtLeast es m in
      elim (min_scan_lem es 0 0 m d) [
        | inl (e, l) ↦ rw e (h, rw l at all)
        | inr (_, lt, c) ↦ (omega arith, rw (← c, sub-zero) at all)
      ]
