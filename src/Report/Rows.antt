-- ===== src/Report/Rows.antt =====
-- The merging loop of src/report.rs: every row holds the sum of the positive counts of its key.
use native.Mathlib.Nat.{zero-add}
use strict_pprof_rs.Base.{
  ℕ, ◌+◌, ◌%◌, ◌<◌, ◌≡◌, refl, sym, ap, true, none, some, List, [], ◌∷◌, arith, Key, Run, Returns,
  returns, word, word_add, signed_ltb, Agrees, Agrees-add, ◌∙◌, if◌then◌else◌, Bool-cases, inl, inr,
  Option-cases,
}
use strict_pprof_rs.Base.HashMap.{HashMap, get, assign, insert, get-assign}
use strict_pprof_rs.Collector.Bucket.{Entry}
use strict_pprof_rs.Collector.Bucket.Weight.{share}
use strict_pprof_rs.Report.{tally, merge}

module _ {ℓ} {K : Type ℓ} ⦃key : Key K⦄ where
  -- The count in the row of `q`, or zero where there is none.
  abbrev pub value : K → HashMap K ℕ → ℕ
  value q m = elim (get q m) [ none ↦ 0 | some v ↦ v ]

  pub value-nil : (q : K) → value q [] ≡ 0
  unfolding get
  value-nil q = refl

  get_congr : (q k : K) (m : HashMap K ℕ) → key.equal q k ≡ true → get q m ≡ get k m
  unfolding get
  get_congr q k [] h = refl
  get_congr q k (e ∷ m) h =
      ground (
        arith,
        get_congr q k m,
        key.equal_symm q k,
        key.equal_trans q k e.0,
        key.equal_trans k q e.0,
      )

  -- `tally` does not panic; it adds to the row of its key, and changes no other row.
  pub tally_lem :
      (k : K) (c : ℕ) (m : HashMap K ℕ)
      → c < word
      → Returns (tally k c m) (λ m'.
        (q : K) → get q m' ≡ (if key.equal q k then some (word_add (value k m) c) else get q m))
  unfolding tally
  tally_lem k c m small = elim (Option-cases (get k m)) [
    | inl absent ↦ (
      (k, c) ∷ m,
      unfold insert in ground (arith, absent),
      λ q.
          let same : word_add (value k m) c ≡ c = ground (arith, absent) in
          unfold get in ap (λ n. if key.equal q k then some n else get q m) (sym same),
    )
    | inr (v, there) ↦ (
      assign k (word_add v c) m,
      rw (there, tally),
      λ q.
          let same : word_add v c ≡ word_add (value k m) c = ground (arith, there) in
          get-assign q k (word_add v c) v m there
          ∙ ap (λ n. if key.equal q k then some n else get q m) same,
    )
  ]

  -- The sum of the positive counts of the entries whose key is equal to `q`.
  abbrev pub positives {κ} : {T : Type κ} → (T → K) → K → List (Entry T) → ℕ
  positives keyed q [] = 0
  positives keyed q (e ∷ es) =
      (if signed_ltb 0 e.count then share q (keyed e.item) e.count else 0) + positives keyed q es

  -- Every item has a key, and every count is a word.
  abbrev pub IsKeyed {κ} : {T : Type κ} → (T → Run K) → (T → K) → List (Entry T) → Type ℓ
  IsKeyed to_key keyed [] = Unit
  IsKeyed to_key keyed (e ∷ es) =
      (to_key e.item ≡ returns (keyed e.item)) × (e.count < word) × IsKeyed to_key keyed es

  value-tally :
      (k q : K) (c : ℕ) (m m' : HashMap K ℕ)
      → get q m' ≡ (if key.equal q k then some (word_add (value k m) c) else get q m)
      → Agrees (value q m') (value q m + share q k c)
  value-tally k q c m m' h = ground (arith, get_congr q k m)

  pub merge-positives {κ} :
      {T : Type κ} (to_key : T → Run K) (keyed : T → K) (es : List (Entry T)) (m : HashMap K ℕ)
      → IsKeyed to_key keyed es
      → Returns
          (merge to_key es m)
          (λ m'. (q : K) → Agrees (value q m') (value q m + positives keyed q es))
  unfolding merge
  merge-positives to_key keyed [] m h =
      (m, refl, λ q. (ap (λ n. n % word) (omega arith), λ _. omega arith))
  merge-positives to_key keyed (e ∷ es) m h = elim (Bool-cases (signed_ltb 0 e.count)) [
    | inl counted ↦
        let (m₁, run, rows) = tally_lem (keyed e.item) e.count m h.1 in
        let (m₂, runs, sums) = merge-positives to_key keyed es m₁ h.2 in
        (
          m₂,
          rw (counted, h.0, run, runs),
          λ q. rw counted (
              Agrees-add (value q m) (value q m₁) (value q m₂) (share q (keyed e.item) e.count)
                (positives keyed q es) (value-tally (keyed e.item) q e.count m m₁ (rows q))
                (sums q)),
        )
    | inr passed ↦
        let (m₂, runs, sums) = merge-positives to_key keyed es m h.2 in
        (m₂, rw (passed, runs), λ q. rw (passed, zero-add) (sums q))
  ]
