-- ===== src/Report/Sums.antt =====
-- What the counts of entries add up to, over all the items that pass a test, and what the rows of
-- src/report.rs add up to.
use strict_pprof_rs.Base.{
  ℕ, zero, suc, ◌+◌, ◌≤◌, ◌<◌, ◌≡◌, refl, sym, Bool, true, some, List, [], ◌∷◌, arith, Key, Run,
  Returns, word, half_word, word_add, signed_ltb, if◌then◌else◌, length, Bool-cases, inl, inr,
  Option-cases, equal_congr_right,
}
use strict_pprof_rs.Base.HashMap.{HashMap, get, assign, insert}
use strict_pprof_rs.Collector.Bucket.{Entry}
use strict_pprof_rs.Collector.Bucket.Weight.{weight}
use strict_pprof_rs.Report.{tally, merge}
use strict_pprof_rs.Report.Rows.{IsKeyed}

-- The sum of the counts of the entries whose item passes.
abbrev pub total {ℓ} : {T : Type ℓ} → (T → Bool) → List (Entry T) → ℕ
total p [] = 0
total p (e ∷ es) = (if p e.item then e.count else 0) + total p es

module _ {ℓ} {T : Type ℓ} ⦃key : Key T⦄ where
  abbrev without : T → List (Entry T) → List (Entry T)
  without q [] = []
  without q (e ∷ es) = let rest = without q es in if key.equal q e.item then rest else e ∷ rest

  length-without : (q : T) (es : List (Entry T)) → length (without q es) ≤ length es
  length-without q [] = omega arith
  length-without q (e ∷ es) = ground (arith, length-without q es)

  weight-without :
      (q r : T) (es : List (Entry T))
      → weight r (without q es) ≡ (if key.equal q r then 0 else weight r es)
  weight-without q r [] = ground arith
  weight-without q r (e ∷ es) = ground (
    arith,
    weight-without q r es,
    equal_congr_right r q e.item,
    equal_congr_right e.item q r,
    key.equal_symm r q,
    key.equal_symm e.item q,
    key.equal_symm e.item r,
  )

  weightless : (p : T → Bool) (es : List (Entry T)) → ((q : T) → weight q es ≡ 0) → total p es ≡ 0
  weightless p [] h = refl
  weightless p (e ∷ es) h =
      let own = h e.item in
      let own_share = key.equal_refl e.item in
      let rest = weightless p es (λ q. omega (arith, h q)) in ground (arith, own, own_share, rest)

  -- The test does not tell equal items apart.
  abbrev pub Respects : (T → Bool) → Type ℓ
  Respects p = (a b : T) → key.equal a b ≡ true → p a ≡ p b

  module _ (p : T → Bool) (respects : Respects p) where
    total-without :
        (q : T) (es : List (Entry T))
        → total p es ≡ (if p q then weight q es else 0) + total p (without q es)
    total-without q [] = ground arith
    total-without q (e ∷ es) = ground (arith, total-without q es, respects q e.item)

    same_total :
        (n : ℕ) (xs ys : List (Entry T))
        → length xs ≤ n
        → ((q : T) → weight q xs ≡ weight q ys)
        → total p xs ≡ total p ys
    same_total n [] ys few h = sym (weightless p ys (λ q. sym (h q)))
    same_total zero (x ∷ xs) ys few h = absurd (omega arith)
    same_total (suc n) (x ∷ xs) ys few h =
        let own = key.equal_refl x.item in
        let shorter = length-without x.item xs in
        let rest =
          same_total n (without x.item (x ∷ xs)) (without x.item ys)
            (ground (arith, own, shorter, few))
            (λ q. rw (weight-without x.item q (x ∷ xs), weight-without x.item q ys, h q) refl) in
        let left = total-without x.item (x ∷ xs) in
        let right = total-without x.item ys in
        let same = h x.item in ground (arith, left, right, same, rest)

  -- Lists in which every item weighs the same have the same totals, in whatever order and however
  -- split their entries are.
  pub total_weights :
      (p : T → Bool)
      → Respects p
      → (xs ys : List (Entry T)) → ((q : T) → weight q xs ≡ weight q ys)
      → total p xs ≡ total p ys
  total_weights p respects xs ys h = same_total p respects (length xs) xs ys (omega arith) h

-- Every count is positive or zero.
abbrev pub AreSmall {ℓ} : {T : Type ℓ} → List (Entry T) → Type 0
AreSmall [] = Unit
AreSmall (e ∷ es) = (e.count < half_word) × AreSmall es

-- The sum of the rows whose key passes.
abbrev pub rows_total {ℓ} : {K : Type ℓ} → (K → Bool) → HashMap K ℕ → ℕ
rows_total p [] = 0
rows_total p (e ∷ m) = (if p e.0 then e.1 else 0) + rows_total p m

module _ {ℓ} {K : Type ℓ} ⦃key : Key K⦄ (p : K → Bool) (respects : Respects p) where
  rows_total-assign :
      (k : K) (v w : ℕ) (m : HashMap K ℕ)
      → get k m ≡ some v
      → rows_total p (assign k w m) + (if p k then v else 0)
        ≡ rows_total p m + (if p k then w else 0)
  unfolding get assign
  rows_total-assign k v w [] h = absurd (cc)
  rows_total-assign k v w (e ∷ m) h = ground (arith, rows_total-assign k v w m, respects k e.0)

  rows_total-get :
      (k : K) (v : ℕ) (m : HashMap K ℕ) → get k m ≡ some v → (if p k then v else 0) ≤ rows_total p m
  unfolding get
  rows_total-get k v [] h = absurd (cc)
  rows_total-get k v (e ∷ m) h = ground (arith, rows_total-get k v m, respects k e.0)

  tally-rows_total :
      (k : K) (c : ℕ) (m : HashMap K ℕ)
      → rows_total p m + (if p k then c else 0) < word
      → Returns (tally k c m) (λ m'. rows_total p m' ≡ rows_total p m + (if p k then c else 0))
  unfolding tally
  tally-rows_total k c m small = elim (Option-cases (get k m)) [
    | inl absent ↦ ((k, c) ∷ m, unfold insert in ground (arith, absent), omega arith)
    | inr (v, there) ↦ (
      assign k (word_add v c) m,
      rw (there, tally),
      let swap = rows_total-assign k v (word_add v c) m there in
          let inside = rows_total-get k v m there in ground (arith, swap, inside, small),
    )
  ]

  -- If what is counted fits a word, the rows add up to it.
  pub merge-rows_total {κ} :
      {T : Type κ} (to_key : T → Run K) (keyed : T → K) (es : List (Entry T)) (m : HashMap K ℕ)
      → IsKeyed to_key keyed es
      → AreSmall es
      → rows_total p m + total (λ t. p (keyed t)) es < word
      → Returns
          (merge to_key es m)
          (λ m'. rows_total p m' ≡ rows_total p m + total (λ t. p (keyed t)) es)
  unfolding merge
  merge-rows_total to_key keyed [] m h counts small = (m, refl, omega arith)
  merge-rows_total to_key keyed (e ∷ es) m h counts small =
      elim (Bool-cases (signed_ltb 0 e.count)) [
        | inl counted ↦
            let (m₁, run, sum) = tally-rows_total (keyed e.item) e.count m (omega (arith, small)) in
            let (m₂, runs, sums) =
              merge-rows_total to_key keyed es m₁ h.2 counts.1 (omega (arith, small, sum)) in
            (m₂, rw (counted, h.0, run, runs), omega (arith, sum, sums))
        | inr passed ↦
            let none_here : e.count ≡ 0 = ground (arith, counts.0, passed) in
            let (m₂, runs, sums) =
              merge-rows_total to_key keyed es m h.2 counts.1 (omega (arith, small)) in
            (m₂, rw (passed, runs), ground (arith, sums, none_here))
      ]
