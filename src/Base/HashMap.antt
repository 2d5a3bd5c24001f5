-- ===== src/Base/HashMap.antt =====
-- `std::collections::HashMap` as the rows that it holds: what `get_mut` and `insert` do to them.
use strict_pprof_rs.Base.{
  ◌≡◌, Option, none, some, List, [], ◌∷◌, arith, Key, if◌then◌else◌, equal_congr_right,
  Option-cases, inl, inr, refl,
}

abbrev pub HashMap {ℓ κ} : Type ℓ → Type κ → Type (ℓ ⊔ κ)
HashMap K V = List (K × V)

module _ {ℓ κ} {K : Type ℓ} {V : Type κ} ⦃key : Key K⦄ where
  unfoldable pub get : K → HashMap K V → Option V
  get k [] = none
  get k (e ∷ m) = if key.equal k e.0 then some e.1 else get k m

  -- A write through the reference of `get_mut`.
  unfoldable pub assign : K → V → HashMap K V → HashMap K V
  assign k v [] = []
  assign k v (e ∷ m) = if key.equal k e.0 then (e.0, v) ∷ m else e ∷ assign k v m

  -- `insert`, with the value that it replaces.
  unfoldable pub insert : K → V → HashMap K V → Option V × HashMap K V
  unfolding get assign
  insert k v m = elim (get k m) [ some old ↦ (some old, assign k v m) | none ↦ (none, (k, v) ∷ m) ]

  pub get-assign :
      (q k : K) (v old : V) (m : HashMap K V)
      → get k m ≡ some old
      → get q (assign k v m) ≡ (if key.equal q k then some v else get q m)
  unfolding get assign
  get-assign q k v old [] h = absurd (cc)
  get-assign q k v old (e ∷ m) h = ground (
    arith,
    get-assign q k v old m,
    equal_congr_right q k e.0,
    key.equal_trans q k e.0,
    key.equal_symm k q,
    key.equal_trans k q e.0,
  )

  pub get-insert :
      (q k : K) (v : V) (m : HashMap K V)
      → get q (insert k v m).1 ≡ (if key.equal q k then some v else get q m)
  unfolding insert
  get-insert q k v m = elim (Option-cases (get k m)) [
    | inl absent ↦ rw (absent, insert) (unfold get in refl)
    | inr (old, there) ↦ rw (there, insert) (get-assign q k v old m there)
  ]
