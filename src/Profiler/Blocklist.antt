-- ===== src/Profiler/Blocklist.antt =====
-- `ProfilerGuardBuilder::blocklist` and `Profiler::is_blocklisted` of src/profiler.rs: which addresses
-- are skipped, by the names of the libraries that hold them.
use strict_pprof_rs.Base.{
  ℕ, ◌+◌, ◌<◌, ◌≡◌, ◌⊎◌, ◌↔◌, inl, inr, refl, subst, Bool, true, false, Option, none, some, List,
  [], ◌∷◌, ◌++◌, arith, if◌then◌else◌, ◌||◌, Bool-cases,
}
use strict_pprof_rs.Profiler.{is_blocklisted}

-- What `findshlibs` tells of a library: its name, if that is UTF-8, and the address and the length of
-- each of its segments.
pub record SharedLibrary : Type 0 where
  pub name : Option (List ℕ)
  pub segments : List (ℕ × ℕ)

module _ (contains : List ℕ → List ℕ → Bool) where
  unfoldable pub in_blocklist : List (List ℕ) → List ℕ → Bool
  in_blocklist [] name = false
  in_blocklist (blocked_name ∷ rest) name = contains name blocked_name || in_blocklist rest name

  abbrev is_blocked : List (List ℕ) → SharedLibrary → Bool
  is_blocked names shlib = elim shlib.name [ none ↦ false | some name ↦ in_blocklist names name ]

  -- The inner loop, on the segments of a library that is on the list.
  abbrev push_segments : List (ℕ × ℕ) → List (ℕ × ℕ) → List (ℕ × ℕ)
  push_segments done [] = done
  push_segments done ((start, len) ∷ rest) = push_segments (done ++ (start, start + len) ∷ []) rest

  unfoldable pub collect_segments : List (List ℕ) → List (ℕ × ℕ) → List SharedLibrary → List (ℕ × ℕ)
  unfolding in_blocklist
  collect_segments names done [] = done
  collect_segments names done (shlib ∷ rest) =
      let further = collect_segments names (push_segments done shlib.segments) rest in
      let passed = collect_segments names done rest in
      if is_blocked names shlib then further else passed

  -- `blocklist`, on the libraries that the process has loaded.
  unfoldable pub blocklist : List (List ℕ) → List SharedLibrary → List (ℕ × ℕ)
  unfolding collect_segments
  blocklist names loaded = collect_segments names [] loaded

  -- The address lies behind the first byte of a segment and within it.
  abbrev Inside : List (ℕ × ℕ) → ℕ → Type 0
  Inside [] addr = ⊥
  Inside ((start, len) ∷ rest) addr = (start < addr) × (addr < start + len) ⊎ Inside rest addr

  -- The name contains one of the given names.
  abbrev pub NamesOne : List (List ℕ) → List ℕ → Type 0
  NamesOne [] name = ⊥
  NamesOne (blocked_name ∷ rest) name = (contains name blocked_name ≡ true) ⊎ NamesOne rest name

  -- The library has a name, and it contains one of the given names.
  abbrev pub IsNamed : List (List ℕ) → SharedLibrary → Type 0
  IsNamed names shlib = (name : List ℕ) × (shlib.name ≡ some name) × NamesOne names name

  in_blocklist_iff :
      (names : List (List ℕ)) (name : List ℕ)
      → (in_blocklist names name ≡ true) ↔ NamesOne names name
  unfolding in_blocklist
  in_blocklist_iff [] name = (λ h. cc, λ h. absurd h)
  in_blocklist_iff (blocked_name ∷ rest) name =
      let (there, back) = in_blocklist_iff rest name in
      (
        λ h. elim (Bool-cases (contains name blocked_name)) [
          | inl yes_it_does ↦ inl yes_it_does
          | inr other ↦ inr (there (ground (arith, h, other)))
        ],
        λ h. elim h [
          | inl own ↦ ground (arith, own)
          | inr later ↦ let it = back later in ground (arith, it)
        ],
      )

  is_blocked_iff :
      (names : List (List ℕ)) (shlib : SharedLibrary)
      → (is_blocked names shlib ≡ true) ↔ IsNamed names shlib
  is_blocked_iff names shlib = by_name shlib.name
    where
      by_name :
          (o : Option (List ℕ))
          → ((elim o [ none ↦ false | some name ↦ in_blocklist names name ]) ≡ true)
            ↔ ((name : List ℕ) × (o ≡ some name) × NamesOne names name)
      by_name none = (λ h. absurd (cc), λ (name, e, h). absurd (cc))
      by_name (some name) = (
        λ h. (name, refl, (in_blocklist_iff names name).0 h),
        λ (name', e, h).
            let same : name' ≡ name = cc in
            (in_blocklist_iff names name).1 (subst (NamesOne names) same h),
      )

  -- The address is inside a segment of a library with a name that contains one of the names.
  abbrev pub IsInBlocked : List (List ℕ) → List SharedLibrary → ℕ → Type 0
  IsInBlocked names [] addr = ⊥
  IsInBlocked names (shlib ∷ rest) addr =
      IsNamed names shlib × Inside shlib.segments addr ⊎ IsInBlocked names rest addr

  is_blocklisted-snoc :
      (done : List (ℕ × ℕ)) (start end addr : ℕ)
      → (is_blocklisted (done ++ (start, end) ∷ []) addr ≡ true)
        ↔ ((is_blocklisted done addr ≡ true) ⊎ (start < addr) × (addr < end))
  unfolding is_blocklisted
  is_blocklisted-snoc [] start end addr = (λ h. ground arith, λ h. ground arith)
  is_blocklisted-snoc ((s, e) ∷ done) start end addr =
      let rest = is_blocklisted-snoc done start end addr in
      (λ h. ground (arith, rest), λ h. ground (arith, rest))

  push_segments-Inside :
      (segments done : List (ℕ × ℕ)) (addr : ℕ)
      → (is_blocklisted (push_segments done segments) addr ≡ true)
        ↔ ((is_blocklisted done addr ≡ true) ⊎ Inside segments addr)
  push_segments-Inside [] done addr =
      (inl, λ h. elim h [ inl there ↦ there | inr none_left ↦ absurd none_left ])
  push_segments-Inside ((start, len) ∷ rest) done addr =
      let one = is_blocklisted-snoc done start (start + len) addr in
      let others = push_segments-Inside rest (done ++ (start, start + len) ∷ []) addr in
      (
        λ h. elim (others.0 h) [
          | inl there ↦ elim (one.0 there) [ inl old ↦ inl old | inr new ↦ inr (inl new) ]
          | inr there ↦ inr (inr there)
        ],
        λ h. elim h [
          | inl old ↦ others.1 (inl (one.1 (inl old)))
          | inr there ↦ elim there [
            | inl new ↦ others.1 (inl (one.1 (inr new)))
            | inr later ↦ others.1 (inr later)
          ]
        ],
      )

  collect_segments-IsInBlocked :
      (names : List (List ℕ)) (loaded : List SharedLibrary) (done : List (ℕ × ℕ)) (addr : ℕ)
      → (is_blocklisted (collect_segments names done loaded) addr ≡ true)
        ↔ ((is_blocklisted done addr ≡ true) ⊎ IsInBlocked names loaded addr)
  unfolding collect_segments
  collect_segments-IsInBlocked names [] done addr =
      (inl, λ h. elim h [ inl there ↦ there | inr none_left ↦ absurd none_left ])
  collect_segments-IsInBlocked names (shlib ∷ rest) done addr =
      elim (Bool-cases (is_blocked names shlib)) [
        | inl blocked ↦
            let own = push_segments-Inside shlib.segments done addr in
            let others =
              collect_segments-IsInBlocked names rest (push_segments done shlib.segments) addr in
            rw blocked (
              λ h. elim (others.0 h) [
                | inl there ↦ elim (own.0 there) [
                  | inl old ↦ inl old
                  | inr new ↦ inr (inl ((is_blocked_iff names shlib).0 blocked, new))
                ]
                | inr there ↦ inr (inr there)
              ],
              λ h. elim h [
                | inl old ↦ others.1 (inl (own.1 (inl old)))
                | inr there ↦ elim there [
                  | inl new ↦ others.1 (inl (own.1 (inr new.1)))
                  | inr later ↦ others.1 (inr later)
                ]
              ],
            )
        | inr passed ↦
            let others = collect_segments-IsInBlocked names rest done addr in
            rw passed (
              λ h. elim (others.0 h) [ inl old ↦ inl old | inr there ↦ inr (inr there) ],
              λ h. elim h [
                | inl old ↦ others.1 (inl old)
                | inr there ↦ elim there [
                  | inl (named, _) ↦ let never = (is_blocked_iff names shlib).1 named in absurd (cc)
                  | inr later ↦ others.1 (inr later)
                ]
              ],
            )
      ]

  -- The profiler skips an address exactly when it is inside a segment of a library that has a name and
  -- whose name contains one of the given names, whichever of them; a segment's first address is not inside.
  pub blocklist_iff :
      (names : List (List ℕ)) (loaded : List SharedLibrary) (addr : ℕ)
      → (is_blocklisted (blocklist names loaded) addr ≡ true) ↔ IsInBlocked names loaded addr
  unfolding blocklist is_blocklisted
  blocklist_iff names loaded addr =
      let all = collect_segments-IsInBlocked names loaded [] addr in
      (λ h. elim (all.0 h) [ inl never ↦ absurd (cc) | inr there ↦ there ], λ h. all.1 (inr h))
