-- ===== src/Frames/Handler.antt =====
-- Which symbols `From<UnresolvedFrames> for Frames` of src/frames.rs takes for the signal handler's.
use strict_pprof_rs.Base.{
  ℕ, ◌≡◌, refl, Bool, true, false, List, [], ◌∷◌, arith, ◌==◌, ◌||◌, ◌≢◌, ◌⊎◌, inl, inr, ◌↔◌,
  Bool-cases,
}
use strict_pprof_rs.Frames.Compare.{text_iff}
use strict_pprof_rs.Frames.Symbol.{Symbol, Texts, name, list_equal}

-- "perf_signal_handler"
abbrev pub handler_name : List ℕ
handler_name =
    b'p' ∷ b'e' ∷ b'r' ∷ b'f' ∷ b'_' ∷ b's' ∷ b'i' ∷ b'g' ∷ b'n' ∷ b'a' ∷ b'l' ∷ b'_' ∷ b'h' ∷ b'a'
    ∷ b'n' ∷ b'd' ∷ b'l' ∷ b'e' ∷ b'r' ∷ []

module _ (texts : Texts) where
  unfoldable pub is_handler : List Symbol → Bool
  unfolding name
  is_handler [] = false
  is_handler (s ∷ ss) =
      (list_equal ◌==◌ (name texts s) handler_name
        || list_equal ◌==◌ (name texts s) (b'_' ∷ handler_name))
      || is_handler ss

  -- One of the symbols is named as the signal handler, with an underscore before it or without.
  abbrev pub NamesHandler : List Symbol → Type 0
  NamesHandler [] = ⊥
  NamesHandler (s ∷ ss) =
      ((name texts s ≡ handler_name) ⊎ (name texts s ≡ b'_' ∷ handler_name)) ⊎ NamesHandler ss

  -- None of them is.
  abbrev pub IsClean : List Symbol → Type 0
  IsClean [] = Unit
  IsClean (s ∷ ss) =
      (name texts s ≢ handler_name) × (name texts s ≢ b'_' ∷ handler_name) × IsClean ss

  pub is_handler-NamesHandler : (ss : List Symbol) → (is_handler ss ≡ true) ↔ NamesHandler ss
  unfolding is_handler
  is_handler-NamesHandler [] = (λ h. cc, λ h. absurd h)
  is_handler-NamesHandler (s ∷ ss) =
      let plain = text_iff (name texts s) handler_name in
      let underscored = text_iff (name texts s) (b'_' ∷ handler_name) in
      let (there, back) = is_handler-NamesHandler ss in
      (
        λ h. elim (Bool-cases (list_equal ◌==◌ (name texts s) handler_name)) [
          | inl same ↦ inl (inl (plain.0 same))
          | inr other ↦ elim (Bool-cases (list_equal ◌==◌ (name texts s) (b'_' ∷ handler_name))) [
            | inl same ↦ inl (inr (underscored.0 same))
            | inr another ↦ inr (there (ground (arith, h, other, another)))
          ]
        ],
        λ h. elim h [
          | inl (inl same) ↦ ground (arith, plain.1 same)
          | inl (inr same) ↦ ground (arith, underscored.1 same)
          | inr later ↦ ground (arith, back later)
        ],
      )

  pub is_handler-IsClean : (ss : List Symbol) → (is_handler ss ≡ false) ↔ IsClean ss
  unfolding is_handler
  is_handler-IsClean [] = (λ h. tt, λ h. refl)
  is_handler-IsClean (s ∷ ss) = (
    λ h. (
      λ e. absurd (ground (arith, h, (text_iff (name texts s) handler_name).1 e)),
      λ e. absurd (ground (arith, h, (text_iff (name texts s) (b'_' ∷ handler_name)).1 e)),
      (is_handler-IsClean ss).0 (ground (arith, h)),
    ),
    λ (plain, underscored, rest). ground (
      arith,
      (is_handler-IsClean ss).1 rest,
      λ (h : list_equal ◌==◌ (name texts s) handler_name ≡ true).
          plain ((text_iff (name texts s) handler_name).0 h),
      λ (h : list_equal ◌==◌ (name texts s) (b'_' ∷ handler_name) ≡ true).
          underscored ((text_iff (name texts s) (b'_' ∷ handler_name)).0 h),
    ),
  )
