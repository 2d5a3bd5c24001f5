-- ===== src/Base/Texts.antt =====
-- Texts as lists of codes, with their equality, and as keys of a map.
use strict_pprof_rs.Base.{
  ℕ, ◌≡◌, ◌↔◌, refl, Bool, true, false, List, [], ◌∷◌, arith, Key, key_by_view, ◌==◌, ◌&&◌,
}

abbrev pub Text : Type 0
Text = List ℕ

unfoldable pub text_equal : Text → Text → Bool
text_equal [] [] = true
text_equal [] (y ∷ ys) = false
text_equal (x ∷ xs) [] = false
text_equal (x ∷ xs) (y ∷ ys) = x == y && text_equal xs ys

pub text_equal_iff : (a b : Text) → (text_equal a b ≡ true) ↔ (a ≡ b)
unfolding text_equal
text_equal_iff [] [] = (λ _. refl, λ _. refl)
text_equal_iff [] (y ∷ ys) = (λ h. absurd (cc), λ h. absurd (cc))
text_equal_iff (x ∷ xs) [] = (λ h. absurd (cc), λ h. absurd (cc))
text_equal_iff (x ∷ xs) (y ∷ ys) =
    (λ h. ground (arith, text_equal_iff xs ys), λ h. ground (arith, text_equal_iff xs ys))

-- What hasher is in use makes no difference.
instance abbrev pub text_key : Key Text
text_key = key_by_view text_equal (λ t. t) text_equal_iff (λ t. 0)
