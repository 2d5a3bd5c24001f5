-- ===== src/Frames/Compare.antt =====
-- The derived equality of resolved samples (`Frames` of src/frames.rs) compares names, thread and
-- time, and so makes them keys of the report's map.
use strict_pprof_rs.Base.{
  ℕ, ◌≡◌, ◌↔◌, refl, ap, Bool, true, List, [], ◌∷◌, map, arith, Key, ◌==◌, ==_iff, key_by_view,
}
use strict_pprof_rs.Frames.Symbol.{
  Symbol, Frames, raw_name, list_equal, symbol_equal, symbol_hash, frames_equal,
}

-- A test by what `f` shows makes a test of lists by what `f` shows of them.
list_equal_iff {ℓ κ} :
    {A : Type ℓ} {B : Type κ} (eq : A → A → Bool) (f : A → B)
    → ((a b : A) → (eq a b ≡ true) ↔ (f a ≡ f b))
    → (xs ys : List A) → (list_equal eq xs ys ≡ true) ↔ (map f xs ≡ map f ys)
unfolding list_equal
list_equal_iff eq f iff [] [] = (λ _. refl, λ _. refl)
list_equal_iff eq f iff [] (y ∷ ys) = (λ h. absurd (cc), λ h. absurd (cc))
list_equal_iff eq f iff (x ∷ xs) [] = (λ h. absurd (cc), λ h. absurd (cc))
list_equal_iff eq f iff (x ∷ xs) (y ∷ ys) = (
  λ h. ground (arith, iff x y, list_equal_iff eq f iff xs ys),
  λ h. ground (arith, iff x y, list_equal_iff eq f iff xs ys),
)

map_self : (xs : List ℕ) → map (λ x. x) xs ≡ xs
map_self [] = refl
map_self (x ∷ xs) = ap (λ ys. x ∷ ys) (map_self xs)

pub text_iff : (a b : List ℕ) → (list_equal ◌==◌ a b ≡ true) ↔ (a ≡ b)
text_iff a b = rw (map_self a, map_self b) at (list_equal_iff ◌==◌ (λ x. x) ==_iff a b)

symbol_iff : (a b : Symbol) → (symbol_equal a b ≡ true) ↔ (raw_name a ≡ raw_name b)
unfolding symbol_equal
symbol_iff a b = text_iff (raw_name a) (raw_name b)

-- Equal symbols have equal hashes, under any hasher.
symbol_hash-equal :
    (finish : List ℕ → ℕ) (a b : Symbol)
    → symbol_equal a b ≡ true
    → symbol_hash finish a ≡ symbol_hash finish b
unfolding symbol_hash
symbol_hash-equal finish a b h = ap finish ((symbol_iff a b).0 h)

-- What the equality compares.
abbrev pub shown : Frames → List (List (List ℕ)) × List ℕ × ℕ × ℕ
shown f = (map (map raw_name) f.frames, f.thread_name, f.thread_id, f.sample_timestamp)

-- Resolved samples are equal exactly when their symbols' raw names, frame by frame, their thread's
-- name and number and their times are.
pub frames_equal_iff : (a b : Frames) → (frames_equal a b ≡ true) ↔ (shown a ≡ shown b)
unfolding frames_equal
frames_equal_iff a b = (there, back)
  where
    stacks :
        (list_equal (list_equal symbol_equal) a.frames b.frames ≡ true)
        ↔ (map (map raw_name) a.frames ≡ map (map raw_name) b.frames)
    stacks =
        list_equal_iff (list_equal symbol_equal) (map raw_name)
          (list_equal_iff symbol_equal raw_name symbol_iff) a.frames b.frames

    there : frames_equal a b ≡ true → shown a ≡ shown b
    there h = ground (arith, stacks, text_iff a.thread_name b.thread_name)

    back : shown a ≡ shown b → frames_equal a b ≡ true
    back h = ground (arith, stacks, text_iff a.thread_name b.thread_name)

-- Resolved samples as keys, for any hasher.
abbrev pub resolved_key : (List (List (List ℕ)) × List ℕ × ℕ × ℕ → ℕ) → Key Frames
resolved_key = key_by_view frames_equal shown frames_equal_iff
