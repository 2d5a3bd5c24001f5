-- ===== src/Base/Int.antt =====
-- Signed integers over the native numbers, with Rust's division, which rounds towards zero.
use native.Mathlib.Nat.{div-le_self}
use strict_pprof_rs.Base.{
  ℕ, zero, suc, ◌/◌, ◌%◌, ◌-◌, ◌≤◌, ◌<◌, ◌≡◌, refl, ap, Bool, true, false, arith, ltb, lt→ltb, ◌==◌,
  ◌&&◌, if◌then◌else◌, word, half_word, Run, returns, panics,
}

-- `negsuc n` is -(n + 1).
pub data ℤ : Type 0 where
  pos : ℕ → ℤ
  negsuc : ℕ → ℤ

abbrev pub magnitude : ℤ → ℕ
magnitude (pos n) = n
magnitude (negsuc n) = suc n

abbrev pub is_negative : ℤ → Bool
is_negative (pos _) = false
is_negative (negsuc _) = true

-- - n
abbrev pub negate : ℕ → ℤ
negate zero = pos 0
negate (suc n) = negsuc n

-- `a / b`, for b ≠ 0
unfoldable pub div_trunc : ℤ → ℤ → ℤ
div_trunc (pos a) (pos b) = pos (a / b)
div_trunc (pos a) (negsuc b) = negate (a / suc b)
div_trunc (negsuc a) (pos b) = negate (suc a / b)
div_trunc (negsuc a) (negsuc b) = pos (suc a / suc b)

-- `a % b`, for b ≠ 0: it has the sign of `a`.
unfoldable pub rem_trunc : ℤ → ℤ → ℤ
rem_trunc (pos a) b = pos (a % magnitude b)
rem_trunc (negsuc a) b = negate (suc a % magnitude b)

-- The integer of a 64-bit pattern, and the pattern of an integer.
abbrev pub signed : ℕ → ℤ
signed n = if ltb n half_word then pos n else negsuc (word - n - 1)

abbrev pub pattern_of : ℤ → ℕ
pattern_of (pos n) = n % word
pattern_of (negsuc n) = (word - suc n % word) % word

-- `a / b` on `i64`, for the pattern of `a`: by zero, and of the least number by -1, it panics.
unfoldable pub i64_div : ℕ → ℤ → Run ℕ
unfolding div_trunc
i64_div a (pos zero) = panics
i64_div a (pos (suc b)) = returns (pattern_of (div_trunc (signed a) (pos (suc b))))
i64_div a (negsuc b) =
    if b == 0 && a == half_word
    then panics
    else returns (pattern_of (div_trunc (signed a) (negsuc b)))

-- A product or quotient of numbers that fit is that of the numbers.
pub i64_div_small : (a b : ℕ) → a < half_word → i64_div a (pos (suc b)) ≡ returns (a / suc b)
unfolding i64_div div_trunc
i64_div_small a b h =
    let fits : a / suc b ≤ a = div-le_self a (suc b) in
    rw (lt→ltb a half_word h) (ap returns (omega arith))

pub i64_div_returns : (a b : ℕ) → (q : ℕ) × (i64_div a (pos (suc b)) ≡ returns q)
unfolding i64_div
i64_div_returns a b = (_, refl)
