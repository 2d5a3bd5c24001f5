-- ===== src/Base/Words.antt =====
-- Machine integers: a 64-bit word is a number below 2 ^ 64. A signed word (`isize`, `i64`) is its bit
-- pattern, so that sums wrap as they do in an optimised build, and signed tests flip the top bit.
use Prim.Native.Nat.{ℕ, ◌+◌, ◌%◌, ◌^◌, ◌<◌}
use mathlib.Core.Path.{◌≡◌}
use mathlib.Core.Bool.{Bool}
use native.Mathlib.Omega.{arith}
use strict_pprof_rs.Base.Tests.{ltb}

abbrev pub word : ℕ
word = 2 ^ 64

abbrev pub half_word : ℕ
half_word = 2 ^ 63

-- `a += b` on a 64-bit word.
abbrev pub word_add : ℕ → ℕ → ℕ
word_add a b = (a + b) % word

-- `a < b` on `isize`.
abbrev pub signed_ltb : ℕ → ℕ → Bool
signed_ltb a b = ltb ((a + half_word) % word) ((b + half_word) % word)

-- The numbers agree as 64-bit words.
abbrev pub EqWord : ℕ → ℕ → Type 0
EqWord a b = a % word ≡ b % word

-- A word that was summed up with wraps: it is the sum modulo 2 ^ 64, and the sum itself if that fits.
abbrev pub Agrees : ℕ → ℕ → Type 0
Agrees got wanted = EqWord got wanted × (wanted < word → got ≡ wanted)

pub signed_ltb_small : (a b : ℕ) → a < half_word → b < half_word → signed_ltb a b ≡ ltb a b
signed_ltb_small a b h k = ground arith

-- Sums in two steps agree with the sum in one.
pub Agrees-add : (a b c x y : ℕ) → Agrees b (a + x) → Agrees c (b + y) → Agrees c (a + (x + y))
Agrees-add a b c x y h k = (
  omega (arith, h.0, k.0),
  λ small.
      let first = h.1 (omega arith) in
      let second = k.1 (omega (arith, first)) in omega (arith, first, second),
)
