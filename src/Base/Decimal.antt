-- ===== src/Base/Decimal.antt =====
-- Decimal numerals, as `format!` writes them.
use native.Mathlib.Nat.{pow-zero, pow-suc}
use strict_pprof_rs.Base.{
  ℕ, zero, suc, ◌+◌, ◌-◌, ◌*◌, ◌/◌, ◌%◌, ◌^◌, ◌≤◌, ◌<◌, ◌≡◌, ◌∙◌, refl, ap, arith, Bool-cases, inl,
  inr, List, [], ◌∷◌, ltb, if◌then◌else◌,
}

-- The digits of `n` before `acc`, with fuel for each digit.
unfoldable pub digits_onto : ℕ → ℕ → List ℕ → List ℕ
digits_onto zero n acc = acc
digits_onto (suc fuel) n acc =
    let rest = digits_onto fuel (n / 10) ((48 + n % 10) ∷ acc) in
    if ltb n 10 then (48 + n) ∷ acc else rest

-- A 64-bit number has twenty digits at most.
unfoldable pub decimal : ℕ → List ℕ
unfolding digits_onto
decimal n = digits_onto 20 n []

-- What a row of digits stands for, behind the digits of `n`.
abbrev pub number_from : ℕ → List ℕ → ℕ
number_from n [] = n
number_from n (d ∷ ds) = number_from (n * 10 + (d - 48)) ds

-- Every code satisfies `P`.
abbrev pub All {κ} : (ℕ → Type κ) → List ℕ → Type κ
All P [] = Unit
All P (c ∷ cs) = P c × All P cs

abbrev pub IsDigit : ℕ → Type 0
IsDigit c = (48 ≤ c) × (c ≤ 57)

digits_onto-IsDigit :
    (fuel n : ℕ) (acc : List ℕ) → All IsDigit acc → All IsDigit (digits_onto fuel n acc)
unfolding digits_onto
digits_onto-IsDigit zero n acc h = h
digits_onto-IsDigit (suc fuel) n acc h =
    let rest =
      digits_onto-IsDigit fuel (n / 10) ((48 + n % 10) ∷ acc) ((omega arith, omega arith), h) in
    ground (arith, rest)

number_from-digits_onto :
    (fuel n : ℕ) (acc : List ℕ)
    → n < 10 ^ fuel
    → number_from 0 (digits_onto fuel n acc) ≡ number_from n acc
unfolding digits_onto
number_from-digits_onto zero n acc h =
    let none_left : n ≡ 0 = omega (arith, pow-zero 10) in rw none_left refl
number_from-digits_onto (suc fuel) n acc h = elim (Bool-cases (ltb n 10)) [
  | inl last ↦
      let same : 0 * 10 + (48 + n - 48) ≡ n = omega arith in
      rw last (ap (λ m. number_from m acc) same)
  | inr more ↦
      let smaller : n / 10 < 10 ^ fuel = omega (arith, pow-suc 10 fuel) in
      let same : n / 10 * 10 + (48 + n % 10 - 48) ≡ n = omega arith in
      rw more (
        number_from-digits_onto fuel (n / 10) ((48 + n % 10) ∷ acc) smaller
        ∙ ap (λ m. number_from m acc) same)
]

-- The numeral of a number below 10 ^ 20 is made of digits, and is read back.
pub decimal_lem : (n : ℕ) → n < 10 ^ 20 → All IsDigit (decimal n) × (number_from 0 (decimal n) ≡ n)
unfolding decimal
decimal_lem n h = (digits_onto-IsDigit 20 n [] tt, number_from-digits_onto 20 n [] h)
