-- ===== src/Profiler/Thread.antt =====
-- `write_thread_name_fallback` of src/profiler.rs: the number of a thread, written out as its name.
use native.Mathlib.Nat.{
  mod_self, div-div-eq-div-mul, div-add-mod, mod-add-div, pow-suc, pow-le-pow_right,
}
use native.Mathlib.Numerals.{add-one}
use mathlib.Core.List.{append_assoc}
use strict_pprof_rs.Base.{
  ℕ, zero, suc, ◌+◌, ◌-◌, ◌*◌, ◌/◌, ◌%◌, ◌^◌, ◌≤◌, ◌<◌, ◌≡◌, ◌≢◌, ◌⊎◌, inl, inr, refl, sym, subst,
  ltb→lt, ◌∙◌, ap, Bool-cases, length-append, length-replicate, lt→ltb, true, Option, none, some,
  List, [], ◌∷◌, ◌++◌, arith, ltb, if◌then◌else◌, length, set, drop, replicate,
}
use strict_pprof_rs.Base.Decimal.{number_from, All, IsDigit}
use strict_pprof_rs.Frames.{max_thread_name}

-- The first loop: `base` and `len` at its end. `left` is `MAX_THREAD_NAME - len`.
scale : ℕ → ℕ → ℕ → ℕ → ℕ × ℕ
scale zero thread base len = (base, len)
scale (suc left) thread base len =
    let next = scale left thread (base * 10) (len + 1) in
    if ltb base thread then next else (base, len)

-- The second loop. `left` is `len - index`.
fill : ℕ → ℕ → ℕ → ℕ → List ℕ → List ℕ
fill zero thread base index name = name
fill (suc left) thread base index name =
    let base' = base / 10 in
    let next = fill left thread base' (index + 1) (set name index (48 + thread / base' % 10)) in
    if ltb 1 base then next else name

-- `write_thread_name_fallback`. The conversion to `c_char` succeeds, as digits are below 58.
pub write_thread_name_fallback : ℕ → List ℕ → List ℕ
write_thread_name_fallback thread name =
    let (base, len) = scale max_thread_name thread 1 0 in fill len thread base 0 name

-- `CStr::from_ptr(name).to_bytes()`, if the array has a NUL.
unfoldable pub c_str : List ℕ → Option (List ℕ)
c_str [] = none
c_str (zero ∷ bs) = some []
c_str (suc b ∷ bs) = elim (c_str bs) [ none ↦ none | some name ↦ some (suc b ∷ name) ]

-- The last `n` decimal digits of a number.
low_digits : ℕ → ℕ → List ℕ
low_digits zero t = []
low_digits (suc n) t = (48 + t / 10 ^ n % 10) ∷ low_digits n t

pow_pos : (n : ℕ) → 0 < 10 ^ n
pow_pos zero = omega arith
pow_pos (suc n) = grind (arith, pow_pos n)

digit_sum : (b q d r m : ℕ) → m + b * 10 * q ≡ b * (10 * q + d) + r → m ≡ d * b + r
digit_sum b q d r m h = grind arith

mod_digit : (t b : ℕ) → t % (b * 10) ≡ t / b % 10 * b + t % b
mod_digit t b =
    let q : 10 * (t / (b * 10)) + t / b % 10 ≡ t / b =
      rw⁻¹ (div-div-eq-div-mul t b 10) (div-add-mod (t / b) 10) in
    digit_sum b (t / (b * 10)) (t / b % 10) (t % b) (t % (b * 10))
      (mod-add-div t (b * 10) ∙ sym (ap (λ n. b * n + t % b) q ∙ div-add-mod t b))

shifted : (acc d p m : ℕ) → (acc * 10 + d) * p + m ≡ acc * (p * 10) + (d * p + m)
shifted acc d p m = grind arith

number_from-low_digits :
    (n t acc : ℕ) → number_from acc (low_digits n t) ≡ acc * 10 ^ n + t % 10 ^ n
unfolding low_digits
number_from-low_digits zero t acc = grind arith
number_from-low_digits (suc n) t acc =
    let digit : acc * 10 + (48 + t / 10 ^ n % 10 - 48) ≡ acc * 10 + t / 10 ^ n % 10 = omega arith in
    rw (pow-suc 10 n, mod_digit t (10 ^ n))
      (ap (λ m. number_from m (low_digits n t)) digit
        ∙ number_from-low_digits n t (acc * 10 + t / 10 ^ n % 10)
        ∙ shifted acc (t / 10 ^ n % 10) (10 ^ n) (t % 10 ^ n))

length-low_digits : (n t : ℕ) → length (low_digits n t) ≡ n
unfolding low_digits
length-low_digits zero t = refl
length-low_digits (suc n) t = ap suc (length-low_digits n t)

set_behind :
    (done : List ℕ) (x v : ℕ) (old : List ℕ)
    → set (done ++ x ∷ old) (length done) v ≡ (done ++ v ∷ []) ++ old
set_behind [] x v old = refl
set_behind (d ∷ done) x v old = ap (λ ys. d ∷ ys) (set_behind done x v old)

-- The second loop writes the last `n` digits over what follows `done`.
fill-low_digits :
    (n t : ℕ) (done old : List ℕ)
    → n ≤ length old
    → fill n t (10 ^ n) (length done) (done ++ old) ≡ done ++ (low_digits n t ++ drop n old)
unfolding fill low_digits
fill-low_digits zero t done old h = refl
fill-low_digits (suc n) t done [] h = absurd (omega arith)
fill-low_digits (suc n) t done (x ∷ old) h =
    let more : ltb 1 (10 ^ suc n) ≡ true =
      rw (pow-suc 10 n) (lt→ltb 1 _ (omega (arith, pow_pos n))) in
    let base : 10 ^ suc n / 10 ≡ 10 ^ n = rw (pow-suc 10 n) (omega arith) in
    let digit : ℕ = 48 + t / 10 ^ n % 10 in
    let further : length done + 1 ≡ length (done ++ digit ∷ []) =
      omega (arith, length-append done (digit ∷ [])) in
    let whole : (done ++ digit ∷ []) ++ (low_digits n t ++ drop n old)
        ≡ done ++ (digit ∷ (low_digits n t ++ drop n old)) =
      append_assoc done (digit ∷ []) (low_digits n t ++ drop n old) in
    rw (more, base, set_behind done x digit old, further)
      (fill-low_digits n t (done ++ digit ∷ []) old (omega arith) ∙ whole)

mod_small : (a b : ℕ) → a < b → a % b ≡ a
mod_small a b h = grind arith

le-lt : (a b : ℕ) → a ≤ b → (a ≡ b) ⊎ (suc a ≤ b)
le-lt a b h = omega arith

-- The first loop ends at the least power of ten that is not below the number, or at the sixteenth.
scale-least :
    (left t len : ℕ)
    → (k : ℕ) × (scale left t (10 ^ len) len ≡ (10 ^ k, k))
      × (k ≤ len + left)
      × ((t ≤ 10 ^ k) ⊎ (k ≡ len + left))
      × ((j : ℕ) → len ≤ j → j < k → 10 ^ j < t)
unfolding scale
scale-least zero t len = (len, refl, omega arith, inr (omega arith), λ j a b. absurd (omega arith))
scale-least (suc left) t len = elim (Bool-cases (ltb (10 ^ len) t)) [
  | inl more ↦
      let (k, run, fits, least, above) = scale-least left t (suc len) in
      let there : scale left t (10 ^ len * 10) (len + 1) ≡ (10 ^ k, k) =
        rw (add-one) (rw⁻¹ (pow-suc 10 len) run) in
      (
        k,
        rw more there,
        omega arith,
        omega (arith, least),
        λ j a b. elim (le-lt len j a) [
          | inl same ↦ subst (λ i. 10 ^ i < t) same (ltb→lt _ _ more)
          | inr further ↦ above j further b
        ],
      )
  | inr enough ↦ (
    len,
    rw enough refl,
    omega arith,
    inl (ground (arith, enough)),
    λ j a b. absurd (omega arith),
  )
]

drop-replicate :
    (k n : ℕ) → k < n → drop k (replicate {A = ℕ} n 0) ≡ 0 ∷ drop (suc k) (replicate n 0)
unfolding replicate
drop-replicate k zero h = absurd (omega arith)
drop-replicate zero (suc n) h = refl
drop-replicate (suc k) (suc n) h = drop-replicate k n (omega arith)

c_str-low_digits :
    (n t : ℕ) (rest : List ℕ) → c_str (low_digits n t ++ 0 ∷ rest) ≡ some (low_digits n t)
unfolding c_str low_digits
c_str-low_digits zero t rest = refl
c_str-low_digits (suc n) t rest =
    let from : 48 + t / 10 ^ n % 10 ≡ suc (47 + t / 10 ^ n % 10) = omega arith in
    rw (from, c_str-low_digits n t rest)

-- The empty array that the handler passes.
abbrev pub zeros : List ℕ
zeros = replicate max_thread_name 0

below_or_from : (j k : ℕ) → (j < k) ⊎ (k ≤ j)
below_or_from j k = elim (Bool-cases (ltb j k)) [
  | inl below ↦ inl (ltb→lt _ _ below)
  | inr from ↦ inr (ground (arith, from))
]

-- A number between two powers of ten that follow each other is none itself.
no_power : (k t : ℕ) → t < 10 ^ k → ((j : ℕ) → 0 ≤ j → j < k → 10 ^ j < t) → (j : ℕ) → t ≢ 10 ^ j
no_power k t less above j e = elim (below_or_from j k) [
  | inl below ↦ omega (arith, above j (omega arith) below, e)
  | inr from ↦ omega (arith, less, e, pow-le-pow_right {n = 10} (omega arith) {i = k} {j = j} from)
]

low_digits-AreDigits : (n t : ℕ) → All IsDigit (low_digits n t)
unfolding low_digits
low_digits-AreDigits zero t = tt
low_digits-AreDigits (suc n) t = (omega arith, low_digits-AreDigits n t)

-- For a thread number up to 10 ^ 15 the name is made of digits, at most 15, and ends within its array.
-- Read as a decimal number it is the thread's number, unless that is 10 ^ j for some j: then the name is
-- j digits long and reads as zero.
pub fallback-reads :
    (t : ℕ)
    → t ≤ 10 ^ 15
    → (name : List ℕ) × (c_str (write_thread_name_fallback t zeros) ≡ some name)
      × (length name ≤ 15)
      × All IsDigit name
      × (((j : ℕ) × (t ≡ 10 ^ j) × (length name ≡ j) × (number_from 0 name ≡ 0))
          ⊎ ((j : ℕ) → t ≢ 10 ^ j) × (number_from 0 name ≡ t))
unfolding write_thread_name_fallback
fallback-reads t small =
    let (k, run, fits, least, above) = scale-least max_thread_name t 0 in
    let short : k < 16 = elim (le-lt k 16 (fits)) [
      | inl all ↦ absurd (omega (arith, small, above 15 (omega arith) (omega (arith, all))))
      | inr less ↦ less
    ] in
    let room : k ≤ length zeros = omega (arith, short, length-replicate {A = ℕ} 16 0) in
    let written : write_thread_name_fallback t zeros ≡ low_digits k t ++ drop k zeros =
      rw run (fill-low_digits k t [] zeros room) in
    let value : number_from 0 (low_digits k t) ≡ t % 10 ^ k =
      number_from-low_digits k t 0 ∙ omega arith in
    (
      low_digits k t,
      rw (written, drop-replicate k 16 short)
          (c_str-low_digits k t (drop (suc k) (replicate 16 0))),
      omega (arith, short, length-low_digits k t),
      low_digits-AreDigits k t,
      elim least [
        | inl below ↦ elim (le-lt t (10 ^ k) below) [
          | inl same ↦ inl (
            k,
            same,
            length-low_digits k t,
            value ∙ ap (λ n. n % 10 ^ k) same ∙ mod_self (10 ^ k),
          )
          | inr less ↦ inr (no_power k t less above, value ∙ mod_small t (10 ^ k) less)
        ]
        | inr all ↦ absurd (omega (arith, short, all))
      ],
    )
