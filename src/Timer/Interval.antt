-- ===== src/Timer/Interval.antt =====
-- The interval that `Timer::new` of src/timer.rs arms.
use native.Mathlib.Nat.{div-eq_of_lt}
use strict_pprof_rs.Base.{
  ℕ, zero, suc, ◌+◌, ◌*◌, ◌/◌, ◌%◌, ◌≤◌, ◌<◌, ◌≡◌, refl, arith, panics, Returns,
}
use strict_pprof_rs.Base.Int.{pos, div_trunc, rem_trunc, negate}
use strict_pprof_rs.Timer.{Itimerval, interval_of}

-- The setting fires first after `n` microseconds, and then every `n` microseconds again.
abbrev pub FiresEvery : ℕ → Itimerval → Type 0
FiresEvery n setting =
    (s u : ℕ) × (setting.it_interval ≡ record { tv_sec = pos s; tv_usec = pos u })
    × (setting.it_value ≡ setting.it_interval)
    × (u < 1_000_000)
    × (s * 1_000_000 + u ≡ n)

-- For 1 to 1,000,000 samples a second the timer fires every n microseconds, where n is the largest
-- whole number with n * frequency ≤ 1,000,000, and n is at least one.
pub interval_of-FiresEvery :
    (f : ℕ)
    → 0 < f
    → f ≤ 1_000_000
    → Returns (interval_of (pos f)) (λ setting.
      (n : ℕ) × FiresEvery n setting × (0 < n) × (n * f ≤ 1_000_000) × (1_000_000 < (n + 1) * f))
unfolding interval_of div_trunc rem_trunc
interval_of-FiresEvery zero h k = absurd (omega arith)
interval_of-FiresEvery (suc f) h k = (
  _,
  refl,
  (
    1_000_000 / suc f,
    (
      1_000_000 / suc f / 1_000_000,
      1_000_000 / suc f % 1_000_000,
      refl,
      refl,
      omega arith,
      omega arith,
    ),
    grind arith,
    grind arith,
    grind arith,
  ),
)

-- A frequency of zero panics, and one beyond a million, of either sign, gives an interval of zero,
-- with which `setitimer` disarms the timer.
pub interval_of_outside :
    (f : ℕ)
    → 1_000_000 < f
    → (interval_of (pos 0) ≡ panics)
      × Returns (interval_of (pos f)) (FiresEvery 0)
      × Returns (interval_of (negate f)) (FiresEvery 0)
unfolding interval_of div_trunc rem_trunc
interval_of_outside zero h = absurd (omega arith)
interval_of_outside (suc f) h =
    let none_left : 1_000_000 / suc f ≡ 0 = div-eq_of_lt h in
    (
      refl,
      (_, refl, rw none_left (0, 0, refl, refl, omega arith, refl)),
      (_, refl, rw none_left (0, 0, refl, refl, omega arith, refl)),
    )
