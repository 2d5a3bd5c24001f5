-- ===== src/Timer/Tests.antt =====
-- The theorems about the timer's interval, at the default frequency and beyond a million.
use strict_pprof_rs.Base.{ℕ, ◌+◌, ◌*◌, ◌≤◌, ◌<◌, ◌≡◌, arith, panics, Returns}
use strict_pprof_rs.Base.Int.{pos, negate}
use strict_pprof_rs.Timer.{interval_of}
use strict_pprof_rs.Timer.Interval.{FiresEvery, interval_of-FiresEvery, interval_of_outside}

interval_of-FiresEvery_example : Returns (interval_of (pos 99)) (λ setting.
    (n : ℕ) × FiresEvery n setting × (0 < n) × (n * 99 ≤ 1_000_000) × (1_000_000 < (n + 1) * 99))
interval_of-FiresEvery_example = interval_of-FiresEvery 99 (omega arith) (omega arith)

interval_of_outside_example :
    (interval_of (pos 0) ≡ panics)
    × Returns (interval_of (pos 2_000_000)) (FiresEvery 0)
    × Returns (interval_of (negate 2_000_000)) (FiresEvery 0)
interval_of_outside_example = interval_of_outside 2_000_000 (omega arith)
