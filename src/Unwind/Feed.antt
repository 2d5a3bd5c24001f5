-- ===== src/Unwind/Feed.antt =====
-- What a walk of the call stack does to its callback's state.
use strict_pprof_rs.Base.{Bool, List, [], ◌∷◌, if◌then◌else◌}

-- The callback on each of the given frames, until it answers false.
abbrev pub feed : {S A : Type 0} → (S → A → Bool × S) → S → List A → S
feed cb s [] = s
feed cb s (ip ∷ ips) =
    let answer = cb s ip in let rest = feed cb answer.1 ips in if answer.0 then rest else answer.1
