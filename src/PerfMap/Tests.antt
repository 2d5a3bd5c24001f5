-- ===== src/PerfMap/Tests.antt =====
-- The lookup in two ranges that overlap, and the theorems about reading and serving a map.
use strict_pprof_rs.Base.{
  ℕ, true, refl, ok, Result, ◌↔◌, ◌≡◌, ◌⊎◌, Option, none, some, List, [], ◌∷◌, ◌++◌,
}
use strict_pprof_rs.Collector.TempArray.{IoError}
use strict_pprof_rs.Base.Int.{pos}
use strict_pprof_rs.PerfMap.Resolver.{
  Look, Thread, Shared, Reach, begins, makes, spawns, unused, make, spawn, changed, init_resolver,
}
use strict_pprof_rs.PerfMap.Resolver.Served.{IsServed, Reach-IsServed, init_resolver-again}
use strict_pprof_rs.PerfMap.{
  parse_line, Range, symbol_of, Holds, NoneHolds, IsUnlisted, resolve_in_perfmap,
  resolve_in_perfmap_lem, new, new_iff, Stand,
}

abbrev two : List Range
two =
    record { start = 16; end = 32; name = b'a' ∷ [] }
    ∷ record { start = 24; end = 64; name = b'b' ∷ [] }
    ∷ []

resolve_in_perfmap_lem_example :
    (resolve_in_perfmap true (some two) 30 ≡ none) × IsUnlisted true (some two) 30
    ⊎ (before : List Range) × (r : Range) × (after : List Range) × (true ≡ true)
      × (◌≡◌ {A = Option (List Range)} (some two) (some (before ++ r ∷ after)))
      × NoneHolds before 30
      × Holds r 30
      × (resolve_in_perfmap true (some two) 30 ≡ some (symbol_of r.name))
resolve_in_perfmap_lem_example = resolve_in_perfmap_lem true (some two) 30

-- Words of one letter, and digits that stand for themselves.
abbrev letters : List ℕ → List (List ℕ)
letters [] = []
letters (c ∷ cs) = (c ∷ []) ∷ letters cs

abbrev itself : List ℕ → Option ℕ
itself [] = none
itself (c ∷ cs) = some c

abbrev joined : List (List ℕ) → List ℕ
joined [] = []
joined (w ∷ ws) = w ++ joined ws

abbrev map_lines : List (Result IoError (List ℕ))
map_lines = ok (16 ∷ 16 ∷ b'a' ∷ []) ∷ []

abbrev first_range : List Range
first_range = record { start = 16; end = 32; name = b'a' ∷ [] } ∷ []

new_iff_example :
    (new letters itself joined map_lines ≡ some first_range)
    ↔ Stand letters itself joined map_lines first_range
new_iff_example = new_iff letters itself joined map_lines first_range

-- The file at the second 7, and half a second later with a line that cannot be read.
abbrev early : Look
early = record { opened = ok map_lines; metadata = ok (ok (pos 7_000_000_000)) }

abbrev late : Look
late = record { opened = ok (ok [] ∷ []); metadata = ok (ok (pos 7_500_000_000)) }

abbrev made : Shared
made = make letters itself joined early unused

abbrev no_threads : List Thread
no_threads = []

served : Reach letters itself joined (late ∷ early ∷ []) (spawn late made)
served = spawns late (makes early begins refl)

Reach-IsServed_example : IsServed letters itself joined (late ∷ early ∷ []) (spawn late made)
Reach-IsServed_example = Reach-IsServed letters itself joined served

init_resolver-again_example :
    init_resolver letters itself joined late (init_resolver letters itself joined early 0).1
    ≡ (none, 7)
init_resolver-again_example =
    init_resolver-again letters itself joined early late 0 7 map_lines refl refl refl

one_map : made.resolver ≡ some (some first_range)
unfolding init_resolver changed new parse_line
one_map = refl
