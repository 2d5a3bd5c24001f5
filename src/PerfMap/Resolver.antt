-- ===== src/PerfMap/Resolver.antt =====
-- The resolver of src/perfmap.rs, which reads a perf map again when its time has changed. Threads do
-- that in the background, so what they do comes in any order.
pub mod Served
use strict_pprof_rs.Base.{
  ℕ, ◌≡◌, ◌/◌, ◌⊎◌, inl, inr, refl, sym, ◌∙◌, ap, subst, Option, none, some, List, [], ◌∷◌, ◌++◌,
  arith, Result, ok, err, ◌==◌, if◌then◌else◌, Bool-cases, Option-cases,
}
use strict_pprof_rs.Base.Int.{ℤ, pos, negsuc}
use strict_pprof_rs.Error.{Error, creating_error}
use strict_pprof_rs.Collector.TempArray.{IoError}
use strict_pprof_rs.PerfMap.{Range, new, new_iff, Stand}

-- The lines of a file, as reading gives them.
abbrev pub Lines : Type 0
Lines = List (Result IoError (List ℕ))

-- What the system answers to one call of `init_resolver`: whether the file can be opened, with the lines
-- that reading it to its end gives when that call comes to read it, which is after it has stored
-- `MTIME`; and the file's time of modification in nanoseconds since 1970, by `metadata` and `modified`.
-- A line that is written between the opening and the reading is among the lines.
pub record Look : Type 0 where
  pub opened : Result IoError (Lines)
  pub metadata : Result IoError (Result IoError ℤ)

-- `touch`, by what opening the file gave.
abbrev pub touch : Result IoError (Unit {0}) → Result Error (Unit {0})
touch (ok _) = ok tt
touch (err _) = err creating_error

-- `mtime.as_secs()`, where the time can be told and is not before 1970.
abbrev pub seconds : Result IoError (Result IoError ℤ) → Option ℕ
seconds (err e) = none
seconds (ok (err e)) = none
seconds (ok (ok (negsuc n))) = none
seconds (ok (ok (pos n))) = some (n / 1_000_000_000)

abbrev pub unless_same : ℕ → Lines → Option ℕ → Option (Lines × ℕ)
unless_same mtime lines none = none
unless_same mtime lines (some secs) = if mtime == secs then none else some (lines, secs)

-- `init_resolver` up to the comparison with `MTIME`: the lines to read and the new time.
unfoldable pub changed : Look → ℕ → Option (Lines × ℕ)
changed look mtime = elim look.opened [
  | err e ↦ none
  | ok lines ↦ unless_same mtime lines (seconds look.metadata)
]

-- A thread of `get_resolver`: about to store `MTIME` and to read the map, with the lines that this will
-- give; or about to store the map.
pub data Thread : Type 0 where
  compared : Lines → ℕ → Thread
  parsed : List Range → Thread

-- `MTIME`, `RESOLVER` once it is made, and the threads that are under way.
pub record Shared : Type 0 where
  pub mtime : ℕ
  pub resolver : Option (Option (List Range))
  pub threads : List Thread

abbrev pub unused : Shared
unused = record { mtime = 0; resolver = none; threads = [] }

-- A new thread goes as far as the comparison.
abbrev pub spawn : Look → Shared → Shared
spawn look s = elim (changed look s.mtime) [
  | none ↦ s
  | some (lines, secs) ↦ record s { threads = compared lines secs ∷ s.threads }
]

module _ (split_whitespace : List ℕ → List (List ℕ)) (from_str_radix : List ℕ → Option ℕ)
    (join : List (List ℕ) → List ℕ) where
  -- `init_resolver` as a whole, with the new value of `MTIME`.
  unfoldable pub init_resolver : Look → ℕ → Option (List Range) × ℕ
  unfolding changed
  init_resolver look mtime = elim (changed look mtime) [
    | none ↦ (none, mtime)
    | some (lines, secs) ↦ (new split_whitespace from_str_radix join lines, secs)
  ]

  -- `RESOLVER` is made, which comes once, before it is first loaded or stored. What comes of `touch`
  -- before it is passed over.
  abbrev pub make : Look → Shared → Shared
  make look s = record s {
    mtime = (init_resolver look s.mtime).1;
    resolver = some (init_resolver look s.mtime).0;
  }

  -- A thread that has read nothing returns.
  abbrev pub after_parse : Option (List Range) → List Thread
  after_parse none = []
  after_parse (some rs) = parsed rs ∷ []

  -- The states that calls of `get_resolver` lead to, with the answers that each
  -- `init_resolver` gets, the latest call first.
  pub data Reach : List Look → Shared → Type 0 where
    begins : Reach [] unused
    makes :
        {looks : List Look} {s : Shared} (look : Look)
        → Reach looks s
        → s.resolver ≡ none
        → Reach (look ∷ looks) (make look s)
    spawns :
        {looks : List Look} {s : Shared} (look : Look)
        → Reach looks s
        → Reach (look ∷ looks) (spawn look s)
    parses :
        {looks : List Look} {s : Shared} (before after : List Thread) (lines : Lines) (secs : ℕ)
        → Reach looks s
        → s.threads ≡ before ++ compared lines secs ∷ after
        → Reach looks (record s {
          mtime = secs;
          threads =
              before ++ (after_parse (new split_whitespace from_str_radix join lines) ++ after);
        })
    stores :
        {looks : List Look} {s : Shared} (before after : List Thread) (rs : List Range)
        (old : Option (List Range))
        → Reach looks s
        → s.resolver ≡ some old
        → s.threads ≡ before ++ parsed rs ∷ after
        → Reach looks (record s { resolver = some (some rs); threads = before ++ after })
