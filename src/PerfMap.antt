-- ===== src/PerfMap.antt =====
-- `PerfMap` of src/perfmap.rs: the symbols of code that a program has generated, as it lists them in
-- its perf map. Splitting and joining words and reading hexadecimal numbers are parameters.
pub mod Resolver
mod Tests
use strict_pprof_rs.Base.{
  ℕ, ◌≤◌, ◌<◌, ◌≡◌, ◌⊎◌, ◌↔◌, inl, inr, refl, ap, sym, ◌+◌, ◌%◌, ◌^◌, true, false, Option, none,
  some, List, [], ◌∷◌, ◌++◌, arith, Result, ok, err, word_add, leb, ltb, ◌&&◌, if◌then◌else◌,
  Bool-cases, Bool, leb→le, ltb→lt,
}
use strict_pprof_rs.Collector.TempArray.{IoError}
use strict_pprof_rs.Frames.Symbol.{Symbol}

-- A range of addresses with its name.
pub record Range : Type 0 where
  pub start : ℕ
  pub end : ℕ
  pub name : List ℕ

module _ (split_whitespace : List ℕ → List (List ℕ)) (from_str_radix : List ℕ → Option ℕ)
    (join : List (List ℕ) → List ℕ) where
  -- The line's two numbers and its name. `?` gives up at the first part that is missing or no number.
  abbrev range_of : Option ℕ → Option ℕ → List (List ℕ) → Option Range
  range_of none len rest = none
  range_of (some start) none rest = none
  range_of (some start) (some len) rest =
      some (record { start = start; end = word_add start len; name = join rest })

  abbrev parse_parts : List (List ℕ) → Option Range
  parse_parts [] = none
  parse_parts (start ∷ []) = none
  parse_parts (start ∷ len ∷ rest) = range_of (from_str_radix start) (from_str_radix len) rest

  unfoldable pub parse_line : Result IoError (List ℕ) → Option Range
  parse_line (err e) = none
  parse_line (ok line) = parse_parts (split_whitespace line)

  abbrev push : Option Range → Option (List Range) → Option (List Range)
  push none ranges = none
  push (some range) none = none
  push (some range) (some ranges) = some (range ∷ ranges)

  -- `PerfMap::new`, on the lines as they are read.
  unfoldable pub new : List (Result IoError (List ℕ)) → Option (List Range)
  new [] = some []
  new (line ∷ lines) = push (parse_line line) (new lines)

  -- The line is readable, its first two words are numbers, the range begins at the first and has the
  -- second as its length, on 64 bits, and its name is what follows them.
  abbrev pub Stands : Result IoError (List ℕ) → Range → Type 0
  Stands (err e) r = ⊥
  Stands (ok line) r =
      (start : List ℕ) × (len : List ℕ) × (rest : List (List ℕ)) × (s : ℕ) × (l : ℕ)
      × (split_whitespace line ≡ start ∷ len ∷ rest)
      × (from_str_radix start ≡ some s)
      × (from_str_radix len ≡ some l)
      × (r.start ≡ s)
      × (r.end ≡ (s + l) % 2 ^ 64)
      × (r.name ≡ join rest)

  range_eq : (r s : Range) → r.start ≡ s.start → r.end ≡ s.end → r.name ≡ s.name → r ≡ s
  range_eq r s a b c = λ i. record { start = a i; end = b i; name = c i }

  parse_line_iff :
      (line : Result IoError (List ℕ)) (r : Range) → (parse_line line ≡ some r) ↔ Stands line r
  unfolding parse_line
  parse_line_iff (err e) r = (λ h. cc, λ h. absurd h)
  parse_line_iff (ok line) r = (there (split_whitespace line) refl, back)
    where
      by_numbers :
          (start len : List ℕ) (rest : List (List ℕ)) (o p : Option ℕ)
          → split_whitespace line ≡ start ∷ len ∷ rest
          → from_str_radix start ≡ o
          → from_str_radix len ≡ p
          → range_of o p rest ≡ some r
          → Stands (ok line) r
      by_numbers start len rest none p split first second h = absurd (cc)
      by_numbers start len rest (some s) none split first second h = absurd (cc)
      by_numbers start len rest (some s) (some l) split first second h =
          let same : record { start = s; end = word_add s l; name = join rest } ≡ r = cc in
          (
            start,
            len,
            rest,
            s,
            l,
            split,
            first,
            second,
            sym (ap (λ q. q.start) same),
            sym (ap (λ q. q.end) same),
            sym (ap (λ q. q.name) same),
          )

      there :
          (parts : List (List ℕ))
          → split_whitespace line ≡ parts
          → parse_parts parts ≡ some r
          → Stands (ok line) r
      there [] split h = absurd (cc)
      there (start ∷ []) split h = absurd (cc)
      there (start ∷ len ∷ rest) split h =
          by_numbers start len rest (from_str_radix start) (from_str_radix len) split refl refl h

      back : Stands (ok line) r → parse_parts (split_whitespace line) ≡ some r
      back (start, len, rest, s, l, split, first, second, from, to, named) =
          rw (split, first, second)
            (ap some (
              range_eq (record { start = s; end = word_add s l; name = join rest }) r (sym from)
                (sym to) (sym named)))

  -- Every line stands for the range at its place.
  abbrev pub Stand : List (Result IoError (List ℕ)) → List Range → Type 0
  Stand [] [] = Unit
  Stand [] (r ∷ rs) = ⊥
  Stand (l ∷ ls) [] = ⊥
  Stand (l ∷ ls) (r ∷ rs) = Stands l r × Stand ls rs

  push-cons :
      (o : Option Range) (t : Option (List Range)) (r : Range) (rest : List Range)
      → (push o t ≡ some (r ∷ rest)) ↔ ((o ≡ some r) × (t ≡ some rest))
  push-cons none t r rest = (λ h. absurd (cc), λ h. absurd (cc))
  push-cons (some range) none r rest = (λ h. absurd (cc), λ h. absurd (cc))
  push-cons (some range) (some ranges) r rest = (λ h. (cc, cc), λ h. cc)

  push-nil : (o : Option Range) (t : Option (List Range)) → ¬ (push o t ≡ some [])
  push-nil none t h = cc
  push-nil (some range) none h = cc
  push-nil (some range) (some ranges) h = cc

  -- A perf map is read in full or not at all: reading gives the ranges exactly when there are as many as
  -- lines and each line, in order, is readable and begins with two words that are numbers: its range
  -- begins at the first, ends behind as many addresses as the second says, on 64 bits, and has the words
  -- after them, joined, as its name.
  pub new_iff :
      (lines : List (Result IoError (List ℕ))) (rs : List Range)
      → (new lines ≡ some rs) ↔ Stand lines rs
  unfolding new
  new_iff [] [] = (λ h. tt, λ h. refl)
  new_iff [] (r ∷ rs) = (λ h. cc, λ h. absurd h)
  new_iff (l ∷ ls) [] = (λ h. push-nil (parse_line l) (new ls) h, λ h. absurd h)
  new_iff (l ∷ ls) (r ∷ rs) =
      let (there, back) = push-cons (parse_line l) (new ls) r rs in
      let (on, off) = new_iff ls rs in
      let (stands, parsed) = parse_line_iff l r in
      (λ h. (stands (there h).0, on (there h).1), λ h. back (parsed h.0, off h.1))

-- `From<PerfMapSymbol> for Symbol`
abbrev pub symbol_of : List ℕ → Symbol
symbol_of text = record { name = some text; addr = none; lineno = none; filename = none }

-- `find`
unfoldable pub find : List Range → ℕ → Option (List ℕ)
find [] addr = none
find (r ∷ rs) addr = if leb r.start addr && ltb addr r.end then some r.name else find rs addr

abbrev pub Holds : Range → ℕ → Type 0
Holds r addr = (r.start ≤ addr) × (addr < r.end)

abbrev pub NoneHolds : List Range → ℕ → Type 0
NoneHolds [] addr = Unit
NoneHolds (r ∷ rs) addr = (¬ Holds r addr) × NoneHolds rs addr

-- The search gives the name of the first range that holds the address, its start included and its end
-- not, and nothing exactly when none does.
pub find_lem :
    (rs : List Range) (addr : ℕ)
    → (find rs addr ≡ none) × NoneHolds rs addr
      ⊎ (before : List Range) × (r : Range) × (after : List Range) × (rs ≡ before ++ r ∷ after)
        × NoneHolds before addr
        × Holds r addr
        × (find rs addr ≡ some r.name)
unfolding find
find_lem [] addr = inl (refl, tt)
find_lem (r ∷ rs) addr = elim (Bool-cases (leb r.start addr && ltb addr r.end)) [
  | inl held ↦ inr ([], r, rs, refl, tt, ground (arith, held), rw held refl)
  | inr free ↦
      let away : ¬ Holds r addr = λ h. ground (arith, free) in
      elim (find_lem rs addr) [
        | inl (nothing, others) ↦ inl (rw free nothing, (away, others))
        | inr (before, s, after, whole, others, held, found) ↦
            inr (r ∷ before, s, after, ap (λ xs. r ∷ xs) whole, (away, others), held, rw free found)
      ]
]

-- `resolve_in_perfmap` of src/frames.rs, with the feature `perfmaps` on or off and with what
-- `get_resolver` gives.
unfoldable pub resolve_in_perfmap : Bool → Option (List Range) → ℕ → Option Symbol
unfolding find
resolve_in_perfmap false resolver ip = none
resolve_in_perfmap true none ip = none
resolve_in_perfmap true (some ranges) ip = elim (find ranges ip) [
  | none ↦ none
  | some name ↦ some (symbol_of name)
]

-- Nothing is there to be found.
abbrev pub IsUnlisted : Bool → Option (List Range) → ℕ → Type 0
IsUnlisted false resolver ip = Unit
IsUnlisted true none ip = Unit
IsUnlisted true (some ranges) ip = NoneHolds ranges ip

-- An address has no symbol from the perf map exactly where the feature is off, there is no map, or no
-- range of the map holds it. Otherwise its symbol has the name of the first range that holds it, the
-- range's start included and its end not, and nothing else.
pub resolve_in_perfmap_lem :
    (perfmaps : Bool) (resolver : Option (List Range)) (ip : ℕ)
    → (resolve_in_perfmap perfmaps resolver ip ≡ none) × IsUnlisted perfmaps resolver ip
      ⊎ (before : List Range) × (r : Range) × (after : List Range) × (perfmaps ≡ true)
        × (resolver ≡ some (before ++ r ∷ after))
        × NoneHolds before ip
        × Holds r ip
        × (resolve_in_perfmap perfmaps resolver ip ≡ some (symbol_of r.name))
unfolding resolve_in_perfmap
resolve_in_perfmap_lem false resolver ip = inl (refl, tt)
resolve_in_perfmap_lem true none ip = inl (refl, tt)
resolve_in_perfmap_lem true (some ranges) ip = elim (find_lem ranges ip) [
  | inl (nothing, others) ↦ inl (rw (resolve_in_perfmap, nothing) refl, others)
  | inr (before, r, after, whole, others, held, found) ↦
      inr (before, r, after, refl, ap some whole, others, held, rw (resolve_in_perfmap, found) refl)
]
