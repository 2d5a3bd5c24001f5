-- ===== src/PerfMap/Resolver/Served.antt =====
-- What the resolver of src/perfmap.rs serves, in whatever order its threads go on, and what it misses.
use strict_pprof_rs.Base.{
  ℕ, ◌≡◌, ◌⊎◌, inl, inr, refl, sym, ◌∙◌, ap, subst, Option, none, some, List, [], ◌∷◌, ◌++◌, arith,
  Result, ok, err, ◌==◌, if◌then◌else◌, Bool-cases, Option-cases,
}
use strict_pprof_rs.Collector.TempArray.{IoError}
use strict_pprof_rs.PerfMap.{Range, new, new_iff, Stand}
use strict_pprof_rs.PerfMap.Resolver.{
  Lines, Look, seconds, unless_same, changed, Thread, compared, parsed, Shared, spawn, Reach,
  begins, makes, spawns, parses, stores, init_resolver, after_parse,
}

module _ (split_whitespace : List ℕ → List (List ℕ)) (from_str_radix : List ℕ → Option ℕ)
    (join : List (List ℕ) → List ℕ) where
  -- One of the looks satisfies `P`.
  abbrev pub Some : (Look → Type 0) → List Look → Type 0
  Some P [] = ⊥
  Some P (look ∷ looks) = P look ⊎ Some P looks

  -- One of the calls has read lines that stand, one by one, for these ranges.
  abbrev pub WasRead : List Look → List Range → Type 0
  WasRead looks rs =
      Some
        (λ look.
          (lines : Lines) × (look.opened ≡ ok lines)
          × Stand split_whitespace from_str_radix join lines rs)
        looks

  abbrev pub IsSeen : List Look → Thread → Type 0
  IsSeen looks (compared lines secs) =
      Some (λ look. (look.opened ≡ ok lines) × (seconds look.metadata ≡ some secs)) looks
  IsSeen looks (parsed rs) = WasRead looks rs

  abbrev AllSeen : List Look → List Thread → Type 0
  AllSeen looks [] = Unit
  AllSeen looks (t ∷ ts) = IsSeen looks t × AllSeen looks ts

  -- What is served stands for lines that a call has read, and so does what is under way.
  abbrev pub IsServed : List Look → Shared → Type 0
  IsServed looks s =
      ((rs : List Range) → s.resolver ≡ some (some rs) → WasRead looks rs) × AllSeen looks s.threads

  Some-map :
      (P Q : Look → Type 0) (looks : List Look)
      → ((l : Look) → P l → Q l)
      → Some P looks
      → Some Q looks
  Some-map P Q [] f h = h
  Some-map P Q (l ∷ ls) f (inl p) = inl (f l p)
  Some-map P Q (l ∷ ls) f (inr h) = inr (Some-map P Q ls f h)

  AllSeen-cons :
      (look : Look) (looks : List Look) (ts : List Thread)
      → AllSeen looks ts
      → AllSeen (look ∷ looks) ts
  AllSeen-cons look looks [] h = tt
  AllSeen-cons look looks (compared lines secs ∷ ts) (seen, rest) =
      (inr seen, AllSeen-cons look looks ts rest)
  AllSeen-cons look looks (parsed rs ∷ ts) (seen, rest) =
      (inr seen, AllSeen-cons look looks ts rest)

  AllSeen-append :
      (looks : List Look) (xs ys : List Thread)
      → AllSeen looks xs
      → AllSeen looks ys
      → AllSeen looks (xs ++ ys)
  AllSeen-append looks [] ys h k = k
  AllSeen-append looks (x ∷ xs) ys (seen, h) k = (seen, AllSeen-append looks xs ys h k)

  -- The threads around one, and that one.
  AllSeen-split :
      (looks : List Look) (xs ys : List Thread) (t : Thread)
      → AllSeen looks (xs ++ t ∷ ys)
      → AllSeen looks xs × IsSeen looks t × AllSeen looks ys
  AllSeen-split looks [] ys t (seen, h) = (tt, seen, h)
  AllSeen-split looks (x ∷ xs) ys t (seen, h) =
      let (before, own, after) = AllSeen-split looks xs ys t h in ((seen, before), own, after)

  changed_lem :
      (look : Look) (mtime : ℕ) (lines : Lines) (secs : ℕ)
      → changed look mtime ≡ some (lines, secs)
      → (look.opened ≡ ok lines) × (seconds look.metadata ≡ some secs)
  unfolding changed
  changed_lem look mtime lines secs h = by_file look.opened (seconds look.metadata) refl refl h
    where
      by_time :
          (now : Lines) (o : Option ℕ)
          → unless_same mtime now o ≡ some (lines, secs)
          → (now ≡ lines) × (o ≡ some secs)
      by_time now none k = absurd (cc)
      by_time now (some m) k = elim (Bool-cases (mtime == m)) [
        | inl same ↦ ground (arith, same, k)
        | inr other_time ↦ let it = rw other_time at k in (cc, cc)
      ]

      by_file :
          (r : Result IoError (Lines)) (o : Option ℕ)
          → look.opened ≡ r
          → seconds look.metadata ≡ o
          → (elim r [ err e ↦ none | ok now ↦ unless_same mtime now o ]) ≡ some (lines, secs)
          → (look.opened ≡ ok lines) × (seconds look.metadata ≡ some secs)
      by_file (err e) o opened time k = absurd (cc)
      by_file (ok now) o opened time k =
          let (same, then_time) = by_time now o k in (opened ∙ ap ok same, time ∙ then_time)

  spawn-IsServed :
      (look : Look) (looks : List Look) (s : Shared)
      → IsServed looks s
      → IsServed (look ∷ looks) (spawn look s)
  spawn-IsServed look looks s (served, seen) = elim (Option-cases (changed look s.mtime)) [
    | inl same ↦
        rw (same, spawn) (λ rs e. inr (served rs e), AllSeen-cons look looks s.threads seen)
    | inr ((lines, secs), new_time) ↦
        rw (new_time, spawn)
          (
            (λ rs e. inr (served rs e)),
            (
              inl (changed_lem look s.mtime lines secs new_time),
              AllSeen-cons look looks s.threads seen,
            ),
          )
  ]

  init_resolver-WasRead :
      (look : Look) (looks : List Look) (mtime : ℕ) (rs : List Range)
      → (init_resolver split_whitespace from_str_radix join look mtime).0 ≡ some rs
      → WasRead (look ∷ looks) rs
  unfolding init_resolver
  init_resolver-WasRead look looks mtime rs h = elim (Option-cases (changed look mtime)) [
    | inl same ↦ let never : none ≡ some rs = rw (same, init_resolver) at h in absurd (cc)
    | inr ((lines, secs), new_time) ↦ inl (
      lines,
      (changed_lem look mtime lines secs new_time).0,
      (new_iff split_whitespace from_str_radix join lines rs).0 (rw (new_time, init_resolver) at h),
    )
  ]

  after_parse-AllSeen :
      (looks : List Look) (lines : Lines) (secs : ℕ)
      → IsSeen looks (compared lines secs)
      → (o : Option (List Range)) → new split_whitespace from_str_radix join lines ≡ o
      → AllSeen looks (after_parse split_whitespace from_str_radix join o)
  after_parse-AllSeen looks lines secs seen none read = tt
  after_parse-AllSeen looks lines secs seen (some rs) read = (
    Some-map _ _ looks
        (λ look (opened, time).
          (lines, opened, (new_iff split_whitespace from_str_radix join lines rs).0 read))
        seen,
    tt,
  )

  -- In whatever order the threads of `get_resolver` go on, the map that is served stands, line by line,
  -- for all that one of them, or the first use, has got by reading the file; and so does every map that
  -- is still to be stored.
  pub Reach-IsServed :
      {looks : List Look} {s : Shared}
      → Reach split_whitespace from_str_radix join looks s
      → IsServed looks s
  Reach-IsServed begins = (λ rs e. absurd (cc), tt)
  Reach-IsServed (makes {looks} {s} look r fresh) =
      let (served, seen) = Reach-IsServed r in
      (
        λ rs e. init_resolver-WasRead look looks s.mtime rs (cc),
        AllSeen-cons look looks s.threads seen,
      )
  Reach-IsServed (spawns {looks} {s} look r) = spawn-IsServed look looks s (Reach-IsServed r)
  Reach-IsServed (parses {looks} {s} before after lines secs r there) =
      let (served, seen) = Reach-IsServed r in
      let (first, own, last) =
        AllSeen-split looks before after (compared lines secs) (subst (AllSeen looks) there seen) in
      (
        served,
        AllSeen-append looks before _ first
            (AllSeen-append looks _ after (after_parse-AllSeen looks lines secs own _ refl) last),
      )
  Reach-IsServed (stores {looks} {s} before after rs old r made there) =
      let (served, seen) = Reach-IsServed r in
      let (first, own, last) =
        AllSeen-split looks before after (parsed rs) (subst (AllSeen looks) there seen) in
      (
        λ rs' e. let same : rs ≡ rs' = cc in subst (WasRead looks) same own,
        AllSeen-append looks before after first last,
      )

  unless_same_now :
      (secs : ℕ) (look : Look) → seconds look.metadata ≡ some secs → changed look secs ≡ none
  unfolding changed
  unless_same_now secs look time = by_file look.opened
    where
      by_file :
          (r : Result IoError Lines)
          → (elim r [ err e ↦ none | ok now ↦ unless_same secs now (seconds look.metadata) ]) ≡ none
      by_file (err e) = refl
      by_file (ok now) = rw time (ground arith)

  changed_now :
      (look : Look) (mtime secs : ℕ) (lines : Lines)
      → look.opened ≡ ok lines
      → seconds look.metadata ≡ some secs
      → changed look mtime ≡ (if mtime == secs then none else some (lines, secs))
  unfolding changed
  changed_now look mtime secs lines opened time =
      subst
        (λ r.
          (elim r [ err e ↦ none | ok now ↦ unless_same mtime now (seconds look.metadata) ])
          ≡ (if mtime == secs then none else some (lines, secs)))
        (sym opened) (ap (unless_same mtime lines) time)

  remembered :
      (look : Look) (mtime secs : ℕ) (lines : Lines)
      → look.opened ≡ ok lines
      → seconds look.metadata ≡ some secs
      → (init_resolver split_whitespace from_str_radix join look mtime).1 ≡ secs
  unfolding init_resolver
  remembered look mtime secs lines opened time = elim (Bool-cases (mtime == secs)) [
    | inl same ↦
        rw (changed_now look mtime secs lines opened time, init_resolver, same)
          (ground (arith, same))
    | inr other_time ↦
        rw (changed_now look mtime secs lines opened time, init_resolver, other_time) refl
  ]

  -- Once the file could be opened and its time told, the next call that finds a file of the same
  -- second gives no map, whatever the file holds then, and also if the first call failed to read a map.
  pub init_resolver-again :
      (look look' : Look) (mtime secs : ℕ) (lines : Lines)
      → look.opened ≡ ok lines
      → seconds look.metadata ≡ some secs
      → seconds look'.metadata ≡ some secs
      → init_resolver split_whitespace from_str_radix join look'
          (init_resolver split_whitespace from_str_radix join look mtime).1
        ≡ (none, secs)
  unfolding init_resolver
  init_resolver-again look look' mtime secs lines opened time time' =
      let again : init_resolver split_whitespace from_str_radix join look' secs ≡ (none, secs) =
        rw (unless_same_now secs look' time', init_resolver) refl in
      subst (λ m. init_resolver split_whitespace from_str_radix join look' m ≡ (none, secs))
        (sym (remembered look mtime secs lines opened time)) again
