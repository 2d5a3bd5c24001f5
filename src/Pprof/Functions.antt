-- ===== src/Pprof/Functions.antt =====
-- The function and location tables of `Report::pprof` in src/report.rs: the number that a symbol gets
-- leads, through location, line and function, to the symbol's name.
use mathlib.Core.List.{flatten, append-nil, append_assoc, map-append}
use strict_pprof_rs.Base.{
  ℕ, ◌+◌, ◌≡◌, inl, inr, refl, sym, ap, subst, ◌∙◌, true, Option, none, some, List, [], ◌∷◌, ◌++◌,
  map, arith, length, length-append, get_elem?, Returns, AllAt, ◌==◌, if◌then◌else◌, Bool-cases,
  Option-cases,
}
use strict_pprof_rs.Base.HashMap.{HashMap, get, insert, get-insert}
use strict_pprof_rs.Base.Texts.{Text, text_key, text_equal, text_equal_iff}
use strict_pprof_rs.Frames.Symbol.{Symbol, Texts, name, sys_name, filename, lineno}
use strict_pprof_rs.Protos.{Function, Location, Line, default_function, default_location}
use strict_pprof_rs.Pprof.{Tables, contains, add_function, locate, locate_symbols, locate_frames}
use strict_pprof_rs.Pprof.Strings.{IsKnown, HasSymbol, HasSymbols, HasFrames}

-- The first record with the given number, as a reader of a profile looks it up.
abbrev pub find_id {ℓ} : {A : Type ℓ} → (A → ℕ) → ℕ → List A → Option A
find_id ident id [] = none
find_id ident id (a ∷ as') = if ident a == id then some a else find_id ident id as'

abbrev pub bind {ℓ κ} : {A : Type ℓ} {B : Type κ} → Option A → (A → Option B) → Option B
bind none f = none
bind (some a) f = f a

abbrev pub head? {ℓ} : {A : Type ℓ} → List A → Option A
head? [] = none
head? (a ∷ as') = some a

bind-some {ℓ κ} :
    {A : Type ℓ} {B : Type κ} (o : Option A) (f : A → Option B) (b : B)
    → bind o f ≡ some b
    → (a : A) × (o ≡ some a) × (f a ≡ some b)
bind-some none f b h = absurd (cc)
bind-some (some a) f b h = (a, refl, h)

-- The name of the function at a location.
abbrev pub name_at : List Text → List Function → List Location → ℕ → Option Text
name_at tbl fns locs id = bind (find_id (λ (l : Location). l.id) id locs) (λ l.
    bind (head? l.line) (λ line.
      bind (find_id (λ (f : Function). f.id) line.function_id fns) (λ f. get_elem? tbl f.name)))

module _ {A : Type 0} (ident : A → ℕ) where
  -- Records are numbered from one on.
  abbrev pub Numbered : ℕ → List A → Type 0
  Numbered = AllAt (λ i a. ident a ≡ i + 1)

  Numbered-snoc :
      (i : ℕ) (xs : List A) (a : A)
      → Numbered i xs
      → ident a ≡ i + length xs + 1
      → Numbered i (xs ++ a ∷ [])
  Numbered-snoc i [] a h e = (omega (arith, e), tt)
  Numbered-snoc i (x ∷ xs) a h e = (h.0, Numbered-snoc (i + 1) xs a h.1 (omega (arith, e)))

  find_id-append :
      (id : ℕ) (xs ys : List A) (a : A)
      → find_id ident id xs ≡ some a
      → find_id ident id (xs ++ ys) ≡ some a
  find_id-append id [] ys a h = absurd (cc)
  find_id-append id (x ∷ xs) ys a h = ground (arith, find_id-append id xs ys a)

  find_id-last :
      (i id : ℕ) (xs : List A) (a : A)
      → Numbered i xs
      → i + length xs + 1 ≡ id
      → ident a ≡ id
      → find_id ident id (xs ++ a ∷ []) ≡ some a
  find_id-last i id [] a h e same = ground (arith, same)
  find_id-last i id (x ∷ xs) a h e same =
      ground (arith, find_id-last (i + 1) id xs a h.1, same, h.0)

module _ (texts : Texts) (strings : HashMap Text ℕ) (tbl : List Text) where
  abbrev pub name_in : Tables → ℕ → Option Text
  name_in t = name_at tbl t.fn_tbl t.loc_tbl

  -- Both tables are numbered alike, and every name that has a number is what is found under it.
  pub record IsValid (t : Tables) : Type 0 where
    pub paired : length t.loc_tbl ≡ length t.fn_tbl
    pub functions_numbered : Numbered (λ (f : Function). f.id) 0 t.fn_tbl
    pub locations_numbered : Numbered (λ (l : Location). l.id) 0 t.loc_tbl
    pub named : (q : Text) (id : ℕ) → get q t.functions ≡ some id → name_in t id ≡ some q

  -- What is found in the first tables is found in the second.
  abbrev pub Extends : Tables → Tables → Type 0
  Extends t t' = (id : ℕ) (q : Text) → name_in t id ≡ some q → name_in t' id ≡ some q

  -- What `locate` has done with a symbol.
  abbrev pub Located : Tables → Symbol → Tables × ℕ → Type 0
  Located t s (t', id) = IsValid t' × Extends t t' × (name_in t' id ≡ some (name texts s))

  append-Extends :
      (t : Tables) (functions : HashMap Text ℕ) (f : Function) (l : Location)
      → Extends t (record {
        functions = functions;
        fn_tbl = t.fn_tbl ++ f ∷ [];
        loc_tbl = t.loc_tbl ++ l ∷ [];
      })
  append-Extends t functions f l id q h =
      let (l', located, inner) = bind-some (find_id (λ (a : Location). a.id) id t.loc_tbl) _ q h in
      let (line, lined, innermost) = bind-some (head? l'.line) _ q inner in
      let (f', called, text) =
        bind-some (find_id (λ (a : Function). a.id) line.function_id t.fn_tbl) _ q innermost in
      let there = find_id-append (λ (a : Location). a.id) id t.loc_tbl (l ∷ []) l' located in
      let too =
        find_id-append (λ (a : Function). a.id) line.function_id t.fn_tbl (f ∷ []) f' called in
      rw (there, lined, too) text

  module _ (s : Symbol) (t : Tables) (valid : IsValid t)
      (first : IsKnown strings tbl (name texts s)) (second : IsKnown strings tbl (sys_name texts s))
      (third : IsKnown strings tbl (filename texts s)) where
    add_function-Located : Returns (add_function texts strings s t) (Located t s)
    unfolding add_function
    add_function-Located =
        let next : ℕ = length t.fn_tbl + 1 in
        let function : Function = record default_function {
          id = next;
          name = first.index;
          system_name = second.index;
          filename = third.index;
        } in
        let line : Line = record { function_id = next; line = lineno s } in
        let loc : Location = record default_location { id = next; line = line ∷ [] } in
        let t' : Tables = record {
          functions = (insert (name texts s) next t.functions).1;
          fn_tbl = t.fn_tbl ++ function ∷ [];
          loc_tbl = t.loc_tbl ++ loc ∷ [];
        } in
        let here : name_in t' next ≡ some (name texts s) =
          rw
            (
              find_id-last (λ (a : Location). a.id) 0 next t.loc_tbl loc valid.locations_numbered
                  (omega (arith, valid.paired)) refl,
              find_id-last (λ (a : Function). a.id) 0 next t.fn_tbl function
                  valid.functions_numbered (omega arith) refl,
            )
            first.held in
        let extends = append-Extends t t'.functions function loc in
        (
          (t', next),
          rw (first.found, second.found, third.found),
          (
            record {
              paired = omega (
                arith,
                length-append t.loc_tbl (loc ∷ []),
                length-append t.fn_tbl (function ∷ []),
                valid.paired,
              );
              functions_numbered =
                  Numbered-snoc _ 0 t.fn_tbl function valid.functions_numbered (omega arith);
              locations_numbered =
                  Numbered-snoc _ 0 t.loc_tbl loc valid.locations_numbered
                    (omega (arith, valid.paired));
              named = λ q id there. elim (Bool-cases (text_equal q (name texts s))) [
                | inl same ↦
                    let e = (text_equal_iff q (name texts s)).0 same in
                    let at : ◌≡◌ {A = Option ℕ} (some next) (some id) =
                      rw same at (sym (get-insert q (name texts s) next t.functions) ∙ there) in
                    let number : next ≡ id = cc in
                    subst (λ n. name_in t' n ≡ some q) number (here ∙ ap some (sym e))
                | inr other ↦ extends id q (
                    valid.named q id
                      (rw other at (sym (get-insert q (name texts s) next t.functions) ∙ there)))
              ];
            },
            extends,
            here,
          ),
        )

  module _ (us : List Text)
      (known : (q : Text) → contains q us ≡ true → IsKnown strings tbl q) where
    locate-Located :
        (s : Symbol) (t : Tables)
        → IsValid t
        → HasSymbol texts us s
        → Returns (locate texts strings s t) (Located t s)
    unfolding locate
    locate-Located s t valid (a, b, c) = elim (Option-cases (get (name texts s) t.functions)) [
      | inl absent ↦
          rw (absent, locate) (add_function-Located s t valid (known _ a) (known _ b) (known _ c))
      | inr (id, there) ↦ (
        (t, id),
        rw (there, locate) refl,
        (valid, λ _ _ h. h, valid.named (name texts s) id there),
      )
    ]

    -- The locations `locs` stand for `names`.
    abbrev pub Stand : Tables → List ℕ → List Text → Type 0
    Stand t locs names = map (name_in t) locs ≡ map some names

    pub Stand-Extends :
        (t t' : Tables) (locs : List ℕ) (names : List Text)
        → Extends t t'
        → Stand t locs names
        → Stand t' locs names
    Stand-Extends t t' [] [] g h = refl
    Stand-Extends t t' [] (n ∷ names) g h = absurd (cc)
    Stand-Extends t t' (id ∷ locs) [] g h = absurd (cc)
    Stand-Extends t t' (id ∷ locs) (n ∷ names) g h =
        let first = g id n (cc) in let rest = Stand-Extends t t' locs names g (cc) in cc

    -- What the loops have done with symbols of the given names.
    abbrev pub LocatedAll : Tables → List ℕ → List Text → List Text → Tables × List ℕ → Type 0
    LocatedAll t locs names more (t', locs') =
        IsValid t' × Extends t t' × (Stand t locs names → Stand t' locs' (names ++ more))

    Stand-snoc :
        (t : Tables) (locs : List ℕ) (names : List Text) (id : ℕ) (n : Text)
        → Stand t locs names
        → name_in t id ≡ some n
        → Stand t (locs ++ id ∷ []) (names ++ n ∷ [])
    Stand-snoc t locs names id n h e =
        map-append (name_in t) locs (id ∷ [])
        ∙ (λ i. h i ++ e i ∷ [])
        ∙ sym (map-append some names (n ∷ []))

    locate_symbols-LocatedAll :
        (ss : List Symbol) (t : Tables) (locs : List ℕ) (names : List Text)
        → IsValid t
        → HasSymbols texts us ss
        → Returns
            (locate_symbols texts strings ss (t, locs))
            (LocatedAll t locs names (map (name texts) ss))
    unfolding locate_symbols
    locate_symbols-LocatedAll [] t locs names valid has =
        ((t, locs), refl, (valid, λ _ _ h. h, λ h. rw append-nil h))
    locate_symbols-LocatedAll (s ∷ ss) t locs names valid (one, others) =
        let ((t₁, id), run, (valid₁, grows₁, here)) = locate-Located s t valid one in
        let ((t₂, locs₂), runs, (valid₂, grows₂, stand)) =
          locate_symbols-LocatedAll ss t₁ (locs ++ id ∷ []) (names ++ name texts s ∷ []) valid₁
            others in
        (
          (t₂, locs₂),
          rw (run, runs),
          (
            valid₂,
            λ i q h. grows₂ i q (grows₁ i q h),
            λ h.
                subst (Stand t₂ locs₂)
                  (append_assoc names (name texts s ∷ []) (map (name texts) ss))
                  (stand (
                    Stand-snoc t₁ locs names id (name texts s)
                      (Stand-Extends t t₁ locs names grows₁ h) here)),
          ),
        )

    -- The loops over a stack give one location for each symbol, in order, which stands for its name.
    pub locate_frames-LocatedAll :
        (fs : List (List Symbol)) (t : Tables) (locs : List ℕ) (names : List Text)
        → IsValid t
        → HasFrames texts us fs
        → Returns
            (locate_frames texts strings fs (t, locs))
            (LocatedAll t locs names (map (name texts) (flatten fs)))
    unfolding locate_frames flatten
    locate_frames-LocatedAll [] t locs names valid has =
        ((t, locs), refl, (valid, λ _ _ h. h, λ h. rw append-nil h))
    locate_frames-LocatedAll (f ∷ fs) t locs names valid (one, others) =
        let ((t₁, locs₁), run, (valid₁, grows₁, stand₁)) =
          locate_symbols-LocatedAll f t locs names valid one in
        let ((t₂, locs₂), runs, (valid₂, grows₂, stand₂)) =
          locate_frames-LocatedAll fs t₁ locs₁ (names ++ map (name texts) f) valid₁ others in
        (
          (t₂, locs₂),
          rw (run, runs),
          (
            valid₂,
            λ i q h. grows₂ i q (grows₁ i q h),
            λ h.
                subst (Stand t₂ locs₂)
                  (append_assoc names (map (name texts) f) (map (name texts) (flatten fs))
                    ∙ ap (λ ns. names ++ ns) (sym (map-append (name texts) f (flatten fs))))
                  (stand₂ (stand₁ h)),
          ),
        )
