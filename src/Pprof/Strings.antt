-- ===== src/Pprof/Strings.antt =====
-- The string table of `Report::pprof` in src/report.rs: every string that a message refers to has a
-- number, and the table holds the string at that number.
use mathlib.Core.List.{append_assoc}
use strict_pprof_rs.Base.{
  ℕ, ◌+◌, ◌≡◌, ◌⊎◌, inl, inr, refl, sym, ◌∙◌, true, Option, some, List, [], ◌∷◌, ◌++◌, arith,
  length, length-append, get_elem?, get_elem?-append_right, Bool-cases,
}
use strict_pprof_rs.Base.HashMap.{HashMap, get, insert, get-insert}
use strict_pprof_rs.Base.Texts.{Text, text_key, text_equal, text_equal_iff}
use strict_pprof_rs.Frames.Symbol.{
  Symbol, Texts, Frames, name, sys_name, filename, thread_name_or_id,
}
use strict_pprof_rs.Pprof.{
  contains, insert_text, index_strings, add_symbols, add_frames, add_rows, dedup_str, samples_text,
  count_text, cpu_text, nanoseconds_text, thread_text,
}

-- The text has a number, and the table holds it there.
pub record IsKnown (strings : HashMap Text ℕ) (tbl : List Text) (t : Text) : Type 0 where
  pub index : ℕ
  pub found : get t strings ≡ some index
  pub held : get_elem? tbl index ≡ some t

-- Every number in the map is that of its text.
abbrev IsSound : HashMap Text ℕ → List Text → Type 0
IsSound strings tbl = (t : Text) (i : ℕ) → get t strings ≡ some i → get_elem? tbl i ≡ some t

insert-IsSound :
    (strings : HashMap Text ℕ) (done : List Text) (t : Text) (ts : List Text)
    → IsSound strings (done ++ t ∷ ts)
    → IsSound (insert t (length done) strings).1 (done ++ t ∷ ts)
insert-IsSound strings done t ts sound q i found = elim (Bool-cases (text_equal q t)) [
  | inl same ↦
      let e = (text_equal_iff q t).0 same in
      let at : ◌≡◌ {A = Option ℕ} (some (length done)) (some i) =
        rw same at (sym (get-insert q t (length done) strings) ∙ found) in
      let here : get_elem? (done ++ t ∷ ts) (length done) ≡ some t =
        get_elem?-append_right done (t ∷ ts) (length done) 0 (omega arith) in
      cc
  | inr other ↦ sound q i (rw other at (sym (get-insert q t (length done) strings) ∙ found))
]

index_strings-IsSound :
    (done ts : List Text) (strings : HashMap Text ℕ)
    → IsSound strings (done ++ ts)
    → IsSound (index_strings (length done) ts strings) (done ++ ts)
unfolding index_strings
index_strings-IsSound done [] strings sound = sound
index_strings-IsSound done (t ∷ ts) strings sound =
    let further : length (done ++ t ∷ []) ≡ length done + 1 = length-append done (t ∷ []) in
    let whole : (done ++ t ∷ []) ++ ts ≡ done ++ t ∷ ts = append_assoc done (t ∷ []) ts in
    rw (further, whole) at
      (index_strings-IsSound (done ++ t ∷ []) ts (insert t (length done) strings).1
        (rw whole (insert-IsSound strings done t ts sound)))

-- A text of the table has a number.
index_strings-get :
    (i : ℕ) (ts : List Text) (strings : HashMap Text ℕ) (q : Text)
    → (contains q ts ≡ true) ⊎ ((j : ℕ) × (get q strings ≡ some j))
    → (j : ℕ) × (get q (index_strings i ts strings) ≡ some j)
unfolding index_strings contains
index_strings-get i [] strings q (inl never) = absurd (cc)
index_strings-get i [] strings q (inr there) = there
index_strings-get i (t ∷ ts) strings q h =
    index_strings-get (i + 1) ts (insert t i strings).1 q (elim (Bool-cases (text_equal q t)) [
      | inl same ↦ inr (i, rw (get-insert q t i strings, same))
      | inr other ↦ elim h [
        | inl later ↦ inl (rw other at later)
        | inr (j, there) ↦ inr (j, rw (get-insert q t i strings, other) there)
      ]
    ])

-- Numbering a table makes every text in it known.
pub index_strings-IsKnown :
    (tbl : List Text) (t : Text) → contains t tbl ≡ true → IsKnown (index_strings 0 tbl []) tbl t
unfolding get
index_strings-IsKnown tbl t h =
    let (i, found) = index_strings-get 0 tbl [] t (inl h) in
    record {
      index = i;
      found = found;
      held = index_strings-IsSound [] tbl [] (λ q j never. absurd (cc)) t i found;
    }

-- The second set has all members of the first.
abbrev Grows : List Text → List Text → Type 0
Grows us vs = (t : Text) → contains t us ≡ true → contains t vs ≡ true

insert_text-Grows : (u : Text) (us : List Text) → Grows us (insert_text u us)
unfolding insert_text contains
insert_text-Grows u us t h = ground arith

contains-insert_text : (u : Text) (us : List Text) → contains u (insert_text u us) ≡ true
unfolding insert_text contains
contains-insert_text u us = ground (arith, (text_equal_iff u u).1 refl)

module _ (texts : Texts) where
  -- The three strings of a symbol are members.
  abbrev pub HasSymbol : List Text → Symbol → Type 0
  HasSymbol us s =
      (contains (name texts s) us ≡ true)
      × (contains (sys_name texts s) us ≡ true)
      × (contains (filename texts s) us ≡ true)

  abbrev pub HasSymbols : List Text → List Symbol → Type 0
  HasSymbols us [] = Unit
  HasSymbols us (s ∷ ss) = HasSymbol us s × HasSymbols us ss

  abbrev pub HasFrames : List Text → List (List Symbol) → Type 0
  HasFrames us [] = Unit
  HasFrames us (f ∷ fs) = HasSymbols us f × HasFrames us fs

  abbrev pub HasRows : List Text → HashMap Frames ℕ → Type 0
  HasRows us [] = Unit
  HasRows us (row ∷ rows) =
      (contains (thread_name_or_id row.0) us ≡ true) × HasFrames us row.0.frames × HasRows us rows

  abbrev add_symbol : Symbol → List Text → List Text
  add_symbol s set =
      insert_text (filename texts s)
        (insert_text (sys_name texts s) (insert_text (name texts s) set))

  add_symbol-HasSymbol : (s : Symbol) (set : List Text) → HasSymbol (add_symbol s set) s
  add_symbol-HasSymbol s set = (
    insert_text-Grows _ _ _ (insert_text-Grows _ _ _ (contains-insert_text (name texts s) set)),
    insert_text-Grows _ _ _ (contains-insert_text (sys_name texts s) _),
    contains-insert_text (filename texts s) _,
  )

  add_symbols-HasSymbols :
      (ss : List Symbol) (set : List Text)
      → Grows set (add_symbols texts ss set) × HasSymbols (add_symbols texts ss set) ss
  unfolding add_symbols
  add_symbols-HasSymbols [] set = (λ t h. h, tt)
  add_symbols-HasSymbols (s ∷ ss) set =
      let (grows, rest) = add_symbols-HasSymbols ss (add_symbol s set) in
      let (a, b, c) = add_symbol-HasSymbol s set in
      (
        λ t h.
            grows t (insert_text-Grows _ _ t (insert_text-Grows _ _ t (insert_text-Grows _ _ t h))),
        ((grows _ a, grows _ b, grows _ c), rest),
      )

  HasSymbols-Grows :
      (us vs : List Text) (ss : List Symbol) → Grows us vs → HasSymbols us ss → HasSymbols vs ss
  HasSymbols-Grows us vs [] g h = tt
  HasSymbols-Grows us vs (s ∷ ss) g ((a, b, c), rest) =
      ((g _ a, g _ b, g _ c), HasSymbols-Grows us vs ss g rest)

  HasFrames-Grows :
      (us vs : List Text) (fs : List (List Symbol))
      → Grows us vs
      → HasFrames us fs
      → HasFrames vs fs
  HasFrames-Grows us vs [] g h = tt
  HasFrames-Grows us vs (f ∷ fs) g (first, rest) =
      (HasSymbols-Grows us vs f g first, HasFrames-Grows us vs fs g rest)

  HasRows-Grows :
      (us vs : List Text) (rows : HashMap Frames ℕ)
      → Grows us vs
      → HasRows us rows
      → HasRows vs rows
  HasRows-Grows us vs [] g h = tt
  HasRows-Grows us vs (row ∷ rows) g (thread, frames, rest) =
      (g _ thread, HasFrames-Grows us vs row.0.frames g frames, HasRows-Grows us vs rows g rest)

  add_frames-HasFrames :
      (fs : List (List Symbol)) (set : List Text)
      → Grows set (add_frames texts fs set) × HasFrames (add_frames texts fs set) fs
  unfolding add_frames
  add_frames-HasFrames [] set = (λ t h. h, tt)
  add_frames-HasFrames (f ∷ fs) set =
      let (first, has) = add_symbols-HasSymbols f set in
      let (later, rest) = add_frames-HasFrames fs (add_symbols texts f set) in
      (λ t h. later t (first t h), (HasSymbols-Grows _ _ f later has, rest))

  add_rows-HasRows :
      (rows : HashMap Frames ℕ) (set : List Text)
      → Grows set (add_rows texts rows set) × HasRows (add_rows texts rows set) rows
  unfolding add_rows
  add_rows-HasRows [] set = (λ t h. h, tt)
  add_rows-HasRows (row ∷ rows) set =
      let thread = thread_name_or_id row.0 in
      let (first, has) = add_frames-HasFrames row.0.frames (insert_text thread set) in
      let (later, rest) =
        add_rows-HasRows rows (add_frames texts row.0.frames (insert_text thread set)) in
      (
        λ t h. later t (first t (insert_text-Grows thread set t h)),
        (
          later _ (first _ (contains-insert_text thread set)),
          HasFrames-Grows _ _ row.0.frames later has,
          rest,
        ),
      )

  -- The five words that every profile uses.
  abbrev pub HasWords : List Text → Type 0
  HasWords us =
      (contains thread_text us ≡ true)
      × (contains nanoseconds_text us ≡ true)
      × (contains cpu_text us ≡ true)
      × (contains count_text us ≡ true)
      × (contains samples_text us ≡ true)

  -- The set holds every string that the profile refers to.
  pub dedup_str-Has :
      (rows : HashMap Frames ℕ)
      → HasRows (dedup_str texts rows) rows × HasWords (dedup_str texts rows)
  unfolding dedup_str
  dedup_str-Has rows =
      let base = add_rows texts rows [] in
      let g = insert_text-Grows in
      let fresh = contains-insert_text in
      (
        HasRows-Grows _ _ rows (λ t h. g _ _ t (g _ _ t (g _ _ t (g _ _ t (g _ _ t h)))))
            (add_rows-HasRows rows []).1,
        (
          fresh _ _,
          g _ _ _ (fresh _ _),
          g _ _ _ (g _ _ _ (fresh _ _)),
          g _ _ _ (g _ _ _ (g _ _ _ (fresh _ _))),
          g _ _ _ (g _ _ _ (g _ _ _ (g _ _ _ (fresh _ _)))),
        ),
      )
