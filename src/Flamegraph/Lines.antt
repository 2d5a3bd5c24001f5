-- ===== src/Flamegraph/Lines.antt =====
-- The folded lines of src/report.rs, read back as inferno reads them: the count behind the last space,
-- and the stack, outermost first, at the semicolons.
use mathlib.Core.List.{flatten, reverse, append-nil, append_assoc, map-append, reverse-append}
use strict_pprof_rs.Base.{
  ℕ, ◌<◌, ◌≡◌, ◌≢◌, ◌∙◌, refl, sym, ap, Option, none, some, List, [], ◌∷◌, ◌++◌, map, arith, ◌==◌,
  if◌then◌else◌, half_word, lt→ltb,
}
use strict_pprof_rs.Base.Decimal.{decimal, number_from, decimal_lem, All, IsDigit}
use strict_pprof_rs.Base.Texts.{Text}
use strict_pprof_rs.Frames.Symbol.{Symbol, Texts, Frames, name, thread_name_or_id}
use strict_pprof_rs.Flamegraph.{display_count, pop, write_symbols, write_frames, line_of}

-- The text before and behind the last `c`.
unfoldable pub rsplit_once : ℕ → Text → Option (Text × Text)
rsplit_once c [] = none
rsplit_once c (x ∷ xs) = elim (rsplit_once c xs) [
  | some (a, b) ↦ some (x ∷ a, b)
  | none ↦ if x == c then some ([], xs) else none
]

abbrev pub onto_first : ℕ → List Text → List Text
onto_first x [] = (x ∷ []) ∷ []
onto_first x (t ∷ ts) = (x ∷ t) ∷ ts

-- The parts of a text between the `c`s.
unfoldable pub split : ℕ → Text → List Text
split c [] = [] ∷ []
split c (x ∷ xs) = if x == c then [] ∷ split c xs else onto_first x (split c xs)

-- A folded line as a stack and a count.
unfoldable pub read_line : Text → Option (List Text × ℕ)
unfolding rsplit_once split
read_line line = elim (rsplit_once b' ' line) [
  | none ↦ none
  | some (stack, count) ↦ some (split b';' stack, number_from 0 count)
]

-- The code does not occur in the text.
abbrev pub Lacks : ℕ → Text → Type 0
Lacks c = All (λ x. x ≢ c)

abbrev pub AllLack : ℕ → List Text → Type 0
AllLack c [] = Unit
AllLack c (t ∷ ts) = Lacks c t × AllLack c ts

rsplit_once-Lacks : (c : ℕ) (b : Text) → Lacks c b → rsplit_once c b ≡ none
unfolding rsplit_once
rsplit_once-Lacks c [] h = refl
rsplit_once-Lacks c (x ∷ b) h = ground (arith, rsplit_once-Lacks c b h.1)

rsplit_once-append : (c : ℕ) (a b : Text) → Lacks c b → rsplit_once c (a ++ c ∷ b) ≡ some (a, b)
unfolding rsplit_once
rsplit_once-append c [] b h = ground (arith, rsplit_once-Lacks c b h)
rsplit_once-append c (x ∷ a) b h = rw (rsplit_once-append c a b h) refl

split-Lacks : (c : ℕ) (t : Text) → Lacks c t → split c t ≡ t ∷ []
unfolding split
split-Lacks c [] h = refl
split-Lacks c (x ∷ t) h = ground (arith, split-Lacks c t h.1)

split-append : (c : ℕ) (t rest : Text) → Lacks c t → split c (t ++ c ∷ rest) ≡ t ∷ split c rest
unfolding split
split-append c [] rest h = ground arith
split-append c (x ∷ t) rest h = ground (arith, split-append c t rest h.1)

-- The texts, each behind a semicolon.
abbrev tail_of : List Text → Text
tail_of [] = []
tail_of (t ∷ ts) = b';' ∷ t ++ tail_of ts

tail_of-append : (ts us : List Text) → tail_of (ts ++ us) ≡ tail_of ts ++ tail_of us
tail_of-append [] us = refl
tail_of-append (t ∷ ts) us =
    ap (λ rest. b';' ∷ t ++ rest) (tail_of-append ts us)
    ∙ sym (append_assoc (b';' ∷ t) (tail_of ts) (tail_of us))

split-tail_of :
    (t : Text) (ts : List Text)
    → Lacks b';' t
    → AllLack b';' ts
    → split b';' (t ++ tail_of ts) ≡ t ∷ ts
split-tail_of t [] h k = rw append-nil (split-Lacks b';' t h)
split-tail_of t (u ∷ us) h k =
    split-append b';' t (u ++ tail_of us) h ∙ ap (λ rest. t ∷ rest) (split-tail_of u us k.0 k.1)

pop-snoc : (t : Text) (c : ℕ) → pop (t ++ c ∷ []) ≡ t
unfolding pop
pop-snoc [] c = refl
pop-snoc (x ∷ []) c = refl
pop-snoc (x ∷ y ∷ t) c = ap (λ xs. x ∷ xs) (pop-snoc (y ∷ t) c)

module _ (texts : Texts) where
  one_more :
      (line n rest : Text)
      → (line ++ b';' ∷ []) ++ (n ++ b';' ∷ []) ≡ (line ++ b';' ∷ n) ++ b';' ∷ []
  one_more line n rest = simp append_assoc

  -- Before its last semicolon is popped, the line is the texts so far and the names, with semicolons.
  write_symbols-tail_of :
      (ss : List Symbol) (line : Text)
      → write_symbols texts (line ++ b';' ∷ []) ss
        ≡ (line ++ tail_of (map (name texts) ss)) ++ b';' ∷ []
  unfolding write_symbols
  write_symbols-tail_of [] line = rw append-nil refl
  write_symbols-tail_of (s ∷ ss) line =
      ap (λ l. write_symbols texts l ss) (one_more line (name texts s) [])
      ∙ write_symbols-tail_of ss (line ++ b';' ∷ name texts s)
      ∙ ap (λ l. l ++ b';' ∷ [])
          (append_assoc line (b';' ∷ name texts s) (tail_of (map (name texts) ss)))

  -- Every frame's symbols in reverse, frame by frame.
  abbrev backwards : List (List Symbol) → List Symbol
  backwards [] = []
  backwards (f ∷ fs) = reverse f ++ backwards fs

  write_frames-tail_of :
      (fs : List (List Symbol)) (line : Text)
      → write_frames texts (line ++ b';' ∷ []) fs
        ≡ (line ++ tail_of (map (name texts) (backwards fs))) ++ b';' ∷ []
  unfolding write_frames
  write_frames-tail_of [] line = rw append-nil refl
  write_frames-tail_of (f ∷ fs) line =
      ap (λ l. write_frames texts l fs) (write_symbols-tail_of (reverse f) line)
      ∙ write_frames-tail_of fs (line ++ tail_of (map (name texts) (reverse f)))
      ∙ ap (λ l. l ++ b';' ∷ [])
          (append_assoc line (tail_of (map (name texts) (reverse f)))
              (tail_of (map (name texts) (backwards fs)))
            ∙ ap (λ l. line ++ l)
                (sym (
                    tail_of-append (map (name texts) (reverse f)) (map (name texts) (backwards fs)))
                  ∙ ap tail_of (sym (map-append (name texts) (reverse f) (backwards fs)))))

  backwards-append :
      (fs gs : List (List Symbol)) → backwards (fs ++ gs) ≡ backwards fs ++ backwards gs
  backwards-append [] gs = refl
  backwards-append (f ∷ fs) gs =
      ap (λ ss. reverse f ++ ss) (backwards-append fs gs)
      ∙ sym (append_assoc (reverse f) (backwards fs) (backwards gs))

  backwards-reverse : (fs : List (List Symbol)) → backwards (reverse fs) ≡ reverse (flatten fs)
  unfolding flatten
  backwards-reverse [] = refl
  backwards-reverse (f ∷ fs) =
      ap backwards (reverse-append (f ∷ []) fs)
      ∙ backwards-append (reverse fs) (f ∷ [])
      ∙ (λ i. backwards-reverse fs i ++ append-nil (reverse f) i)
      ∙ sym (reverse-append f (flatten fs))

  -- The stack of a row, outermost first: the thread, and the names of its symbols.
  abbrev pub stack_of : Frames → List Text
  stack_of key = map (name texts) (reverse (flatten key.frames))

  IsDigit-Lacks : (cs : Text) → All IsDigit cs → Lacks b' ' cs
  IsDigit-Lacks [] h = tt
  IsDigit-Lacks (c ∷ cs) h = (λ e. omega arith, IsDigit-Lacks cs h.1)

  -- A row is read back from its line, for a count below 2 ^ 63, if neither the thread's name nor the
  -- name of a symbol holds a semicolon; spaces may occur.
  pub read_line-line_of :
      (key : Frames) (value : ℕ)
      → value < half_word
      → Lacks b';' (thread_name_or_id key)
      → AllLack b';' (stack_of key)
      → read_line (line_of texts (key, value)) ≡ some (thread_name_or_id key ∷ stack_of key, value)
  unfolding read_line line_of display_count
  read_line-line_of key value small thread stack =
      let (digits, number) = decimal_lem value (omega arith) in
      let shown : pop (write_frames texts (thread_name_or_id key ++ b';' ∷ []) (reverse key.frames))
          ≡ thread_name_or_id key ++ tail_of (stack_of key) =
        ap pop (write_frames-tail_of (reverse key.frames) (thread_name_or_id key))
        ∙ pop-snoc _ b';'
        ∙ ap (λ ss. thread_name_or_id key ++ tail_of (map (name texts) ss))
            (backwards-reverse key.frames) in
      let parted =
        rsplit_once-append b' ' (thread_name_or_id key ++ tail_of (stack_of key)) (decimal value)
          (IsDigit-Lacks (decimal value) digits) in
      rw
        (
          shown,
          lt→ltb value half_word small,
          read_line,
          parted,
          number,
          split-tail_of (thread_name_or_id key) (stack_of key) thread stack,
        )
        refl
