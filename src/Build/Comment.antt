-- ===== src/Build/Comment.antt =====
-- The comment in the first line of the generated file, as `generate_prost` of build.rs writes it and
-- finds it again.
use mathlib.Core.List.{append_assoc}
use strict_pprof_rs.Base.{
  ℕ, ◌+◌, ◌/◌, ◌%◌, ◌≤◌, ◌≡◌, ◌≢◌, ◌∙◌, refl, ap, Bool, true, Option, none, some, List, [], ◌∷◌,
  ◌++◌, arith, ltb, leb, ◌==◌, ◌&&◌, ◌||◌, not, if◌then◌else◌, Bool-cases, inl, inr,
}
use strict_pprof_rs.Base.Decimal.{All}
use strict_pprof_rs.Base.Texts.{Text}

abbrev hex_digit : ℕ → ℕ
hex_digit d = if ltb d 10 then 48 + d else 87 + d

-- A byte under `{:x}`, which writes no leading zero.
unfoldable pub hex_byte : ℕ → Text
hex_byte b = if ltb b 16 then hex_digit b ∷ [] else hex_digit (b / 16) ∷ hex_digit (b % 16) ∷ []

unfoldable pub hex : List ℕ → Text
unfolding hex_byte
hex [] = []
hex (b ∷ bs) = hex_byte b ++ hex bs

-- "  proto/profile.prot", without the last letter.
abbrev path_text : Text
path_text =
    b' ' ∷ b' ' ∷ b'p' ∷ b'r' ∷ b'o' ∷ b't' ∷ b'o' ∷ b'/' ∷ b'p' ∷ b'r' ∷ b'o' ∷ b'f' ∷ b'i' ∷ b'l'
    ∷ b'e' ∷ b'.' ∷ b'p' ∷ b'r' ∷ b'o' ∷ b't' ∷ []

-- `hash_comment`, which begins with "// " and ends in "o".
unfoldable pub hash_comment : List ℕ → Text
unfolding hex
hash_comment digest = b'/' ∷ b'/' ∷ b' ' ∷ ((hex digest ++ path_text) ++ b'o' ∷ [])

-- `char::is_whitespace`
unfoldable pub is_whitespace : ℕ → Bool
is_whitespace c =
    (leb 9 c && leb c 13)
    || (c == 32)
    || (c == 133)
    || (c == 160)
    || (c == 5760)
    || (leb 8192 c && leb c 8202)
    || (c == 8232)
    || (c == 8233)
    || (c == 8239)
    || (c == 8287)
    || (c == 12288)

unfoldable pub trim_start : Text → Text
trim_start [] = []
trim_start (c ∷ cs) = if is_whitespace c then trim_start cs else c ∷ cs

abbrev onto_trimmed : ℕ → Text → Text
onto_trimmed c [] = if is_whitespace c then [] else c ∷ []
onto_trimmed c (x ∷ xs) = c ∷ x ∷ xs

unfoldable pub trim_end : Text → Text
trim_end [] = []
trim_end (c ∷ cs) = onto_trimmed c (trim_end cs)

-- `read_line`: up to the first line feed, which is included.
unfoldable pub read_line : Text → Text
read_line [] = []
read_line (c ∷ cs) = let rest = read_line cs in if c == 10 then 10 ∷ [] else c ∷ rest

-- `first_line`, which is empty if the file cannot be read.
abbrev pub first_line : Option Text → Text
first_line none = []
first_line (some file) = read_line file

-- No line feed is in the text.
abbrev OneLine : Text → Type 0
OneLine = All (λ c. c ≢ 10)

OneLine-append : (xs ys : Text) → OneLine xs → OneLine ys → OneLine (xs ++ ys)
OneLine-append [] ys h k = k
OneLine-append (x ∷ xs) ys (own, h) k = (own, OneLine-append xs ys h k)

hex_digit-printed : (d : ℕ) → 48 ≤ hex_digit d
hex_digit-printed d = ground arith

hex_byte-OneLine : (b : ℕ) → OneLine (hex_byte b)
unfolding hex_byte
hex_byte-OneLine b = elim (Bool-cases (ltb b 16)) [
  | inl low ↦ rw low ((λ e. omega (arith, hex_digit-printed b, e)), tt)
  | inr high ↦ rw high (
    (λ e. omega (arith, hex_digit-printed (b / 16), e)),
    ((λ e. omega (arith, hex_digit-printed (b % 16), e)), tt),
  )
]

hex-OneLine : (bs : List ℕ) → OneLine (hex bs)
unfolding hex
hex-OneLine [] = tt
hex-OneLine (b ∷ bs) = OneLine-append (hex_byte b) (hex bs) (hex_byte-OneLine b) (hex-OneLine bs)

read_line-OneLine : (xs rest : Text) → OneLine xs → read_line (xs ++ 10 ∷ rest) ≡ xs ++ 10 ∷ []
unfolding read_line
read_line-OneLine [] rest h = refl
read_line-OneLine (x ∷ xs) rest (own, h) = ground (arith, own, read_line-OneLine xs rest h)

trim_end-kept : (xs : Text) → trim_end (xs ++ b'o' ∷ 10 ∷ []) ≡ xs ++ b'o' ∷ []
unfolding trim_end is_whitespace
trim_end-kept [] = refl
trim_end-kept (x ∷ []) = refl
trim_end-kept (x ∷ y ∷ xs) = rw (trim_end-kept (y ∷ xs)) refl

abbrev lacks_feed : Text → Bool
lacks_feed [] = true
lacks_feed (c ∷ cs) = not (c == 10) && lacks_feed cs

lacks_feed-OneLine : (t : Text) → lacks_feed t ≡ true → OneLine t
lacks_feed-OneLine [] h = tt
lacks_feed-OneLine (c ∷ cs) h = ground (arith, h, lacks_feed-OneLine cs)

hash_comment-OneLine : (digest : List ℕ) → OneLine (hash_comment digest)
unfolding hash_comment
hash_comment-OneLine digest =
    OneLine-append (b'/' ∷ b'/' ∷ b' ' ∷ []) ((hex digest ++ path_text) ++ b'o' ∷ [])
      (lacks_feed-OneLine (b'/' ∷ b'/' ∷ b' ' ∷ []) refl)
      (OneLine-append (hex digest ++ path_text) (b'o' ∷ [])
        (OneLine-append (hex digest) path_text (hex-OneLine digest)
          (lacks_feed-OneLine path_text refl))
        (lacks_feed-OneLine (b'o' ∷ []) refl))

-- The first line of a file that begins with the comment is the comment.
pub trimmed :
    (digest : List ℕ) (rest : Text)
    → trim_end (trim_start (read_line (hash_comment digest ++ 10 ∷ rest))) ≡ hash_comment digest
unfolding hash_comment trim_start is_whitespace
trimmed digest rest =
    ap (λ t. trim_end (trim_start t))
      (read_line-OneLine (hash_comment digest) rest (hash_comment-OneLine digest))
    ∙ ap (λ t. trim_end (b'/' ∷ b'/' ∷ b' ' ∷ t))
        (append_assoc (hex digest ++ path_text) (b'o' ∷ []) (10 ∷ []))
    ∙ trim_end-kept (b'/' ∷ b'/' ∷ b' ' ∷ (hex digest ++ path_text))

-- The line that a run compares.
abbrev pub compared : Option Text → Text
compared generated = trim_end (trim_start (first_line generated))
