-- ===== src/Frames/Symbol.antt =====
-- `Symbol` and `Frames` of src/frames.rs: resolved samples. Demangling and the lossy decoding of
-- UTF-8 are parameters; texts are lists of codes.
use strict_pprof_rs.Base.{ℕ, Bool, true, false, Option, none, some, List, [], ◌∷◌, ◌==◌, ◌&&◌}
use strict_pprof_rs.Base.Decimal.{decimal}
use strict_pprof_rs.Frames.{RawSymbol}

pub record Symbol : Type 0 where
  pub name : Option (List ℕ)
  pub addr : Option ℕ
  pub lineno : Option ℕ
  pub filename : Option (List ℕ)

-- `From<&T> for Symbol`
unfoldable pub from : RawSymbol → Symbol
from raw = record { name = raw.name; addr = raw.addr; lineno = raw.lineno; filename = raw.filename }

-- "Unknown"
abbrev pub unknown : List ℕ
unknown = b'U' ∷ b'n' ∷ b'k' ∷ b'n' ∷ b'o' ∷ b'w' ∷ b'n' ∷ []

abbrev unwrap_or {ℓ} : {A : Type ℓ} → Option A → A → A
unwrap_or none d = d
unwrap_or (some a) d = a

unfoldable pub raw_name : Symbol → List ℕ
raw_name s = unwrap_or s.name unknown

-- The texts that other crates and the standard library make of bytes.
pub record Texts : Type 0 where
  pub from_utf8_lossy : List ℕ → List ℕ
  pub demangle : List ℕ → List ℕ

module _ (texts : Texts) where
  -- `Symbol::name`
  unfoldable pub name : Symbol → List ℕ
  unfolding raw_name
  name s = texts.demangle (texts.from_utf8_lossy (raw_name s))

  unfoldable pub sys_name : Symbol → List ℕ
  unfolding raw_name
  sys_name s = texts.from_utf8_lossy (raw_name s)

  unfoldable pub filename : Symbol → List ℕ
  filename s = elim s.filename [ none ↦ unknown | some path ↦ texts.from_utf8_lossy path ]

unfoldable pub lineno : Symbol → ℕ
lineno s = unwrap_or s.lineno 0

-- Two lists are equal when they agree element by element, as `PartialEq` on slices and vectors.
unfoldable pub list_equal {ℓ} : {A : Type ℓ} → (A → A → Bool) → List A → List A → Bool
list_equal eq [] [] = true
list_equal eq [] (y ∷ ys) = false
list_equal eq (x ∷ xs) [] = false
list_equal eq (x ∷ xs) (y ∷ ys) = eq x y && list_equal eq xs ys

-- `PartialEq for Symbol`: by the raw name alone.
unfoldable pub symbol_equal : Symbol → Symbol → Bool
unfolding list_equal raw_name
symbol_equal a b = list_equal ◌==◌ (raw_name a) (raw_name b)

pub record Frames : Type 0 where
  pub frames : List (List Symbol)
  pub thread_name : List ℕ
  pub thread_id : ℕ
  pub sample_timestamp : ℕ

-- The derived `PartialEq`, which compares every field, the time included.
unfoldable pub frames_equal : Frames → Frames → Bool
unfolding symbol_equal
frames_equal a b =
    list_equal (list_equal symbol_equal) a.frames b.frames
    && list_equal ◌==◌ a.thread_name b.thread_name
    && a.thread_id == b.thread_id
    && a.sample_timestamp == b.sample_timestamp

-- `thread_name_or_id`
unfoldable pub thread_name_or_id : Frames → List ℕ
thread_name_or_id f = elim f.thread_name [ [] ↦ decimal f.thread_id | _ ↦ f.thread_name ]

-- `Hash for Symbol`, with what the hasher makes of the raw name.
unfoldable pub symbol_hash : (List ℕ → ℕ) → Symbol → ℕ
unfolding raw_name
symbol_hash finish s = finish (raw_name s)
