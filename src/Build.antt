-- ===== src/Build.antt =====
-- `generate_prost` of src/build.rs: the messages of a profile are generated again when the digest of
-- their description has changed, which stands in the first line of the generated file. The digest, the
-- generator and the reading and writing of files are parameters, and they may fail.
pub mod Comment
mod Tests
use mathlib.Core.List.{append_assoc}
use strict_pprof_rs.Base.{
  ℕ, zero, suc, ◌+◌, ◌/◌, ◌%◌, ◌≤◌, ◌<◌, ◌≡◌, ◌≢◌, subst, Bool, true, false, Option, none, some,
  List, [], ◌∷◌, ◌++◌, arith, Run, returns, panics, diverges, Result, ok, err, ◌⊎◌, ltb, leb, ◌==◌,
  ◌&&◌, ◌||◌, not, if◌then◌else◌,
}
use strict_pprof_rs.Base.Texts.{Text, text_equal}
use strict_pprof_rs.Build.Comment.{
  hash_comment, trim_start, trim_end, read_line, first_line, compared,
}

-- `io::copy` from the description; the generated file as `read_line` sees it; prost-build's
-- `compile_protos`; `fs::read_to_string` and `fs::write` on the generated file.
pub record Files (E S : Type 0) : Type 0 where
  pub description : S → Option Text
  pub generated : S → Option Text
  pub compile_protos : S → Result E (Unit {0}) × S
  pub read_to_string : S → Result E Text
  pub write : Text → S → Result E (Unit {0}) × S

-- What the generator and `fs::write` document: the description stays, and what is written is then there.
pub record FileLaws {E S : Type 0} (files : Files E S) : Type 0 where
  pub compile_keeps : (s : S) → files.description (files.compile_protos s).1 ≡ files.description s
  pub write_keeps : (t : Text) (s : S) → files.description (files.write t s).1 ≡ files.description s
  pub written : (t : Text) (s s' : S) → files.write t s ≡ (ok tt, s') → files.generated s' ≡ some t

module _ {E S : Type 0} (files : Files E S) (sha256 : Text → List ℕ) where
  open files use {description, generated, compile_protos, read_to_string, write}

  -- `unwrap` of the last call.
  abbrev after_write : Result E (Unit {0}) × S → Run (Unit {0}) × S
  after_write (err e, s) = (panics, s)
  after_write (ok _, s) = (returns tt, s)

  abbrev after_read : Text → Result E Text → S → Run (Unit {0}) × S
  after_read comment (err e) s = (panics, s)
  after_read comment (ok messages) s = after_write (write (comment ++ (10 ∷ 10 ∷ messages)) s)

  abbrev after_compile : Text → Result E (Unit {0}) × S → Run (Unit {0}) × S
  after_compile comment (err e, s) = (panics, s)
  after_compile comment (ok _, s) = after_read comment (read_to_string s) s

  -- What follows the digest.
  abbrev with_description : Option Text → S → Run (Unit {0}) × S
  with_description none s = (panics, s)
  with_description (some proto) s =
      if text_equal (trim_end (trim_start (first_line (generated s)))) (hash_comment (sha256 proto))
      then (returns tt, s)
      else after_compile (hash_comment (sha256 proto)) (compile_protos s)

  -- How the run ends, and the files after it.
  unfoldable pub generate_prost : S → Run (Unit {0}) × S
  unfolding hash_comment trim_start trim_end read_line
  generate_prost s = with_description (description s) s

  -- The first line of the generated file is the comment for this description.
  abbrev pub IsCurrent : Text → S → Type 0
  IsCurrent proto s = compared (generated s) ≡ hash_comment (sha256 proto)

  -- The messages have been generated and read.
  abbrev pub Generates : S → Text → S → Type 0
  Generates s messages t = (compile_protos s ≡ (ok tt, t)) × (read_to_string t ≡ ok messages)

  -- One of the three calls has failed, and it was the last.
  abbrev pub Breaks : Text → S → S → Type 0
  Breaks proto s s' =
      ((e : E) × (compile_protos s ≡ (err e, s')))
      ⊎ (((e : E) × (compile_protos s ≡ (ok tt, s')) × (read_to_string s' ≡ err e))
          ⊎ (messages : Text) × (t : S) × Generates s messages t
            × (e : E) × (write (hash_comment (sha256 proto) ++ (10 ∷ 10 ∷ messages)) t
                ≡ (err e, s')))

  -- A run that returns has read the description. It has left a current file alone, or it has written
  -- the comment and the messages. A run that panics could not read the description, or a call failed
  -- that a file which is not current makes necessary.
  abbrev pub Outcome : S → Run (Unit {0}) × S → Type 0
  Outcome s (returns _, s') =
      (proto : Text) × (description s ≡ some proto)
      × (IsCurrent proto s × (s' ≡ s)
          ⊎ (¬ IsCurrent proto s)
            × (messages : Text) × (t : S) × Generates s messages t
            × (write (hash_comment (sha256 proto) ++ (10 ∷ 10 ∷ messages)) t ≡ (ok tt, s')))
      × IsCurrent proto s'
      × (generate_prost s' ≡ (returns tt, s'))
  Outcome s (panics, s') =
      (description s ≡ none) × (s' ≡ s)
      ⊎ (proto : Text) × (description s ≡ some proto) × (¬ IsCurrent proto s) × Breaks proto s s'
  Outcome s (diverges, s') = ⊥
