-- ===== src/Build/Tests.antt =====
-- A run when there is no generated file yet, with a digest of one byte.
use strict_pprof_rs.Base.{ℕ, ◌≡◌, refl, Option, none, some, List, [], ◌∷◌, Result, ok, err}
use strict_pprof_rs.Base.Texts.{Text}
use strict_pprof_rs.Build.{Files, FileLaws}
use strict_pprof_rs.Build.Comment.{hex, hex_byte}

abbrev one_byte : Text → List ℕ
one_byte _ = 171 ∷ []

abbrev proto : Text
proto = b'm' ∷ []

-- The state is the generated file. The generator writes one letter, and writing fails where the file
-- does not exist.
abbrev text_of : Option Text → Result ℕ Text
text_of none = err 2
text_of (some file) = ok file

abbrev overwrite : Text → Option Text → Result ℕ (Unit {0}) × Option Text
overwrite t none = (err 2, none)
overwrite t (some file) = (ok tt, some t)

abbrev one_file : Files ℕ (Option Text)
one_file = record {
  description = λ s. some proto;
  generated = λ s. s;
  compile_protos = λ s. (ok tt, some (b'x' ∷ []));
  read_to_string = text_of;
  write = overwrite;
}

overwrite-written : (t : Text) (s s' : Option Text) → overwrite t s ≡ (ok tt, s') → s' ≡ some t
overwrite-written t none s' h = absurd (cc)
overwrite-written t (some file) s' h = cc

abbrev laws : FileLaws one_file
laws = record { compile_keeps = λ s. refl; write_keeps = λ t s. refl; written = overwrite-written }

-- Two digests with one text.
shifted : hex (1 ∷ 35 ∷ []) ≡ hex (18 ∷ 3 ∷ [])
unfolding hex hex_byte
shifted = refl
