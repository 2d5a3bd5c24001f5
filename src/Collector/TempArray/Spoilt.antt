-- ===== src/Collector/TempArray/Spoilt.antt =====
-- A failed flush of `TempFdArray` cannot be made good: `flush_buffer` of src/collector.rs counts the
-- flush before it writes, so the file stays shorter than every later read asks for.
use strict_pprof_rs.Base.{
  ℕ, ◌<◌, ◌≡◌, refl, List, [], ◌∷◌, ok, err, Run, Returns, returns, ◌>>=◌, subst,
}
use strict_pprof_rs.Collector.TempArray.{
  IoError, TempFiles, Layout, TempFdArray, buffer_length, push, Fallible,
}
use strict_pprof_rs.Collector.TempArray.Iter.{try_iter}
use strict_pprof_rs.Collector.TempArray.Store.{Holds, IsSpoilt, Pushed}
use strict_pprof_rs.Collector.TempArray.Push.{push-Pushed, push-IsSpoilt}
use strict_pprof_rs.Collector.TempArray.Read.{try_iter-IsSpoilt}

-- Pushes each value in turn, and goes on after an error.
unfoldable pub push_all :
    (fs : TempFiles) {A : Type 0}
    → Layout fs.Byte A
    → ℕ
    → TempFdArray fs.File A
    → List A
    → Run (TempFdArray fs.File A)
push_all fs layout sample_size a [] = returns a
push_all fs layout sample_size a (e ∷ es) =
    push fs layout sample_size a e >>= λ (_, a'). push_all fs layout sample_size a' es

module _ (fs : TempFiles) {A : Type 0} (layout : Layout fs.Byte A) (sample_size : ℕ)
    (room : 0 < buffer_length sample_size) where
  -- The read fails, whatever the file system answers.
  abbrev pub IsUnreadable : TempFdArray fs.File A → Type 0
  IsUnreadable a = Returns (try_iter fs layout sample_size a) (λ r. (x : IoError) × (r ≡ err x))

  push_all-IsSpoilt :
      (es : List A) (a : TempFdArray fs.File A)
      → IsSpoilt fs layout sample_size a
      → Returns (push_all fs layout sample_size a es) (IsSpoilt fs layout sample_size)
  unfolding push_all
  push_all-IsSpoilt [] a h = (a, refl, h)
  push_all-IsSpoilt (e ∷ es) a h =
      let (r, run, s) = push-IsSpoilt fs layout sample_size room a e h in
      let (a', runs, t) = push_all-IsSpoilt es r.1 s in (a', rw (run, runs), t)

  error_spoils :
      (a : TempFdArray fs.File A) (flushed : List A) (e : A) (r : Fallible fs layout (Unit {0}))
      (x : IoError) (a' : TempFdArray fs.File A)
      → Pushed fs layout sample_size a flushed e r
      → r ≡ (err x, a')
      → IsSpoilt fs layout sample_size a'
  error_spoils a flushed e (ok _, b) x a' p same = absurd (cc)
  error_spoils a flushed e (err y, b) x a' p same =
      let there : b ≡ a' = cc in subst (IsSpoilt fs layout sample_size) there p

  -- Once a push onto a sound array, with a buffer of one entry or more, has given an error, no later read succeeds: not after any number
  -- of further pushes, and not when the file system has recovered.
  pub failed_push_is_final :
      (a a' : TempFdArray fs.File A) (flushed : List A) (e : A) (x : IoError) (later : List A)
      → Holds fs layout sample_size a flushed
      → push fs layout sample_size a e ≡ returns (err x, a')
      → Returns (push_all fs layout sample_size a' later) IsUnreadable
  failed_push_is_final a a' flushed e x later h failed =
      let (r, run, p) = push-Pushed fs layout sample_size room a e flushed h in
      let spoilt : IsSpoilt fs layout sample_size a' = error_spoils a flushed e r x a' p (cc) in
      let (b, runs, s) = push_all-IsSpoilt later a' spoilt in
      (b, runs, try_iter-IsSpoilt fs layout sample_size b s)
