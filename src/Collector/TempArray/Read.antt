-- ===== src/Collector/TempArray/Read.antt =====
-- `TempFdArray::try_iter` after a sequence of pushes: what it yields, and when it must fail.
use native.Mathlib.Nat.{mul-div_cancel}
use strict_pprof_rs.Base.{
  ℕ, ◌*◌, ◌/◌, ◌<◌, ◌≡◌, ◌≢◌, ◌∙◌, refl, ap, subst, List, ◌++◌, arith, Result, ok, err, Returns,
  returns, leb_of_le, length, take, length-take, take-length,
}
use strict_pprof_rs.Collector.Bucket.{slice}
use strict_pprof_rs.Collector.TempArray.{
  IoError, TempFiles, Layout, TempFdArray, buffer_length, encode,
}
use strict_pprof_rs.Collector.TempArray.Iter.{
  TempFdArrayIterator, try_iter, decode, drain, items, drain-items,
}
use strict_pprof_rs.Collector.TempArray.Store.{length-encode, decode-encode, Holds, IsSpoilt}

module _ (fs : TempFiles) {A : Type 0} (layout : Layout fs.Byte A) (sample_size : ℕ)
    (a : TempFdArray fs.File A) where
  abbrev file_size : ℕ
  file_size = buffer_length sample_size * a.flush_n * layout.size_of

  -- What the file system answers to the three calls of `try_iter`, in turn.
  pub data Answers : Type 0 where
    not_reopened : (e : IoError) → fs.reopen a.file ≡ err e → Answers
    not_read :
        (h : fs.Handle) (e : IoError)
        → fs.reopen a.file ≡ ok h
        → fs.read_exact h file_size ≡ err e
        → Answers
    not_sought :
        (h h' : fs.Handle) (bytes : List fs.Byte) (e : IoError)
        → fs.reopen a.file ≡ ok h
        → fs.read_exact h file_size ≡ ok (bytes, h')
        → fs.seek_end h' ≡ err e
        → Answers
    all_answered :
        (h h' : fs.Handle) (bytes : List fs.Byte) (n : ℕ)
        → fs.reopen a.file ≡ ok h
        → fs.read_exact h file_size ≡ ok (bytes, h')
        → fs.seek_end h' ≡ ok n
        → Answers

  seek_answer :
      (h h' : fs.Handle) (bytes : List fs.Byte)
      → fs.reopen a.file ≡ ok h
      → fs.read_exact h file_size ≡ ok (bytes, h')
      → (r : Result IoError ℕ) → fs.seek_end h' ≡ r
      → Answers
  seek_answer h h' bytes o x (ok n) s = all_answered h h' bytes n o x s
  seek_answer h h' bytes o x (err e) s = not_sought h h' bytes e o x s

  read_answer :
      (h : fs.Handle)
      → fs.reopen a.file ≡ ok h
      → (r : Result IoError (List fs.Byte × fs.Handle)) → fs.read_exact h file_size ≡ r
      → Answers
  read_answer h o (ok (bytes, h')) x = seek_answer h h' bytes o x (fs.seek_end h') refl
  read_answer h o (err e) x = not_read h e o x

  open_answer : (r : Result IoError fs.Handle) → fs.reopen a.file ≡ r → Answers
  open_answer (ok h) o = read_answer h o (fs.read_exact h file_size) refl
  open_answer (err e) o = not_reopened e o

  pub answers : Answers
  answers = open_answer (fs.reopen a.file) refl

  -- What `try_iter` gives is an error of one of the three calls, or an iterator over `values`.
  abbrev pub Yields : List A → Result IoError (TempFdArrayIterator fs.Byte A) → Type 0
  Yields values (err e) =
      (h h' : fs.Handle) (bytes : List fs.Byte) (n : ℕ)
      → fs.reopen a.file ≡ ok h
      → fs.read_exact h file_size ≡ ok (bytes, h')
      → fs.seek_end h' ≢ ok n
  Yields values (ok it) =
      (items layout it ≡ values)
      × ((fuel : ℕ) → length values < fuel → drain layout fuel it ≡ returns values)

  module _ (flushed : List A) (sound : Holds fs layout sample_size a flushed) where
    -- The bytes that the loop reads are all the values that were flushed.
    read-flushed :
        (h h' : fs.Handle) (bytes : List fs.Byte)
        → fs.reopen a.file ≡ ok h
        → fs.read_exact h file_size ≡ ok (bytes, h')
        → decode layout (length bytes / layout.size_of) bytes ≡ flushed
    read-flushed h h' bytes o x =
        let (got, size) = fs.read_exact_ok a.file h h' file_size bytes o x in
        let total : file_size ≡ length (encode layout flushed) =
          rw (length-encode layout flushed, sound.counted) in
        let all : bytes ≡ encode layout flushed =
          got ∙ rw (total, sound.on_disk) (take-length (encode layout flushed)) in
        let count : length flushed * layout.size_of / layout.size_of ≡ length flushed =
          mul-div_cancel (length flushed) layout.size_of_pos in
        rw (all, length-encode layout flushed, count) (decode-encode layout flushed)

    -- From a sound array, `try_iter` gives an error only if one of its three calls of the file system
    -- does. Otherwise a loop over its iterator sees the values in the buffer and then those that were
    -- flushed, each group in the order of the pushes, and then ends.
    pub try_iter-Yields :
        Returns
          (try_iter fs layout sample_size a)
          (Yields (take a.buffer_index a.buffer ++ flushed))
    unfolding try_iter slice
    try_iter-Yields = elim answers [
      | not_reopened e o ↦ (err e, ground (arith, o), λ h h' bytes n p q. cc)
      | not_read h e o x ↦
          (err e, ground (arith, o, x), λ h₁ h' bytes n p q s. ground (arith, o, x, p, q))
      | not_sought h h' bytes e o x s ↦
          (err e, ground (arith, o, x, s), λ h₁ h₂ bytes₁ n p q t. ground (arith, o, x, s, p, q, t))
      | all_answered h h' bytes n o x s ↦
          let it : TempFdArrayIterator fs.Byte A = record {
            buffer = take a.buffer_index a.buffer;
            file_vec = bytes;
            index = 0;
          } in
          let read : items layout it ≡ take a.buffer_index a.buffer ++ flushed =
            ap (λ xs. take a.buffer_index a.buffer ++ xs) (read-flushed h h' bytes o x) in
          (
            ok it,
            ground (
              arith,
              o,
              x,
              s,
              leb_of_le a.buffer_index (length a.buffer) (rw sound.width sound.fits),
            ),
            (
              read,
              λ fuel f.
                  subst (λ xs. drain layout fuel it ≡ returns xs) read
                    (drain-items layout it fuel refl (rw read f)),
            ),
          )
    ]

  -- A spoilt array can never be read again: `try_iter` fails, whatever the file system answers.
  pub try_iter-IsSpoilt :
      IsSpoilt fs layout sample_size a
      → Returns (try_iter fs layout sample_size a) (λ r. (e : IoError) × (r ≡ err e))
  unfolding try_iter
  try_iter-IsSpoilt spoilt = elim answers [
    | not_reopened e o ↦ (err e, ground (arith, o), (e, refl))
    | not_read h e o x ↦ (err e, ground (arith, o, x), (e, refl))
    | not_sought h h' bytes e o x s ↦ (err e, ground (arith, o, x, s), (e, refl))
    | all_answered h h' bytes n o x s ↦
        let (got, size) = fs.read_exact_ok a.file h h' file_size bytes o x in
        absurd (
          omega (
            arith,
            spoilt.short,
            ap (λ bs. length bs) got,
            size,
            length-take file_size (fs.contents a.file),
          ))
  ]
