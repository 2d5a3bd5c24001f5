-- ===== src/Collector/TempArray/Store.antt =====
-- `TempFdArray::push` and `try_iter` against the sequence of pushed values, over any file system
-- that does what `TempFiles` says.
use native.Mathlib.Numerals.{add-one}
use mathlib.Core.List.{append_assoc}
use strict_pprof_rs.Base.{
  ℕ, ◌+◌, ◌*◌, ◌≤◌, ◌<◌, ◌≡◌, ◌∙◌, refl, ap, sym, subst, List, [], ◌∷◌, ◌++◌, arith, ok, err,
  Returns, length, set, take, drop, ◌⊎◌, drop-append, lt→ltb, length-append, length-set,
  take-set_next, take-append,
}
use strict_pprof_rs.Collector.TempArray.{
  TempFiles, Layout, TempFdArray, buffer_length, encode, store, Fallible,
}
use strict_pprof_rs.Collector.TempArray.Iter.{decode}

module _ {Byte A : Type 0} (layout : Layout Byte A) where
  pub length-encode : (xs : List A) → length (encode layout xs) ≡ length xs * layout.size_of
  length-encode [] = omega arith
  length-encode (x ∷ xs) = grind (
    arith,
    length-append (layout.to_bytes x) (encode layout xs),
    layout.length-to_bytes x,
    length-encode xs,
  )

  encode-append : (xs ys : List A) → encode layout (xs ++ ys) ≡ encode layout xs ++ encode layout ys
  encode-append [] ys = refl
  encode-append (x ∷ xs) ys =
      rw (encode-append xs ys)
        (sym (append_assoc (layout.to_bytes x) (encode layout xs) (encode layout ys)))

  -- Values that were written as bytes are read back.
  pub decode-encode : (xs : List A) → decode layout (length xs) (encode layout xs) ≡ xs
  unfolding decode
  decode-encode [] = refl
  decode-encode (x ∷ xs) =
      let bytes : List Byte = layout.to_bytes x in
      let rest : List Byte = encode layout xs in
      let first =
        subst (λ n. take n (bytes ++ rest) ≡ bytes) (layout.length-to_bytes x)
          (take-append bytes rest) in
      let behind =
        subst (λ n. drop n (bytes ++ rest) ≡ rest) (layout.length-to_bytes x)
          (drop-append bytes rest) in
      rw (first, behind, layout.from_bytes-to_bytes x, decode-encode xs)

-- No write ever fails, as on a disk with room.
abbrev pub WritesSucceed : TempFiles → Type 0
WritesSucceed fs = (f : fs.File) (bytes : List fs.Byte) → (fs.write_all f bytes).0 ≡ ok tt

module _ (fs : TempFiles) {A : Type 0} (layout : Layout fs.Byte A) (sample_size : ℕ) where
  -- `flushed` is what the file holds; the buffer's first `buffer_index` values came after it.
  pub record Holds (a : TempFdArray fs.File A) (flushed : List A) : Type 0 where
    pub width : length a.buffer ≡ buffer_length sample_size
    pub fits : a.buffer_index ≤ buffer_length sample_size
    pub on_disk : fs.contents a.file ≡ encode layout flushed
    pub counted : length flushed ≡ buffer_length sample_size * a.flush_n

  -- All values, in the order in which they were pushed.
  abbrev pub pushed : TempFdArray fs.File A → List A → List A
  pushed a flushed = flushed ++ take a.buffer_index a.buffer

  -- The file is shorter than the count of flushes says, since some write has failed.
  pub record IsSpoilt (a : TempFdArray fs.File A) : Type 0 where
    pub failed : ¬ WritesSucceed fs
    pub short : length (fs.contents a.file) < buffer_length sample_size * a.flush_n * layout.size_of
    pub width : length a.buffer ≡ buffer_length sample_size
    pub fits : a.buffer_index ≤ buffer_length sample_size

  -- What a push of `e` has done, by how it ended.
  abbrev pub Pushed : TempFdArray fs.File A → List A → A → Fallible fs layout (Unit {0}) → Type 0
  Pushed a flushed e (ok _, a') =
      (later : List A) × Holds a' later × (pushed a' later ≡ pushed a flushed ++ e ∷ [])
  Pushed a flushed e (err _, a') = IsSpoilt a'

  module _ (room : 0 < buffer_length sample_size) where
    pub store-Pushed :
        (a : TempFdArray fs.File A) (flushed : List A) (e : A)
        → Holds a flushed
        → a.buffer_index < buffer_length sample_size
        → Returns (store fs layout a e) (Pushed a flushed e)
    unfolding store
    store-Pushed a flushed e h lt = (
      (
        ok tt,
        record a { buffer = set a.buffer a.buffer_index e; buffer_index = a.buffer_index + 1 },
      ),
      rw (lt→ltb a.buffer_index (length a.buffer) (rw h.width lt)),
      (
        flushed,
        record {
          width = length-set a.buffer a.buffer_index e ∙ h.width;
          fits = omega arith;
          on_disk = h.on_disk;
          counted = h.counted;
        },
        rw (add-one, take-set_next a.buffer_index a.buffer e (rw h.width lt))
            (sym (append_assoc flushed (take a.buffer_index a.buffer) (e ∷ []))),
      ),
    )

    pub store-IsSpoilt :
        (a : TempFdArray fs.File A) (e : A)
        → IsSpoilt a
        → a.buffer_index < buffer_length sample_size
        → Returns (store fs layout a e) (λ r. IsSpoilt r.1)
    unfolding store
    store-IsSpoilt a e h lt = (
      (
        ok tt,
        record a { buffer = set a.buffer a.buffer_index e; buffer_index = a.buffer_index + 1 },
      ),
      rw (lt→ltb a.buffer_index (length a.buffer) (rw h.width lt)),
      record {
        failed = h.failed;
        short = h.short;
        width = length-set a.buffer a.buffer_index e ∙ h.width;
        fits = omega arith;
      },
    )

    -- A flush of a full buffer that succeeds leaves an empty buffer, and all of it in the file.
    pub flush-Holds :
        (a : TempFdArray fs.File A) (flushed : List A) (f' : fs.File)
        → Holds a flushed
        → a.buffer_index ≡ buffer_length sample_size
        → fs.write_all a.file (encode layout a.buffer) ≡ (ok tt, f')
        → Holds
            (record { file = f'; buffer = a.buffer; buffer_index = 0; flush_n = a.flush_n + 1 })
            (flushed ++ a.buffer)
    flush-Holds a flushed f' h full e = record {
      width = h.width;
      fits = omega arith;
      on_disk =
          fs.write_all_ok a.file f' (encode layout a.buffer) e
          ∙ ap (λ bytes. bytes ++ encode layout a.buffer) h.on_disk
          ∙ sym (encode-append layout flushed a.buffer);
      counted = grind (arith, length-append flushed a.buffer, h.counted, h.width);
    }

    -- A write that adds no more bytes than it was given leaves a spoilt array spoilt, and one that
    -- fails spoils it.
    pub flush-IsSpoilt :
        (a : TempFdArray fs.File A) (f' : fs.File) (n : ℕ)
        → ¬ WritesSucceed fs
        → length a.buffer ≡ buffer_length sample_size
        → length (fs.contents f') ≡ length (fs.contents a.file) + n
        → (length (fs.contents a.file) < buffer_length sample_size * a.flush_n * layout.size_of)
            × (n ≤ length a.buffer * layout.size_of)
          ⊎ (length (fs.contents a.file) ≡ buffer_length sample_size * a.flush_n * layout.size_of)
            × (n < length a.buffer * layout.size_of)
        → IsSpoilt
            (record { file = f'; buffer = a.buffer; buffer_index = 0; flush_n = a.flush_n + 1 })
    flush-IsSpoilt a f' n failed w e why = record {
      failed = failed;
      short = grind (arith, why, e, w);
      width = w;
      fits = omega arith;
    }
