-- ===== src/Collector/TempArray/Iter.antt =====
-- `try_iter` and `TempFdArrayIterator` of src/collector.rs: the buffer first, and then the file,
-- whose bytes are read as values.
use native.Mathlib.Decide.{dec_lt}
use native.Mathlib.Numerals.{add-one}
use strict_pprof_rs.Base.{
  ℕ, zero, suc, ◌+◌, ◌-◌, ◌*◌, ◌/◌, ◌≤◌, ◌<◌, ◌≡◌, Option, none, some, List, [], ◌∷◌, ◌++◌, arith,
  Result, ok, err, Run, returns, panics, diverges, ◌>>=◌, ltb, if◌then◌else◌, length, get_elem?,
  take, drop, Bool-cases, inl, inr, ltb→lt, sym, ◌∙◌, get_elem?-append_left, get_elem?-append_right,
  length-append, drop-length, get_at, subst,
}
use strict_pprof_rs.Collector.Bucket.{slice}
use strict_pprof_rs.Collector.TempArray.{IoError, TempFiles, Layout, TempFdArray, buffer_length}

pub record TempFdArrayIterator (Byte A : Type 0) : Type 0 where
  pub buffer : List A
  pub file_vec : List Byte
  pub index : ℕ

-- `try_iter`
unfoldable pub try_iter :
    (fs : TempFiles) {A : Type 0}
    → Layout fs.Byte A
    → ℕ
    → TempFdArray fs.File A
    → Run (Result IoError (TempFdArrayIterator fs.Byte A))
try_iter fs layout sample_size a =
    let size = buffer_length sample_size * a.flush_n * layout.size_of in
    elim (fs.reopen a.file) [
      | err e ↦ returns (err e)
      | ok file ↦ elim (fs.read_exact file size) [
        | err e ↦ returns (err e)
        | ok (file_vec, file') ↦ elim (fs.seek_end file') [
          | err e ↦ returns (err e)
          | ok _ ↦ slice a.buffer a.buffer_index >>= λ buffer.
              returns (ok (record { buffer = buffer; file_vec = file_vec; index = 0 }))
        ]
      ]
    ]

module _ {Byte A : Type 0} (layout : Layout Byte A) where
  -- The bytes as `count` values, as `from_raw_parts` reads them.
  unfoldable pub decode : ℕ → List Byte → List A
  decode zero bytes = []
  decode (suc count) bytes =
      layout.from_bytes (take layout.size_of bytes) ∷ decode count (drop layout.size_of bytes)

  -- `Iterator::next`
  unfoldable pub next : TempFdArrayIterator Byte A → Run (Option A × TempFdArrayIterator Byte A)
  next it =
      if ltb it.index (length it.buffer)
      then elim (get_elem? it.buffer it.index) [
        | none ↦ panics
        | some a ↦ returns (some a, record it { index = it.index + 1 })
      ]
      else let ts = decode (length it.file_vec / layout.size_of) it.file_vec in
        if ltb (it.index - length it.buffer) (length ts)
        then elim (get_elem? ts (it.index - length it.buffer)) [
          | none ↦ panics
          | some a ↦ returns (some a, record it { index = it.index + 1 })
        ]
        else returns (none, it)

  -- What a caller that loops over the iterator sees.
  unfoldable pub drain : ℕ → TempFdArrayIterator Byte A → Run (List A)
  drain zero it = diverges
  drain (suc fuel) it = next it >>= λ (o, it'). elim o [
    | none ↦ returns []
    | some e ↦ drain fuel it' >>= λ es. returns (e ∷ es)
  ]

  -- The values that the iterator runs over.
  abbrev pub items : TempFdArrayIterator Byte A → List A
  items it = it.buffer ++ decode (length it.file_vec / layout.size_of) it.file_vec

  next-some :
      (it : TempFdArrayIterator Byte A) (a : A)
      → get_elem? (items it) it.index ≡ some a
      → it.index < length (items it)
      → next it ≡ returns (some a, record it { index = it.index + 1 })
  unfolding next
  next-some it a found h =
      let ts = decode (length it.file_vec / layout.size_of) it.file_vec in
      elim (Bool-cases (ltb it.index (length it.buffer))) [
        | inl inside ↦
            let found' =
              (sym (get_elem?-append_left it.buffer ts it.index (ltb→lt _ _ inside))) ∙ found in
            ground (arith, inside, found')
        | inr outside ↦
            let j : ℕ = it.index - length it.buffer in
            let found' =
              sym (get_elem?-append_right it.buffer ts it.index j (ground arith)) ∙ found in
            let within : j < length ts = ground (arith, length-append it.buffer ts) in
            ground (arith, outside, within, found')
      ]

  next-none :
      (it : TempFdArrayIterator Byte A)
      → length (items it) ≤ it.index
      → next it ≡ returns (none, it)
  unfolding next
  next-none it h =
      ground
        (arith, length-append it.buffer (decode (length it.file_vec / layout.size_of) it.file_vec))

  drain_lem :
      (it : TempFdArrayIterator Byte A) (n fuel : ℕ)
      → length (items it) ≤ it.index + n
      → n < fuel
      → drain fuel it ≡ returns (drop it.index (items it))
  unfolding drain
  drain_lem it n zero h f = absurd (omega arith)
  drain_lem it zero (suc fuel) h f =
      let past : length (items it) ≤ it.index = omega arith in
      rw (next-none it past, drop-length (items it) it.index past)
  drain_lem it (suc n) (suc fuel) h f = elim (dec_lt it.index (length (items it))) [
    | yes lt ↦
        let (a, found, split) = get_at (items it) it.index lt in
        let rest =
          drain_lem (record it { index = it.index + 1 }) n fuel (omega arith) (omega arith) in
        rw (next-some it a found lt, rest, split, add-one)
    | no ge ↦
        let past : length (items it) ≤ it.index = omega arith in
        rw (next-none it past, drop-length (items it) it.index past)
  ]

  -- With fuel for one round more than there are values, a loop over the iterator ends, and has seen
  -- the buffered values and then those of the file.
  pub drain-items :
      (it : TempFdArrayIterator Byte A) (fuel : ℕ)
      → it.index ≡ 0
      → length (items it) < fuel
      → drain fuel it ≡ returns (items it)
  drain-items it fuel start f =
      subst (λ n. drain fuel it ≡ returns (drop n (items it))) start
        (drain_lem it (length (items it)) fuel (omega arith) f)
