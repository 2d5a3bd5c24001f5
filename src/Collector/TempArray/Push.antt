-- ===== src/Collector/TempArray/Push.antt =====
-- `TempFdArray::push` on every branch, before and after a failed flush.
use mathlib.Core.List.{append-nil}
use strict_pprof_rs.Base.{
  ℕ, ◌+◌, ◌*◌, ◌≤◌, ◌<◌, ◌≡◌, ◌∙◌, refl, sym, List, ◌++◌, arith, Result, ok, err, Run, Returns,
  returns, leb, length, take, Bool-cases, inl, inr, true, false, leb→le, length-append, length-take,
  take-length,
}
use strict_pprof_rs.Collector.TempArray.{
  IoError, TempFiles, Layout, TempFdArray, buffer_length, encode, flush_buffer, store, push,
  Fallible,
}
use strict_pprof_rs.Collector.TempArray.Store.{
  length-encode, Holds, IsSpoilt, Pushed, store-Pushed, store-IsSpoilt, flush-Holds, flush-IsSpoilt,
  WritesSucceed,
}

module _ (fs : TempFiles) {A : Type 0} (layout : Layout fs.Byte A) (sample_size : ℕ)
    (room : 0 < buffer_length sample_size) (a : TempFdArray fs.File A) (e : A) where
  -- The state after the flush that found `f'`.
  abbrev flushed_to : fs.File → TempFdArray fs.File A
  flushed_to f' = record { file = f'; buffer = a.buffer; buffer_index = 0; flush_n = a.flush_n + 1 }

  abbrev after_flush : Result IoError (Unit {0}) × fs.File → Run (Fallible fs layout (Unit {0}))
  after_flush (ok _, f') = store fs layout (flushed_to f') e
  after_flush (err x, f') = returns (err x, flushed_to f')

  push-full :
      (w : Result IoError (Unit {0}) × fs.File)
      → fs.write_all a.file (encode layout a.buffer) ≡ w
      → leb (buffer_length sample_size) a.buffer_index ≡ true
      → push fs layout sample_size a e ≡ after_flush w
  unfolding push flush_buffer
  push-full (ok _, f') written full = ground (arith, written, full)
  push-full (err x, f') written full = ground (arith, written, full)

  push-room :
      leb (buffer_length sample_size) a.buffer_index ≡ false
      → push fs layout sample_size a e ≡ store fs layout a e
  unfolding push
  push-room h = rw h

  -- The file has grown by `n` of the buffer's bytes.
  grown :
      (f' : fs.File) (n : ℕ)
      → n ≤ length (encode layout a.buffer)
      → fs.contents f' ≡ fs.contents a.file ++ take n (encode layout a.buffer)
      → length (fs.contents f') ≡ length (fs.contents a.file) + n
  grown f' n le grew = rw grew (
      omega (
        arith,
        length-append (fs.contents a.file) (take n (encode layout a.buffer)),
        length-take n (encode layout a.buffer),
      ))

  write_failed :
      (x : IoError) (f' : fs.File)
      → fs.write_all a.file (encode layout a.buffer) ≡ (err x, f')
      → ¬ WritesSucceed fs
  write_failed x f' written succeed = cc (succeed a.file (encode layout a.buffer))

  module _ (flushed : List A) (h : Holds fs layout sample_size a flushed) where
    -- As many bytes are in the file as the count of flushes says.
    stored : length (fs.contents a.file) ≡ buffer_length sample_size * a.flush_n * layout.size_of
    stored = rw h.on_disk (rw (length-encode layout flushed, h.counted))

    regroup :
        (r : Fallible fs layout (Unit {0})) (f' : fs.File)
        → Pushed fs layout sample_size (flushed_to f') (flushed ++ a.buffer) e r
        → a.buffer_index ≡ buffer_length sample_size
        → Pushed fs layout sample_size a flushed e r
    regroup (ok _, a') f' (later, holds, order) full =
        let whole : take a.buffer_index a.buffer ≡ a.buffer =
          rw (full ∙ sym h.width) (take-length a.buffer) in
        (later, holds, rw whole (rw append-nil at order))
    regroup (err x, a') f' spoilt full = spoilt

    full-Pushed :
        (w : Result IoError (Unit {0}) × fs.File)
        → fs.write_all a.file (encode layout a.buffer) ≡ w
        → a.buffer_index ≡ buffer_length sample_size
        → Returns (after_flush w) (Pushed fs layout sample_size a flushed e)
    full-Pushed (ok _, f') written full =
        let next = flush-Holds fs layout sample_size room a flushed f' h full written in
        let (r, run, p) =
          store-Pushed fs layout sample_size room (flushed_to f') (flushed ++ a.buffer) e next
            room in
        (r, run, regroup r f' p full)
    full-Pushed (err x, f') written full =
        let (n, lt, grew) = fs.write_all_err a.file f' (encode layout a.buffer) x written in
        let bytes = length-encode layout a.buffer in
        (
          (err x, flushed_to f'),
          refl,
          flush-IsSpoilt fs layout sample_size room a f' n (write_failed x f' written) h.width
              (grown f' n (omega arith) grew) (inr (stored, omega (arith, bytes))),
        )

    -- From a sound array, with a buffer of one entry or more, a push returns. One that succeeds appends its value to those that are held;
    -- one that fails leaves a file that is shorter than its count of flushes says.
    pub push-Pushed :
        Returns (push fs layout sample_size a e) (Pushed fs layout sample_size a flushed e)
    push-Pushed = elim (Bool-cases (leb (buffer_length sample_size) a.buffer_index)) [
      | inl full ↦ rw (push-full _ refl full) (
          full-Pushed (fs.write_all a.file (encode layout a.buffer)) refl
            (omega (arith, leb→le _ _ full, h.fits)))
      | inr free ↦
          rw (push-room free) (store-Pushed fs layout sample_size room a flushed e h (ground arith))
    ]

  module _ (h : IsSpoilt fs layout sample_size a) where
    full-IsSpoilt :
        (w : Result IoError (Unit {0}) × fs.File)
        → fs.write_all a.file (encode layout a.buffer) ≡ w
        → Returns (after_flush w) (λ r. IsSpoilt fs layout sample_size r.1)
    full-IsSpoilt (ok _, f') written =
        let bytes = length-encode layout a.buffer in
        let all : fs.contents f'
            ≡ fs.contents a.file
              ++ take (length (encode layout a.buffer)) (encode layout a.buffer) =
          rw (take-length (encode layout a.buffer))
            (fs.write_all_ok a.file f' (encode layout a.buffer) written) in
        store-IsSpoilt fs layout sample_size room (flushed_to f') e
          (flush-IsSpoilt fs layout sample_size room a f' (length (encode layout a.buffer)) h.failed
            h.width (grown f' _ (omega arith) all) (inl (h.short, omega (arith, bytes))))
          room
    full-IsSpoilt (err x, f') written =
        let (n, lt, grew) = fs.write_all_err a.file f' (encode layout a.buffer) x written in
        let bytes = length-encode layout a.buffer in
        (
          (err x, flushed_to f'),
          refl,
          flush-IsSpoilt fs layout sample_size room a f' n h.failed h.width
              (grown f' n (omega arith) grew) (inl (h.short, omega (arith, bytes))),
        )

    -- A spoilt array stays spoilt, whatever is pushed and whatever the file system answers.
    pub push-IsSpoilt :
        Returns (push fs layout sample_size a e) (λ r. IsSpoilt fs layout sample_size r.1)
    push-IsSpoilt = elim (Bool-cases (leb (buffer_length sample_size) a.buffer_index)) [
      | inl full ↦
          rw (push-full _ refl full)
            (full-IsSpoilt (fs.write_all a.file (encode layout a.buffer)) refl)
      | inr free ↦
          rw (push-room free) (store-IsSpoilt fs layout sample_size room a e h (ground arith))
    ]
