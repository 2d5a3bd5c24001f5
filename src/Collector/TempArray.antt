-- ===== src/Collector/TempArray.antt =====
-- `TempFdArray` of src/collector.rs: a buffer that spills to a temporary file when it is full.
-- The file system and the layout of values in memory are parameters.
pub mod Store
pub mod Iter
pub mod Read
pub mod Push
pub mod Spoilt
use strict_pprof_rs.Base.{
  ℕ, zero, suc, ◌+◌, ◌*◌, ◌/◌, ◌^◌, ◌<◌, ◌≡◌, Option, none, some, List, [], ◌∷◌, ◌++◌, Result, ok,
  err, Run, returns, panics, ◌>>=◌, leb, ltb, if◌then◌else◌, length, set, take, drop, replicate,
}

-- What an I/O error carries: its code.
abbrev pub IoError : Type 0
IoError = ℕ

-- `NamedTempFile`, its `write_all`, and the second handle that `reopen` gives. `contents` is what
-- the file holds, which the code never asks for. Bytes are the cells of memory and of files.
pub record TempFiles : Type 1 where
  pub Byte : Type 0
  pub File : Type 0
  pub Handle : Type 0
  pub contents : File → List Byte
  pub write_all : File → List Byte → Result IoError (Unit {0}) × File
  pub reopen : File → Result IoError Handle
  pub read_exact : Handle → ℕ → Result IoError (List Byte × Handle)
  pub seek_end : Handle → Result IoError ℕ
  -- A write that succeeds appends all of its bytes.
  pub write_all_ok :
      (f f' : File) (bytes : List Byte)
      → write_all f bytes ≡ (ok tt, f')
      → contents f' ≡ contents f ++ bytes
  -- A write that fails has appended fewer.
  pub write_all_err :
      (f f' : File) (bytes : List Byte) (e : IoError)
      → write_all f bytes ≡ (err e, f')
      → (n : ℕ) × (n < length bytes) × (contents f' ≡ contents f ++ take n bytes)
  -- A read through a new handle starts at the first byte, and fills what was asked for.
  pub read_exact_ok :
      (f : File) (h h' : Handle) (n : ℕ) (bytes : List Byte)
      → reopen f ≡ ok h
      → read_exact h n ≡ ok (bytes, h')
      → (bytes ≡ take n (contents f)) × (length bytes ≡ n)

-- How a value lies in memory, as `from_raw_parts` sees it.
pub record Layout (Byte A : Type 0) : Type 0 where
  pub size_of : ℕ
  pub to_bytes : A → List Byte
  pub from_bytes : List Byte → A
  pub size_of_pos : 0 < size_of
  pub length-to_bytes : (a : A) → length (to_bytes a) ≡ size_of
  pub from_bytes-to_bytes : (a : A) → from_bytes (to_bytes a) ≡ a

-- `BUFFER_LENGTH`, for a given size of `Entry<UnresolvedFrames>`.
abbrev pub buffer_length : ℕ → ℕ
buffer_length sample_size = 2 ^ 18 / sample_size

pub record TempFdArray (File A : Type 0) : Type 0 where
  pub file : File
  pub buffer : List A
  pub buffer_index : ℕ
  pub flush_n : ℕ

-- The bytes of a slice of values.
abbrev pub encode : {Byte A : Type 0} → Layout Byte A → List A → List Byte
encode layout [] = []
encode layout (a ∷ xs) = layout.to_bytes a ++ encode layout xs

-- `TempFdArray::new`, where `opened` is what `NamedTempFile::new` gave, and `d` is `T::default()`.
unfoldable pub new :
    {File A : Type 0} → ℕ → A → Result IoError File → Result IoError (TempFdArray File A)
new sample_size d (err e) = err e
new sample_size d (ok f) = ok (record {
  file = f;
  buffer = replicate (buffer_length sample_size) d;
  buffer_index = 0;
  flush_n = 0;
})

module _ (fs : TempFiles) {A : Type 0} (layout : Layout fs.Byte A) where
  abbrev pub Fallible : Type 0 → Type 0
  Fallible B = Result IoError B × TempFdArray fs.File A

  -- `flush_buffer`. The index and the count are set before the write, whatever comes of it.
  unfoldable pub flush_buffer : TempFdArray fs.File A → Fallible (Unit {0})
  flush_buffer a =
      let (result, file') = fs.write_all a.file (encode layout a.buffer) in
      (
        result,
        record { file = file'; buffer = a.buffer; buffer_index = 0; flush_n = a.flush_n + 1 },
      )

  -- `self.buffer[self.buffer_index] = entry; self.buffer_index += 1`
  unfoldable pub store : TempFdArray fs.File A → A → Run (Fallible (Unit {0}))
  store a entry =
      if ltb a.buffer_index (length a.buffer)
      then returns (
        ok tt,
        record a { buffer = set a.buffer a.buffer_index entry; buffer_index = a.buffer_index + 1 },
      )
      else panics

  -- `push`
  unfoldable pub push : ℕ → TempFdArray fs.File A → A → Run (Fallible (Unit {0}))
  push sample_size a entry =
      if leb (buffer_length sample_size) a.buffer_index
      then (let (result, a') = flush_buffer a in
          elim result [ err e ↦ returns (err e, a') | ok _ ↦ store a' entry ])
      else store a entry
