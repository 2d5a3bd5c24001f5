-- ===== src/Collector/Tests.antt =====
-- The collector on an in-memory file, with small numbers as keys; and the theorems at these inputs.
use strict_pprof_rs.Base.{
  ℕ, ◌^◌, ◌<◌, ◌≡◌, refl, true, List, [], ◌∷◌, ◌++◌, arith, Key, Result, ok, err, Returns, returns,
  ◌==◌, ==_iff, length-take, length, take, some, leb, if◌then◌else◌, get_or, ◌≤◌,
}
use strict_pprof_rs.Collector.Bucket.{Bucket, Entry, add}
use mathlib.Core.List.{append-nil}
use strict_pprof_rs.Collector.Bucket.Add.{Added as BucketAdded, add-Added}
use strict_pprof_rs.Collector.Counter
use strict_pprof_rs.Collector.Counter.{HashCounter, empty}
use strict_pprof_rs.Collector.Counter.Valid.{entries}
use strict_pprof_rs.Collector.Counter.Add.{Added, counter_add-Added, iter-entries, empty-IsValid}
use strict_pprof_rs.Collector.TempArray.{TempFdArray, push, flush_buffer}
use strict_pprof_rs.Collector.TempArray.Store.{Holds}
use strict_pprof_rs.Collector.TempArray.Spoilt.{push_all, IsUnreadable, failed_push_is_final}
use strict_pprof_rs.Collector.TempArray.{IoError, TempFiles, Layout}
use strict_pprof_rs.Collector.Combined.Exact.{collect, IsExact, collect-IsExact}

==-refl : (a : ℕ) → (a == a) ≡ true
==-refl a = ground arith

==-symm : (a b : ℕ) → (a == b) ≡ (b == a)
==-symm a b = ground arith

==-trans : (a b c : ℕ) → (a == b) ≡ true → (b == c) ≡ true → (a == c) ≡ true
==-trans a b c p q = ground arith

-- Numbers as keys, hashed by themselves.
instance abbrev number_key : Key ℕ
number_key = record {
  equal = ◌==◌;
  hash = λ k. k;
  equal_refl = ==-refl;
  equal_symm = ==-symm;
  equal_trans = ==-trans;
  hash-equal = λ a b. (==_iff a b).0;
}

abbrev append_bytes : List ℕ → List ℕ → Result IoError (Unit {0}) × List ℕ
append_bytes f bytes = (ok tt, f ++ bytes)

abbrev read_bytes : List ℕ → ℕ → Result IoError (List ℕ × List ℕ)
read_bytes h n = if leb n (length h) then ok (take n h, h) else err 0

append_bytes_ok : (f f' bytes : List ℕ) → append_bytes f bytes ≡ (ok tt, f') → f' ≡ f ++ bytes
append_bytes_ok f f' bytes e = cc

append_bytes_err :
    (f f' bytes : List ℕ) (x : IoError)
    → append_bytes f bytes ≡ (err x, f')
    → (n : ℕ) × (n < length bytes) × (f' ≡ f ++ take n bytes)
append_bytes_err f f' bytes x e = absurd (cc)

read_bytes_ok :
    (f h h' : List ℕ) (n : ℕ) (bytes : List ℕ)
    → ◌≡◌ {A = Result IoError (List ℕ)} (ok f) (ok h)
    → read_bytes h n ≡ ok (bytes, h')
    → (bytes ≡ take n f) × (length bytes ≡ n)
read_bytes_ok f h h' n bytes o r = ground (arith, length-take n h)

abbrev in_memory : TempFiles
in_memory = record {
  Byte = ℕ;
  File = List ℕ;
  Handle = List ℕ;
  contents = λ f. f;
  write_all = append_bytes;
  reopen = λ f. ok f;
  read_exact = read_bytes;
  seek_end = λ h. ok (length h);
  write_all_ok = append_bytes_ok;
  write_all_err = append_bytes_err;
  read_exact_ok = read_bytes_ok;
}

abbrev entry_of : List ℕ → Entry ℕ
entry_of bytes = record { item = get_or bytes 0 0; count = get_or bytes 1 0 }

abbrev entry_layout : Layout ℕ (Entry ℕ)
entry_layout = record {
  size_of = 2;
  to_bytes = λ e. e.item ∷ e.count ∷ [];
  from_bytes = entry_of;
  size_of_pos = omega arith;
  length-to_bytes = λ e. refl;
  from_bytes-to_bytes = λ e. refl;
}

abbrev entry : ℕ → ℕ → Entry ℕ
entry k c = record { item = k; count = c }

-- Five keys of one bucket, the second of them twice.
abbrev five : List (Entry ℕ)
five =
    entry 1 1
    ∷ entry 4097 2
    ∷ entry 8193 1
    ∷ entry 12289 3
    ∷ entry 4097 2
    ∷ entry 16385 5
    ∷ entry 1 7
    ∷ []

abbrev bucket : Bucket ℕ
bucket = record { length = 4; entries = entry 1 5 ∷ entry 2 3 ∷ entry 3 3 ∷ entry 4 9 ∷ [] }

-- The first of the rarest entries gives way.
add-full :
    add bucket 7 1
    ≡ returns (
      record { length = 4; entries = entry 1 5 ∷ entry 7 1 ∷ entry 3 3 ∷ entry 4 9 ∷ [] },
      some (entry 2 3),
    )
unfolding add
add-full = refl

add-Added_example : Returns (add bucket 7 1) (BucketAdded bucket 7 1)
add-Added_example =
    add-Added bucket 7 1 (record { width = refl; fits = omega arith; distinct = λ q. ground arith })

collect-IsExact_example :
    Returns
      (collect in_memory entry_layout (2 ^ 17) 0 [] five)
      (IsExact in_memory entry_layout (2 ^ 17) five)
collect-IsExact_example =
    collect-IsExact in_memory entry_layout (2 ^ 17) 0 [] five (omega arith) refl

abbrev none_counted : HashCounter ℕ
none_counted = empty 0

abbrev filled : Returns (Counter.add none_counted 7 3) (Added none_counted 7 3)
filled = counter_add-Added none_counted 7 3 (empty-IsValid {T = ℕ} 0).0

counter_add-Added_example : Returns (Counter.add filled.0.0 4103 1) (Added filled.0.0 4103 1)
counter_add-Added_example = counter_add-Added filled.0.0 4103 1 filled.2.valid

iter-entries_example : Counter.iter filled.0.0 ≡ returns (entries filled.0.0)
iter-entries_example = iter-entries filled.0.0 filled.2.valid

-- Two entries in the file, and one or two in the buffer, which holds two.
abbrev spilt : ℕ → TempFdArray (List ℕ) (Entry ℕ)
spilt n = record {
  file = 1 ∷ 1 ∷ 2 ∷ 2 ∷ [];
  buffer = entry 3 3 ∷ entry 4 4 ∷ [];
  buffer_index = n;
  flush_n = 1;
}

abbrev on_file : List (Entry ℕ)
on_file = entry 1 1 ∷ entry 2 2 ∷ []

spilt-Holds : (n : ℕ) → n ≤ 2 → Holds in_memory entry_layout (2 ^ 17) (spilt n) on_file
spilt-Holds n h = record { width = refl; fits = omega arith; on_disk = refl; counted = refl }

-- A disk that is full: a write of any byte fails.
abbrev refuse_bytes : List ℕ → List ℕ → Result IoError (Unit {0}) × List ℕ
refuse_bytes f [] = (ok tt, f)
refuse_bytes f (b ∷ bs) = (err 28, f)

refuse_bytes_ok : (f f' bytes : List ℕ) → refuse_bytes f bytes ≡ (ok tt, f') → f' ≡ f ++ bytes
refuse_bytes_ok f f' [] e = rw append-nil (cc)
refuse_bytes_ok f f' (b ∷ bs) e = absurd (cc)

refuse_bytes_err :
    (f f' bytes : List ℕ) (x : IoError)
    → refuse_bytes f bytes ≡ (err x, f')
    → (n : ℕ) × (n < length bytes) × (f' ≡ f ++ take n bytes)
refuse_bytes_err f f' [] x e = absurd (cc)
refuse_bytes_err f f' (b ∷ bs) x e = (0, omega arith, rw append-nil (cc))

abbrev full_disk : TempFiles
full_disk = record in_memory {
  write_all = refuse_bytes;
  write_all_ok = refuse_bytes_ok;
  write_all_err = refuse_bytes_err;
}

abbrev after_failure : TempFdArray (List ℕ) (Entry ℕ)
after_failure = record (spilt 2) { buffer_index = 0; flush_n = 2 }

push_onto_full_disk :
    push full_disk entry_layout (2 ^ 17) (spilt 2) (entry 5 5) ≡ returns (err 28, after_failure)
unfolding push flush_buffer
push_onto_full_disk = refl

failed_push_is_final_example :
    Returns
      (push_all full_disk entry_layout (2 ^ 17) after_failure (entry 6 6 ∷ []))
      (IsUnreadable full_disk entry_layout (2 ^ 17) (omega arith))
failed_push_is_final_example =
    failed_push_is_final full_disk entry_layout (2 ^ 17) (omega arith) (spilt 2) after_failure
      on_file (entry 5 5) 28 (entry 6 6 ∷ [])
      (record { width = refl; fits = omega arith; on_disk = refl; counted = refl })
      push_onto_full_disk
