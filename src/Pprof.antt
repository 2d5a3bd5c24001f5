-- ===== src/Pprof.antt =====
-- `Report::pprof` of src/report.rs: the report in google's profile format. Strings, functions and
-- locations are kept in tables, and messages refer to them by number.
pub mod Strings
pub mod Functions
pub mod Samples
pub mod Tests
use strict_pprof_rs.Base.{
  ℕ, zero, suc, ◌+◌, ◌*◌, ◌%◌, ◌≡◌, Option, none, some, List, [], ◌∷◌, ◌++◌, map, Run, returns,
  panics, ◌>>=◌, length, word, half_word, ltb, if◌then◌else◌, ◌==◌, ◌||◌, Bool, true, false,
}
use strict_pprof_rs.Base.Int.{ℤ, i64_div}
use strict_pprof_rs.Base.HashMap.{HashMap, get, insert}
use strict_pprof_rs.Base.Texts.{Text, text_key, text_equal}
use strict_pprof_rs.Timer.{ReportTiming}
use strict_pprof_rs.Frames.Symbol.{
  Symbol, Texts, Frames, name, sys_name, filename, lineno, thread_name_or_id,
}
use strict_pprof_rs.Report.{Report}
use strict_pprof_rs.Protos.{
  Profile, ValueType, Sample, Label, Location, Line, Function, default_label, default_location,
  default_function, default_profile,
}

abbrev pub samples_text : Text
samples_text = b's' ∷ b'a' ∷ b'm' ∷ b'p' ∷ b'l' ∷ b'e' ∷ b's' ∷ []

abbrev pub count_text : Text
count_text = b'c' ∷ b'o' ∷ b'u' ∷ b'n' ∷ b't' ∷ []

abbrev pub cpu_text : Text
cpu_text = b'c' ∷ b'p' ∷ b'u' ∷ []

abbrev pub nanoseconds_text : Text
nanoseconds_text = b'n' ∷ b'a' ∷ b'n' ∷ b'o' ∷ b's' ∷ b'e' ∷ b'c' ∷ b'o' ∷ b'n' ∷ b'd' ∷ b's' ∷ []

abbrev pub thread_text : Text
thread_text = b't' ∷ b'h' ∷ b'r' ∷ b'e' ∷ b'a' ∷ b'd' ∷ []

-- `HashSet`, as its members. `insert` leaves a member alone.
unfoldable pub contains : Text → List Text → Bool
contains t [] = false
contains t (u ∷ us) = text_equal t u || contains t us

unfoldable pub insert_text : Text → List Text → List Text
insert_text t us = if contains t us then us else t ∷ us

-- `Option::unwrap`
abbrev pub unwrap {ℓ} : {A : Type ℓ} → Option A → Run A
unwrap none = panics
unwrap (some a) = returns a

-- `strings.insert(name, index)` for each name of the table, from `index` on.
unfoldable pub index_strings : ℕ → List Text → HashMap Text ℕ → HashMap Text ℕ
index_strings index [] strings = strings
index_strings index (t ∷ ts) strings = index_strings (index + 1) ts (insert t index strings).1

-- `*strings.get(text).unwrap()`
abbrev pub index_of : HashMap Text ℕ → Text → Run ℕ
index_of strings t = unwrap (get t strings)

-- `functions`, `fn_tbl` and `loc_tbl`.
pub record Tables : Type 0 where
  pub functions : HashMap Text ℕ
  pub fn_tbl : List Function
  pub loc_tbl : List Location

abbrev pub no_tables : Tables
no_tables = record { functions = []; fn_tbl = []; loc_tbl = [] }

-- `into_iter` is the order in which a `HashSet` gives its members.
module _ (texts : Texts) where
  unfoldable pub add_symbols : List Symbol → List Text → List Text
  unfolding insert_text
  add_symbols [] set = set
  add_symbols (s ∷ ss) set = add_symbols ss (
      insert_text (filename texts s)
        (insert_text (sys_name texts s) (insert_text (name texts s) set)))

  unfoldable pub add_frames : List (List Symbol) → List Text → List Text
  unfolding add_symbols
  add_frames [] set = set
  add_frames (frame ∷ frames) set = add_frames frames (add_symbols frame set)

  -- The loop over the report's keys.
  unfoldable pub add_rows : HashMap Frames ℕ → List Text → List Text
  unfolding add_frames
  add_rows [] set = set
  add_rows (row ∷ rows) set =
      add_rows rows (add_frames row.0.frames (insert_text (thread_name_or_id row.0) set))

  -- All strings of the profile.
  unfoldable pub dedup_str : HashMap Frames ℕ → List Text
  unfolding add_rows
  dedup_str rows = insert_text thread_text (
      insert_text nanoseconds_text (
        insert_text cpu_text
          (insert_text count_text (insert_text samples_text (add_rows rows [])))))

  module _ (strings : HashMap Text ℕ) where
    -- A function that is not in the table yet, with its location.
    unfoldable pub add_function : Symbol → Tables → Run (Tables × ℕ)
    add_function s t =
        let function_id = length t.fn_tbl + 1 in
        index_of strings (name texts s) >>= λ name_index.
        index_of strings (sys_name texts s) >>= λ system_name.
        index_of strings (filename texts s) >>= λ file.
        let function : Function = record default_function {
          id = function_id;
          name = name_index;
          system_name = system_name;
          filename = file;
        } in
        let line : Line = record { function_id = function_id; line = lineno s } in
        let loc : Location = record default_location { id = function_id; line = line ∷ [] } in
        returns (
          record {
            functions = (insert (name texts s) function_id t.functions).1;
            fn_tbl = t.fn_tbl ++ function ∷ [];
            loc_tbl = t.loc_tbl ++ loc ∷ [];
          },
          function_id,
        )

    -- One round of the loop over symbols.
    unfoldable pub locate : Symbol → Tables → Run (Tables × ℕ)
    unfolding add_function
    locate s t = elim (get (name texts s) t.functions) [
      | some loc_idx ↦ returns (t, loc_idx)
      | none ↦ add_function s t
    ]

    unfoldable pub locate_symbols : List Symbol → Tables × List ℕ → Run (Tables × List ℕ)
    unfolding locate
    locate_symbols [] state = returns state
    locate_symbols (s ∷ ss) (t, locs) =
        locate s t >>= λ (t', id). locate_symbols ss (t', locs ++ id ∷ [])

    unfoldable pub locate_frames : List (List Symbol) → Tables × List ℕ → Run (Tables × List ℕ)
    unfolding locate_symbols
    locate_frames [] state = returns state
    locate_frames (frame ∷ frames) state = locate_symbols frame state >>= locate_frames frames

    -- One round of the loop over rows. The product wraps; the quotient panics at zero.
    unfoldable pub make_sample : ℤ → Frames × ℕ → Tables → Run (Tables × Sample)
    unfolding locate_frames
    make_sample frequency row t = locate_frames row.0.frames (t, []) >>= λ (t', locs).
        index_of strings thread_text >>= λ key.
        index_of strings (thread_name_or_id row.0) >>= λ str.
        i64_div (row.1 * 1_000_000_000 % word) frequency >>= λ nanos.
        let thread_name = record default_label { key = key; str = str } in
        returns
          (t', record { location_id = locs; value = row.1 ∷ nanos ∷ []; label = thread_name ∷ [] })

    unfoldable pub make_samples :
        ℤ → HashMap Frames ℕ → Tables × List Sample → Run (Tables × List Sample)
    unfolding make_sample
    make_samples frequency [] state = returns state
    make_samples frequency (row ∷ rows) (t, samples) =
        make_sample frequency row t >>= λ (t', sample).
        make_samples frequency rows (t', samples ++ sample ∷ [])

    -- The profile, once all samples are made. A `u128` of nanoseconds is cut to 64 bits.
    unfoldable pub assemble : List Text → ReportTiming → Tables × List Sample → Run Profile
    assemble str_tbl timing (t, samples) = index_of strings samples_text >>= λ samples_index.
        index_of strings count_text >>= λ count_index. index_of strings cpu_text >>= λ cpu_index.
        index_of strings nanoseconds_text >>= λ nanoseconds_index.
        i64_div 1_000_000_000 timing.frequency >>= λ period.
        let samples_value : ValueType = record { ty = samples_index; unit = count_index } in
        let time_value : ValueType = record { ty = cpu_index; unit = nanoseconds_index } in
        returns (record default_profile {
          sample_type = samples_value ∷ time_value ∷ [];
          sample = samples;
          string_table = str_tbl;
          function = t.fn_tbl;
          location = t.loc_tbl;
          time_nanos = timing.start_time % word;
          duration_nanos = timing.duration % word;
          period_type = some time_value;
          period = period;
        })

  -- `pprof`
  unfoldable pub pprof : (List Text → List Text) → Report Frames → Run Profile
  unfolding dedup_str index_strings make_samples assemble
  pprof into_iter report =
      let str_tbl = [] ∷ into_iter (dedup_str report.rows) in
      let strings = index_strings 0 str_tbl [] in
      make_samples strings report.timing.frequency report.rows (no_tables, [])
      >>= assemble strings str_tbl report.timing
