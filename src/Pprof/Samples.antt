-- ===== src/Pprof/Samples.antt =====
-- `Report::pprof` of src/report.rs as a whole: a reader of the profile finds every row of the report.
use mathlib.Core.List.{flatten, append-nil, append_assoc}
use strict_pprof_rs.Base.{
  ℕ, suc, ◌*◌, ◌/◌, ◌%◌, ◌≡◌, ◌<◌, refl, sym, ap, ◌∙◌, true, Option, some, List, [], ◌∷◌, ◌++◌, map,
  arith, get_elem?, Returns, returns, ◌>>=◌, word, half_word,
}
use strict_pprof_rs.Base.Int.{pos, i64_div, i64_div_small, i64_div_returns}
use strict_pprof_rs.Base.HashMap.{HashMap, get}
use strict_pprof_rs.Base.Texts.{Text, text_key}
use strict_pprof_rs.Frames.Symbol.{Texts, Frames, name, thread_name_or_id}
use strict_pprof_rs.Report.{Report}
use strict_pprof_rs.Protos.{
  Profile, ValueType, Sample, Label, Location, Function, default_label, default_profile,
}
use strict_pprof_rs.Pprof.{
  Tables, no_tables, contains, dedup_str, index_strings, make_sample, make_samples, pprof, assemble,
  samples_text, count_text, cpu_text, nanoseconds_text, thread_text,
}
use strict_pprof_rs.Pprof.Strings.{
  IsKnown, index_strings-IsKnown, HasRows, HasFrames, HasWords, dedup_str-Has,
}
use strict_pprof_rs.Pprof.Functions.{
  name_at, name_in, Numbered, IsValid, Extends, Stand-Extends, locate_frames-LocatedAll,
}

-- A reader with the string table and a lookup of names finds the row in the sample: the names of all
-- symbols of its stack, in order, its thread, its count, and the time that this count stands for.
pub record Shows (texts : Texts) (frequency : ℕ) (tbl : List Text) (name_of : ℕ → Option Text)
    (row : Frames × ℕ) (sample : Sample) : Type 0 where
  pub stack : map name_of sample.location_id ≡ map some (map (name texts) (flatten row.0.frames))
  pub nanos : ℕ
  pub values : sample.value ≡ row.1 ∷ nanos ∷ []
  pub exact : row.1 * 1_000_000_000 < half_word → nanos ≡ row.1 * 1_000_000_000 / suc frequency
  pub label : Label
  pub labelled : sample.label ≡ label ∷ []
  pub key : get_elem? tbl label.key ≡ some thread_text
  pub thread : get_elem? tbl label.str ≡ some (thread_name_or_id row.0)

-- There is a sample for each row, in order.
abbrev pub AllShow :
    Texts → ℕ → List Text → (ℕ → Option Text) → HashMap Frames ℕ → List Sample → Type 0
AllShow texts frequency tbl name_of [] [] = Unit
AllShow texts frequency tbl name_of [] (s ∷ ss) = ⊥
AllShow texts frequency tbl name_of (r ∷ rs) [] = ⊥
AllShow texts frequency tbl name_of (r ∷ rs) (s ∷ ss) =
    Shows texts frequency tbl name_of r s × AllShow texts frequency tbl name_of rs ss

nanos_of :
    (n b : ℕ)
    → (q : ℕ) × (i64_div (n % word) (pos (suc b)) ≡ returns q) × (n < half_word → q ≡ n / suc b)
nanos_of n b =
    let (q, run) = i64_div_returns (n % word) b in
    (
      q,
      run,
      λ small.
          let whole : n % word ≡ n = omega arith in
          let other = i64_div_small n b small in
          let same : returns q ≡ returns (n / suc b) =
            sym run ∙ ap (λ m. i64_div m (pos (suc b))) whole ∙ other in
          cc,
    )

module _ (texts : Texts) (strings : HashMap Text ℕ) (tbl us : List Text)
    (known : (q : Text) → contains q us ≡ true → IsKnown strings tbl q) (frequency : ℕ)
    (word_known : IsKnown strings tbl thread_text) where
  abbrev Valid : Tables → Type 0
  Valid = IsValid texts strings tbl

  abbrev names_in : Tables → ℕ → Option Text
  names_in = name_in texts strings tbl

  make_sample-Shows :
      (row : Frames × ℕ) (t : Tables)
      → Valid t
      → contains (thread_name_or_id row.0) us ≡ true
      → HasFrames texts us row.0.frames
      → Returns (make_sample texts strings (pos (suc frequency)) row t) (λ r.
        Valid r.0
        × Extends texts strings tbl t r.0
        × Shows texts frequency tbl (names_in r.0) row r.1)
  unfolding make_sample
  make_sample-Shows row t valid thread has =
      let ((t', locs), run, (valid', grows, stand)) =
        locate_frames-LocatedAll texts strings tbl us known row.0.frames t [] [] valid has in
      let who = known _ thread in
      let (nanos, divided, exact) = nanos_of (row.1 * 1_000_000_000) frequency in
      let label : Label = record default_label { key = word_known.index; str = who.index } in
      (
        (t', record { location_id = locs; value = row.1 ∷ nanos ∷ []; label = label ∷ [] }),
        rw (run, word_known.found, who.found, divided),
        (
          valid',
          grows,
          record {
            stack = stand refl;
            nanos = nanos;
            values = refl;
            exact = exact;
            label = label;
            labelled = refl;
            key = word_known.held;
            thread = who.held;
          },
        ),
      )

  Shows-Extends :
      (row : Frames × ℕ) (sample : Sample) (t t' : Tables)
      → Extends texts strings tbl t t'
      → Shows texts frequency tbl (names_in t) row sample
      → Shows texts frequency tbl (names_in t') row sample
  Shows-Extends row sample t t' grows h = record {
    stack =
        Stand-Extends texts strings tbl us known t t' sample.location_id
          (map (name texts) (flatten row.0.frames)) grows h.stack;
    nanos = h.nanos;
    values = h.values;
    exact = h.exact;
    label = h.label;
    labelled = h.labelled;
    key = h.key;
    thread = h.thread;
  }

  make_samples-AllShow :
      (rows : HashMap Frames ℕ) (t : Tables) (done : List Sample)
      → Valid t
      → HasRows texts us rows
      → (t' : Tables) × (new : List Sample) × (make_samples texts strings
            (pos (suc frequency))
            rows
            (t, done)
          ≡ returns (t', done ++ new))
        × Valid t'
        × Extends texts strings tbl t t'
        × AllShow texts frequency tbl (names_in t') rows new
  unfolding make_samples
  make_samples-AllShow [] t done valid has = (t, [], rw append-nil refl, valid, λ _ _ h. h, tt)
  make_samples-AllShow (row ∷ rows) t done valid (thread, frames, rest) =
      let ((t₁, sample), run, (valid₁, grows₁, shows)) =
        make_sample-Shows row t valid thread frames in
      let (t₂, new, runs, valid₂, grows₂, all) =
        make_samples-AllShow rows t₁ (done ++ sample ∷ []) valid₁ rest in
      (
        t₂,
        sample ∷ new,
        rw (run, runs) (ap (λ ss. returns (t₂, ss)) (append_assoc done (sample ∷ []) new)),
        valid₂,
        λ i q h. grows₂ i q (grows₁ i q h),
        (Shows-Extends row sample t₁ t₂ grows₂ shows, all),
      )

-- The two texts of a type of values, as a reader finds them.
abbrev pub Reads : List Text → ValueType → Text → Text → Type 0
Reads tbl v ty unit = (get_elem? tbl v.ty ≡ some ty) × (get_elem? tbl v.unit ≡ some unit)

-- What a reader finds in a profile of the report.
pub record Decodes (texts : Texts) (frequency : ℕ) (report : Report Frames) (p : Profile)
    : Type 0 where
  pub empty_first : get_elem? p.string_table 0 ≡ some []
  pub rows :
      AllShow texts frequency p.string_table
        (name_at p.string_table p.function p.location)
        report.rows
        p.sample
  pub functions_numbered : Numbered (λ (f : Function). f.id) 0 p.function
  pub locations_numbered : Numbered (λ (l : Location). l.id) 0 p.location
  pub samples_type : ValueType
  pub time_type : ValueType
  pub types : p.sample_type ≡ samples_type ∷ time_type ∷ []
  pub samples_read : Reads p.string_table samples_type samples_text count_text
  pub time_read : Reads p.string_table time_type cpu_text nanoseconds_text
  pub period_type : p.period_type ≡ some time_type
  pub period : p.period ≡ 1_000_000_000 / suc frequency

empty-IsValid :
    (texts : Texts) (strings : HashMap Text ℕ) (tbl : List Text)
    → IsValid texts strings tbl no_tables
unfolding get
empty-IsValid texts strings tbl = record {
  paired = refl;
  functions_numbered = tt;
  locations_numbered = tt;
  named = λ q id never. absurd (cc);
}

assemble-Decodes :
    (texts : Texts) (strings : HashMap Text ℕ) (rest us : List Text) (report : Report Frames)
    (frequency : ℕ) (t : Tables) (samples : List Sample)
    → ((q : Text) → contains q us ≡ true → IsKnown strings ([] ∷ rest) q)
    → HasWords texts us
    → report.timing.frequency ≡ pos (suc frequency)
    → IsValid texts strings ([] ∷ rest) t
    → AllShow texts frequency
        ([] ∷ rest)
        (name_at ([] ∷ rest) t.fn_tbl t.loc_tbl)
        report.rows
        samples
    → Returns
        (assemble texts strings ([] ∷ rest) report.timing (t, samples))
        (Decodes texts frequency report)
unfolding assemble
assemble-Decodes texts strings rest us report frequency t samples known has positive valid show =
    let (_, nanoseconds, cpu, count, sample) = has in
    let nanoseconds_known = known _ nanoseconds in
    let cpu_known = known _ cpu in
    let count_known = known _ count in
    let samples_known = known _ sample in
    let small : 1_000_000_000 < half_word = omega arith in
    let divided = i64_div_small 1_000_000_000 frequency small in
    let samples_type : ValueType = record { ty = samples_known.index; unit = count_known.index } in
    let time_type : ValueType = record { ty = cpu_known.index; unit = nanoseconds_known.index } in
    (
      record default_profile {
        sample_type = samples_type ∷ time_type ∷ [];
        sample = samples;
        string_table = [] ∷ rest;
        function = t.fn_tbl;
        location = t.loc_tbl;
        time_nanos = report.timing.start_time % word;
        duration_nanos = report.timing.duration % word;
        period_type = some time_type;
        period = 1_000_000_000 / suc frequency;
      },
      rw
          (
            samples_known.found, count_known.found, cpu_known.found, nanoseconds_known.found,
            positive, divided,
          )
          refl,
      record {
        empty_first = refl;
        rows = show;
        functions_numbered = valid.functions_numbered;
        locations_numbered = valid.locations_numbered;
        samples_type = samples_type;
        time_type = time_type;
        types = refl;
        samples_read = (samples_known.held, count_known.held);
        time_read = (cpu_known.held, nanoseconds_known.held);
        period_type = refl;
        period = refl;
      },
    )

-- At a frequency above zero the export does not panic, in whatever order the set of strings is walked.
-- A reader of the profile finds a sample for each row of the report, in order, with the names of all
-- symbols of its stack, its thread, its count, and (where the product fits) the time that the count
-- stands for. Functions and locations are numbered from one on, the first string is empty, and the
-- types of the values and the period are those of samples and of time.
pub pprof-Decodes :
    (texts : Texts) (into_iter : List Text → List Text) (report : Report Frames) (frequency : ℕ)
    → ((q : Text) (us : List Text) → contains q us ≡ true → contains q (into_iter us) ≡ true)
    → report.timing.frequency ≡ pos (suc frequency)
    → Returns (pprof texts into_iter report) (Decodes texts frequency report)
unfolding pprof contains
pprof-Decodes texts into_iter report frequency all positive =
    let us = dedup_str texts report.rows in
    let tbl = [] ∷ into_iter us in
    let strings = index_strings 0 tbl [] in
    let known = λ (q : Text) (h : contains q us ≡ true).
      let there : contains q tbl ≡ true = ground (arith, all q us h) in
      index_strings-IsKnown tbl q there in
    let (has, words) = dedup_str-Has texts report.rows in
    let (t, new, run, valid, grows, show) =
      make_samples-AllShow texts strings tbl us known frequency (known _ words.0) report.rows
        no_tables [] (empty-IsValid texts strings tbl) has in
    let (p, built, decodes) =
      assemble-Decodes texts strings (into_iter us) us report frequency t new known words positive
        valid show in
    let started =
      ap (λ f. make_samples texts strings f report.rows (no_tables, [])) positive ∙ run in
    (p, ap (λ r. r >>= assemble texts strings tbl report.timing) started ∙ built, decodes)
