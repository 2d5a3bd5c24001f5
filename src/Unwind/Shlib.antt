-- ===== src/Unwind/Shlib.antt =====
-- src/backtrace/framehop_unwinder/shlib.rs: the loaded libraries as modules of the crate framehop, and
-- the unwinder over them. Reading a library's file and finding its sections are parameters.
use strict_pprof_rs.Base.{ℕ, Option, none, some, List, [], ◌∷◌, ◌++◌, Result, ok, err, word_add}
use strict_pprof_rs.Base.Texts.{Text}
use strict_pprof_rs.Collector.TempArray.{IoError}

-- A section of an object file.
pub record Section : Type 0 where
  pub address : ℕ
  pub size : ℕ
  pub content : Option (List ℕ)

-- What the crate object tells of a parsed file.
pub record Object : Type 0 where
  pub section_by_name : Text → Option Section
  pub relative_address_base : ℕ

-- "__TEXT"
abbrev text_name : Text
text_name = b'_' ∷ b'_' ∷ b'T' ∷ b'E' ∷ b'X' ∷ b'T' ∷ []

unfoldable pub base_svma : Object → ℕ
base_svma object = elim (object.section_by_name text_name) [
  | some section ↦ section.address
  | none ↦ object.relative_address_base
]

unfoldable pub section_svma_range : Object → Text → Option (ℕ × ℕ)
section_svma_range object name = elim (object.section_by_name name) [
  | some section ↦ some (section.address, word_add section.address section.size)
  | none ↦ none
]

unfoldable pub section_data : Object → Text → Option (List ℕ)
section_data object name = elim (object.section_by_name name) [
  | some section ↦ section.content
  | none ↦ none
]

-- A library that the process has loaded, as findshlibs shows it.
pub record SharedLibrary : Type 0 where
  pub name : Text
  pub actual_load_addr : ℕ
  pub len : ℕ

-- A `framehop::Module`, by the arguments of its `new`.
pub record Module : Type 0 where
  pub name : Text
  pub avma_range : ℕ × ℕ
  pub base_avma : ℕ
  pub section_info : Object

module _ {File Mmap : Type 0} (open_file : Text → Result IoError File)
    (map_file : File → Result IoError Mmap) (parse : Mmap → Option Object)
    (to_string_lossy : Text → Text) where
  unfoldable pub open_mmap : Text → Option Mmap
  open_mmap path = elim (open_file path) [
    | err e ↦ none
    | ok file ↦ elim (map_file file) [ err e ↦ none | ok mmap ↦ some mmap ]
  ]

  -- One round of `TargetSharedLibrary::each`.
  abbrev pub module_of : SharedLibrary → Object → Module
  module_of shlib object = record {
    name = to_string_lossy shlib.name;
    avma_range = (shlib.actual_load_addr, word_add shlib.actual_load_addr shlib.len);
    base_avma = shlib.actual_load_addr;
    section_info = object;
  }

  unfoldable pub push_object : List Module → SharedLibrary → List Module
  unfolding open_mmap
  push_object objects shlib = elim (open_mmap shlib.name) [
    | none ↦ objects
    | some mmap ↦ elim (parse mmap) [
      | none ↦ objects
      | some object ↦ objects ++ module_of shlib object ∷ []
    ]
  ]

  unfoldable pub each : List SharedLibrary → List Module → List Module
  unfolding push_object
  each [] objects = objects
  each (shlib ∷ shlibs) objects = each shlibs (push_object objects shlib)

  unfoldable pub find_objects : List SharedLibrary → List Module
  unfolding each
  find_objects shlibs = each shlibs []

-- `FramehopUnwinder::new`, from an empty unwinder.
unfoldable pub add_modules : {U : Type 0} → (U → Module → U) → U → List Module → U
add_modules add_module unwinder [] = unwinder
add_modules add_module unwinder (object ∷ objects) =
    add_modules add_module (add_module unwinder object) objects
