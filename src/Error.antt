-- ===== src/Error.antt =====
-- `Error` of src/error.rs. The codes of `nix::Error` and `std::io::Error` are carried as numbers.
use strict_pprof_rs.Base.{ℕ, Result, ok, err}

pub data Error : Type 0 where
  nix_error : ℕ → Error
  io_error : ℕ → Error
  creating_error running not_running : Error

-- `?` on an I/O result: the error by `#[from]`, or what comes next.
abbrev pub from_io {ℓ} : {A : Type ℓ} → Result ℕ A → Result Error A
from_io (ok a) = ok a
from_io (err e) = err (io_error e)

-- `?` on a result of nix.
abbrev pub from_nix {ℓ} : {A : Type ℓ} → Result ℕ A → Result Error A
from_nix (ok a) = ok a
from_nix (err e) = err (nix_error e)
