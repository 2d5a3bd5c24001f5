-- ===== src/AddrValidate.antt =====
-- src/addr_validate.rs: whether an address is readable, found out by writing what stands there to a
-- pipe. The system calls on descriptors are parameters.
pub mod Create
pub mod Pipe
pub mod Validity
pub mod Tests
use strict_pprof_rs.Base.{
  ℕ, zero, suc, ◌≡◌, Bool, true, false, List, Result, ok, err, Run, returns, diverges, ◌>>=◌, ltb,
  ◌==◌, not, ◌&&◌, if◌then◌else◌,
}
use strict_pprof_rs.Base.Int.{ℤ, pos, negsuc}

pub data Errno : Type 0 where
  eintr eagain : Errno
  other : ℕ → Errno

pub record Pipes : Type 0 where
  pub read_fd : ℤ
  pub write_fd : ℤ

-- `MEM_VALIDATE_PIPE`, before its first use.
abbrev pub mem_validate_pipe : Pipes
mem_validate_pipe = record { read_fd = negsuc 0; write_fd = negsuc 0 }

-- The system calls. `pipe2` is called with `O_CLOEXEC | O_NONBLOCK`, `read` and `write` with a buffer of
-- `CHECK_LENGTH` bytes, which `write` takes from an address.
pub record Calls (S : Type 0) : Type 0 where
  pub close : ℤ → S → Result Errno (Unit {0}) × S
  pub pipe2 : S → Result Errno (ℤ × ℤ) × S
  pub read : ℤ → S → Result Errno ℕ × S
  pub write : ℤ → ℕ → S → Result Errno ℕ × S

module _ {S : Type 0} (calls : Calls S) where
  open calls use {close, pipe2, read, write}

  abbrev pub close_both : Pipes → S → S
  close_both p s = (close p.write_fd (close p.read_fd s).1).1

  -- `let (read_fd, write_fd) = create_pipe()?`, and the two stores.
  abbrev pub store_pipe : Pipes → Result Errno (ℤ × ℤ) × S → Result Errno (Unit {0}) × (Pipes × S)
  store_pipe p (err e, s) = (err e, (p, s))
  store_pipe p (ok (read_fd, write_fd), s) =
      (ok tt, (record { read_fd = read_fd; write_fd = write_fd }, s))

  unfoldable pub open_pipe : Pipes → S → Result Errno (Unit {0}) × (Pipes × S)
  open_pipe p s = store_pipe p (pipe2 (close_both p s))

  -- The arms of the first loop, of which one goes round again.
  abbrev pub on_read : (S → Run (Bool × S)) → Result Errno ℕ × S → Run (Bool × S)
  on_read again (ok bytes, s) = returns (ltb 0 bytes, s)
  on_read again (err eintr, s) = again s
  on_read again (err eagain, s) = returns (true, s)
  on_read again (err (other _), s) = returns (false, s)

  -- The first loop, which gives `valid_read`.
  unfoldable pub read_loop : ℕ → ℤ → S → Run (Bool × S)
  read_loop zero fd s = diverges
  read_loop (suc fuel) fd s = on_read (read_loop fuel fd) (read fd s)

  abbrev pub on_write : (S → Run (Bool × S)) → Result Errno ℕ × S → Run (Bool × S)
  on_write again (ok bytes, s) = returns (ltb 0 bytes, s)
  on_write again (err eintr, s) = again s
  on_write again (err eagain, s) = returns (false, s)
  on_write again (err (other _), s) = returns (false, s)

  -- The second loop.
  unfoldable pub write_loop : ℕ → ℤ → ℕ → S → Run (Bool × S)
  write_loop zero fd addr s = diverges
  write_loop (suc fuel) fd addr s = on_write (write_loop fuel fd addr) (write fd addr s)

  -- What follows the first loop, once the pipe is known to be open or has been opened.
  abbrev pub write_to : ℕ → ℕ → Result Errno (Unit {0}) × (Pipes × S) → Run (Bool × (Pipes × S))
  write_to fuel addr (err e, (p, s)) = returns (false, (p, s))
  write_to fuel addr (ok _, (p, s)) =
      write_loop fuel p.write_fd addr s >>= λ (b, s'). returns (b, (p, s'))

  unfoldable pub validate : ℕ → ℕ → Pipes × S → Run (Bool × (Pipes × S))
  unfolding read_loop write_loop open_pipe
  validate fuel addr (p, s) =
      if addr == 0
      then returns (false, (p, s))
      else read_loop fuel p.read_fd s >>= λ (valid_read, s').
          write_to fuel addr (if valid_read then (ok tt, (p, s')) else open_pipe p s')
