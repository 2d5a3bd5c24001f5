-- ===== src/AddrValidate/Create.antt =====
-- `create_pipe` of src/addr_validate.rs on macOS and FreeBSD, where a pipe is made first and gets its
-- flags afterwards. The system calls and the meaning of their bits are parameters.
pub mod Attempts
pub mod Made
mod Tests
use strict_pprof_rs.Base.{ℕ, Option, none, some, Result, ok, err, Run, returns, panics, ◌>>=◌}
use strict_pprof_rs.Base.Int.{ℤ}
use strict_pprof_rs.AddrValidate.{Errno}

-- `FdFlag` or `OFlag`: `from_bits` gives nothing where a bit is unknown, `insert` is `|=`.
pub record Flags : Type 1 where
  pub Flag : Type 0
  pub from_bits : ℕ → Option Flag
  pub insert : Flag → Flag → Flag
  pub wanted : Flag

-- `pipe`, and `fcntl` with `F_GETFD`, `F_SETFD`, `F_GETFL` and `F_SETFL`.
pub record FlagCalls (S : Type 0) (fd_flags o_flags : Flags) : Type 0 where
  pub pipe : S → Result Errno (ℤ × ℤ) × S
  pub get_fd : ℤ → S → Result Errno ℕ × S
  pub set_fd : ℤ → fd_flags.Flag → S → Result Errno (Unit {0}) × S
  pub get_fl : ℤ → S → Result Errno ℕ × S
  pub set_fl : ℤ → o_flags.Flag → S → Result Errno (Unit {0}) × S

abbrev unwrap {ℓ} : {A : Type ℓ} → Option A → Run A
unwrap none = panics
unwrap (some a) = returns a

module _ {S : Type 0} {fd_flags o_flags : Flags} (calls : FlagCalls S fd_flags o_flags) where
  open calls use {pipe, get_fd, set_fd, get_fl, set_fl}

  abbrev pub Step : Type 0
  Step = Result Errno (Unit {0}) × S

  -- `?` after a call.
  abbrev pub then_on {ℓ} :
      {A : Type 0} {B : Type ℓ} → Result Errno A × S → (Errno → S → B) → (A → S → B) → B
  then_on (err e, s) stop next = stop e s
  then_on (ok a, s) stop next = next a s

  -- The second half of `set_flags`: `OFlag` with `O_NONBLOCK`.
  unfoldable pub set_status : ℤ → S → Run Step
  set_status fd s =
      then_on (get_fl fd s) (λ e s'. returns (err e, s'))
        (λ bits s'. unwrap (o_flags.from_bits bits) >>= λ flags.
          returns (set_fl fd (o_flags.insert flags o_flags.wanted) s'))

  -- `set_flags`, whose first half is `FdFlag` with `FD_CLOEXEC`.
  unfoldable pub set_flags : ℤ → S → Run Step
  unfolding set_status
  set_flags fd s =
      then_on (get_fd fd s) (λ e s'. returns (err e, s'))
        (λ bits s'. unwrap (fd_flags.from_bits bits) >>= λ flags.
          then_on (set_fd fd (fd_flags.insert flags fd_flags.wanted) s')
            (λ e s''. returns (err e, s'')) (λ _ s''. set_status fd s''))

  unfoldable pub create_pipe : S → Run (Result Errno (ℤ × ℤ) × S)
  unfolding set_flags
  create_pipe s =
      then_on (pipe s) (λ e s'. returns (err e, s'))
        (λ fds s'. set_flags fds.0 s' >>= λ r.
          then_on r (λ e s''. returns (err e, s''))
            (λ _ s''. set_flags fds.1 s'' >>= λ r'.
              then_on r' (λ e t. returns (err e, t)) (λ _ t. returns (ok fds, t))))
