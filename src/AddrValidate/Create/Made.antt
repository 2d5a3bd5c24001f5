-- ===== src/AddrValidate/Create/Made.antt =====
-- What `create_pipe` of src/addr_validate.rs has made on macOS and FreeBSD, over calls that keep what
-- `pipe` and `fcntl` document.
use strict_pprof_rs.Base.{
  ◌≡◌, ◌≢◌, refl, ap, sym, ◌∙◌, ◌⊎◌, inl, inr, Result, ok, err, Returns, returns, ◌>>=◌,
}
use strict_pprof_rs.Base.Int.{ℤ}
use strict_pprof_rs.AddrValidate.{Errno, Calls}
use strict_pprof_rs.AddrValidate.Pipe.{View, Creates}
use strict_pprof_rs.AddrValidate.Validity.{Quiet-trans}
use strict_pprof_rs.AddrValidate.Create.{Flags, FlagCalls, Step, then_on, set_flags, create_pipe}
use strict_pprof_rs.AddrValidate.Create.Attempts.{
  FlagLaws, Kept, Attempts, FcntlFails, flagged, set_flags-Attempts,
}

module _ {S : Type 0} {pipe_calls : Calls S} (view : View pipe_calls) {fd_flags o_flags : Flags}
    (calls : FlagCalls S fd_flags o_flags) where
  open calls use {pipe, get_fd, set_fd, get_fl, set_fl}
  open view use {IsPipe, held}

  module _ (laws : FlagLaws view calls) where
    open laws use {flags_of}

    -- A new pipe is open and empty.
    abbrev pub IsMade : S → ℤ → ℤ → S → Type 0
    IsMade s r w s' = Creates view s (ok (r, w), s')

    -- The pipe that `pipe` has made, with both kinds of flags on both ends; or an error: that of `pipe`,
    -- and nothing has been opened, or that of a call of `fcntl` on one of the ends of the pipe that
    -- has been made, which stays open.
    abbrev pub Created : S → Result Errno (ℤ × ℤ) × S → Type 0
    Created s (ok (r, w), s') =
        (t : S) × (pipe s ≡ (ok (r, w), t))
        × IsMade s r w s'
        × (flags_of r s' ≡ flagged view calls laws (flags_of r t))
        × (flags_of w s' ≡ flagged view calls laws (flags_of w t))
    Created s (err e, s') =
        (pipe s ≡ (err e, s')) × Creates view s (err e, s')
        ⊎ (r : ℤ) × (w : ℤ) × (t : S) × (pipe s ≡ (ok (r, w), t))
          × (FcntlFails view calls r e s' ⊎ FcntlFails view calls w e s')
          × IsMade s r w s'

    IsMade-Kept : (r w : ℤ) (s t u : S) → IsMade s r w t → Kept view calls t u → IsMade s r w u
    IsMade-Kept r w s t u (there, empty, quiet) (pipes, quiet') =
        let (there', same) = pipes (record { read_fd = r; write_fd = w }) there in
        (there', same ∙ empty, Quiet-trans view s t u quiet quiet')

    -- `create_pipe` never panics where the system knows the bits of its flags. What it makes is what
    -- `pipe2` makes on Linux, with both flags set on both ends and the others as `pipe` has set them. It
    -- is an error only if `pipe` fails, and nothing is open then, or if `fcntl` fails on one of the ends:
    -- then that is the error, and the pipe that has been made stays open.
    pub create_pipe-Created : (s : S) → Returns (create_pipe calls s) (Created s)
    unfolding create_pipe
    create_pipe-Created s = by_pipe (pipe s) refl (laws.pipe_creates s)
      where
        by_write :
            (r w : ℤ) (t u : S) (x : Step calls)
            → pipe s ≡ (ok (r, w), t)
            → IsMade s r w u
            → flags_of r u ≡ flagged view calls laws (flags_of r t)
            → flags_of w u ≡ flags_of w t
            → r ≢ w
            → Attempts view calls flags_of w (flagged view calls laws (flags_of w u)) u x
            → Returns
                (then_on calls x (λ e t'. returns (err e, t')) (λ _ t'. returns (ok (r, w), t')))
                (Created s)
        by_write r w t u (ok _, v) piped made set unset ne (now, others, kept) = (
          (ok (r, w), v),
          refl,
          (
            t,
            piped,
            IsMade-Kept r w s u v made kept,
            others r ne ∙ set,
            now ∙ ap (flagged view calls laws) unset,
          ),
        )
        by_write r w t u (err e, v) piped made set unset ne (kept, failed) =
            ((err e, v), refl, inr (r, w, t, piped, inr failed, IsMade-Kept r w s u v made kept))

        by_read :
            (r w : ℤ) (t : S) (x : Step calls)
            → pipe s ≡ (ok (r, w), t)
            → IsMade s r w t
            → Attempts view calls flags_of r (flagged view calls laws (flags_of r t)) t x
            → Returns
                (then_on calls x
                  (λ e t'. returns (err e, t'))
                  (λ _ t'. set_flags calls w t' >>= λ y.
                    then_on calls y (λ e u. returns (err e, u)) (λ _ u. returns (ok (r, w), u))))
                (Created s)
        by_read r w t (err e, u) piped made (kept, failed) =
            ((err e, u), refl, inr (r, w, t, piped, inl failed, IsMade-Kept r w s t u made kept))
        by_read r w t (ok _, u) piped made (now, others, kept) =
            let (x, run, attempts) = set_flags-Attempts view calls laws w u in
            let ne : r ≢ w = laws.differ (record { read_fd = r; write_fd = w }) t made.0 in
            rw run (
              by_write r w t u x piped (IsMade-Kept r w s t u made kept) now
                (others w (λ e. ne (sym e))) ne attempts)

        by_pipe :
            (x : Result Errno (ℤ × ℤ) × S)
            → pipe s ≡ x
            → Creates view s x
            → Returns
                (then_on calls x
                  (λ e s'. returns (err e, s'))
                  (λ fds s'. set_flags calls fds.0 s' >>= λ y.
                    then_on calls y
                      (λ e u. returns (err e, u))
                      (λ _ u. set_flags calls fds.1 u >>= λ z.
                        then_on calls z (λ e v. returns (err e, v)) (λ _ v. returns (ok fds, v)))))
                (Created s)
        by_pipe (err e, t) piped made = ((err e, t), refl, inl (piped, made))
        by_pipe (ok (r, w), t) piped made =
            let (x, run, attempts) = set_flags-Attempts view calls laws r t in
            rw run (by_read r w t x piped made attempts)
