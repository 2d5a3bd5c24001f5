-- ===== src/AddrValidate/Create/Attempts.antt =====
-- What `fcntl` documents, and what `set_flags` of src/addr_validate.rs makes of it: the flags of one
-- descriptor are set, or one of the calls has failed.
use strict_pprof_rs.Base.{
  ℕ, ◌≡◌, ◌≢◌, refl, sym, ◌∙◌, subst, ◌⊎◌, inl, inr, Option, some, arith, Result, ok, err, Returns,
  returns,
}
use strict_pprof_rs.Base.Int.{ℤ}
use strict_pprof_rs.AddrValidate.{Errno, Pipes, Calls}
use strict_pprof_rs.AddrValidate.Pipe.{View, Quiet, Creates}
use strict_pprof_rs.AddrValidate.Validity.{Quiet-trans}
use strict_pprof_rs.AddrValidate.Create.{Flags, FlagCalls, Step, then_on, set_status, set_flags}

module _ {S : Type 0} {pipe_calls : Calls S} (view : View pipe_calls) {fd_flags o_flags : Flags}
    (calls : FlagCalls S fd_flags o_flags) where
  open calls use {pipe, get_fd, set_fd, get_fl, set_fl}
  open view use {IsPipe, held}

  abbrev pub Both : Type 0
  Both = fd_flags.Flag × o_flags.Flag

  -- Open pipes are as they were.
  abbrev pub Kept : S → S → Type 0
  Kept s s' = ((p : Pipes) → IsPipe p s → IsPipe p s' × (held p s' ≡ held p s)) × Quiet view s s'

  -- A read of flags that are all known, or a call that fails, changes nothing.
  abbrev pub Gets : {A : Type 0} → (ℕ → Option A) → A → S → Result Errno ℕ × S → Type 0
  Gets from_bits flag s (ok bits, s') = (from_bits bits ≡ some flag) × (s' ≡ s)
  Gets from_bits flag s (err e, s') = s' ≡ s

  -- The flags of `fd` are set, and no others.
  abbrev pub Changed : (ℤ → S → Both) → ℤ → Both → S → S → Type 0
  Changed flags_of fd flags s s' =
      (flags_of fd s' ≡ flags)
      × ((other : ℤ) → other ≢ fd → flags_of other s' ≡ flags_of other s)
      × Kept s s'

  abbrev pub Sets : (ℤ → S → Both) → ℤ → Both → S → Result Errno (Unit {0}) × S → Type 0
  Sets flags_of fd flags s (ok _, s') = Changed flags_of fd flags s s'
  Sets flags_of fd flags s (err e, s') = Kept s s'

  -- A call of `fcntl` on `fd` has failed, and nothing was called after it.
  abbrev pub FcntlFails : ℤ → Errno → S → Type 0
  FcntlFails fd e s' =
      (t : S) × ((get_fd fd t ≡ (err e, s'))
        ⊎ ((get_fl fd t ≡ (err e, s'))
            ⊎ (((f : fd_flags.Flag) × (set_fd fd f t ≡ (err e, s')))
                ⊎ (f : o_flags.Flag) × (set_fl fd f t ≡ (err e, s')))))

  -- The flags of `fd` are set, or `fcntl` has failed on it.
  abbrev pub Attempts : (ℤ → S → Both) → ℤ → Both → S → Result Errno (Unit {0}) × S → Type 0
  Attempts flags_of fd flags s (ok _, s') = Changed flags_of fd flags s s'
  Attempts flags_of fd flags s (err e, s') = Kept s s' × FcntlFails fd e s'

  -- What `pipe` and `fcntl` document.
  pub record FlagLaws : Type 0 where
    pub flags_of : ℤ → S → Both
    pub pipe_creates : (s : S) → Creates view s (pipe s)
    pub differ : (p : Pipes) (s : S) → IsPipe p s → p.read_fd ≢ p.write_fd
    pub gets_fd : (fd : ℤ) (s : S) → Gets fd_flags.from_bits (flags_of fd s).0 s (get_fd fd s)
    pub gets_fl : (fd : ℤ) (s : S) → Gets o_flags.from_bits (flags_of fd s).1 s (get_fl fd s)
    pub sets_fd :
        (fd : ℤ) (f : fd_flags.Flag) (s : S)
        → Sets flags_of fd (f, (flags_of fd s).1) s (set_fd fd f s)
    pub sets_fl :
        (fd : ℤ) (f : o_flags.Flag) (s : S)
        → Sets flags_of fd ((flags_of fd s).0, f) s (set_fl fd f s)

  pub Kept-trans : (s t u : S) → Kept s t → Kept t u → Kept s u
  Kept-trans s t u (pipes, quiet) (pipes', quiet') = (
    λ p there.
        let (there', same) = pipes p there in
        let (there'', same') = pipes' p there' in (there'', same' ∙ same),
    Quiet-trans view s t u quiet quiet',
  )

  Kept-refl : (s : S) → Kept s s
  Kept-refl s = (λ p there. (there, refl), ((λ a. refl), omega arith))

  module _ (laws : FlagLaws) where
    open laws use {flags_of}

    abbrev pub flagged : Both → Both
    flagged (f, o) = (fd_flags.insert f fd_flags.wanted, o_flags.insert o o_flags.wanted)

    set_fl-Attempts :
        (fd : ℤ) (f : o_flags.Flag) (s : S) (r : Step calls)
        → set_fl fd f s ≡ r
        → Sets flags_of fd ((flags_of fd s).0, f) s r
        → Attempts flags_of fd ((flags_of fd s).0, f) s r
    set_fl-Attempts fd f s (ok _, s') run sets = sets
    set_fl-Attempts fd f s (err e, s') run kept = (kept, (s, inr (inr (inr (f, run)))))

    set_status-Attempts :
        (fd : ℤ) (s : S)
        → Returns (set_status calls fd s) (
            Attempts flags_of fd
              ((flags_of fd s).0, o_flags.insert (flags_of fd s).1 o_flags.wanted)
              s)
    unfolding set_status
    set_status-Attempts fd s = by_got (get_fl fd s) refl (laws.gets_fl fd s)
      where
        new : o_flags.Flag
        new = o_flags.insert (flags_of fd s).1 o_flags.wanted

        by_got :
            (r : Result Errno ℕ × S)
            → get_fl fd s ≡ r
            → Gets o_flags.from_bits (flags_of fd s).1 s r
            → Returns (set_status calls fd s) (Attempts flags_of fd ((flags_of fd s).0, new) s)
        by_got (err e, s') got same = (
          (err e, s'),
          rw got refl,
          (subst (λ t. Kept s t) (sym same) (Kept-refl s), (s, inr (inl got))),
        )
        by_got (ok bits, s') got (known, same) = (
          set_fl fd new s,
          rw (got, known, same) refl,
          set_fl-Attempts fd new s (set_fl fd new s) refl (laws.sets_fl fd new s),
        )

    -- After the first kind of flags, the second.
    Attempts-then :
        (fd : ℤ) (s t : S) (f : fd_flags.Flag) (r : Step calls)
        → Changed flags_of fd (f, (flags_of fd s).1) s t
        → Attempts flags_of fd
            ((flags_of fd t).0, o_flags.insert (flags_of fd t).1 o_flags.wanted)
            t
            r
        → Attempts flags_of fd (f, o_flags.insert (flags_of fd s).1 o_flags.wanted) s r
    Attempts-then fd s t f (ok _, u) (now, others, kept) (now', others', kept') = (
      now' ∙ (λ i. ((now i).0, o_flags.insert (now i).1 o_flags.wanted)),
      λ other ne. others' other ne ∙ others other ne,
      Kept-trans s t u kept kept',
    )
    Attempts-then fd s t f (err e, u) (now, others, kept) (kept', failed) =
        (Kept-trans s t u kept kept', failed)

    pub set_flags-Attempts :
        (fd : ℤ) (s : S)
        → Returns (set_flags calls fd s) (Attempts flags_of fd (flagged (flags_of fd s)) s)
    unfolding set_flags
    set_flags-Attempts fd s = by_got (get_fd fd s) refl (laws.gets_fd fd s)
      where
        new : fd_flags.Flag
        new = fd_flags.insert (flags_of fd s).0 fd_flags.wanted

        by_set :
            (r : Step calls)
            → set_fd fd new s ≡ r
            → Sets flags_of fd (new, (flags_of fd s).1) s r
            → Returns
                (then_on calls r (λ e s''. returns (err e, s'')) (λ _ s''. set_status calls fd s''))
                (Attempts flags_of fd (flagged (flags_of fd s)) s)
        by_set (err e, t) run kept = ((err e, t), refl, (kept, (s, inr (inr (inl (new, run))))))
        by_set (ok _, t) run changed =
            let (r, ran, attempts) = set_status-Attempts fd t in
            (r, ran, Attempts-then fd s t new r changed attempts)

        by_got :
            (r : Result Errno ℕ × S)
            → get_fd fd s ≡ r
            → Gets fd_flags.from_bits (flags_of fd s).0 s r
            → Returns (set_flags calls fd s) (Attempts flags_of fd (flagged (flags_of fd s)) s)
        by_got (err e, s') got same = (
          (err e, s'),
          rw got refl,
          (subst (λ t. Kept s t) (sym same) (Kept-refl s), (s, inl got)),
        )
        by_got (ok bits, s') got (known, same) =
            rw (got, known, same) (by_set (set_fd fd new s) refl (laws.sets_fd fd new s))
