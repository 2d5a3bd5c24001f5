-- ===== src/AddrValidate/Validity.antt =====
-- `validate` and `open_pipe` of src/addr_validate.rs over any system whose calls keep the laws of a pipe.
use strict_pprof_rs.Base.{
  ℕ, zero, suc, ◌≤◌, ◌<◌, ◌≡◌, ◌⊎◌, inl, inr, refl, sym, subst, ◌∙◌, Bool, false, List, [], ◌∷◌,
  map, arith, Result, ok, err, Run, returns, Returns, ◌>>=◌, ◌==◌,
}
use strict_pprof_rs.Base.Int.{ℤ}
use strict_pprof_rs.AddrValidate.{
  Errno, Pipes, mem_validate_pipe, Calls, close_both, store_pipe, open_pipe, write_to, validate,
  read_loop,
}
use strict_pprof_rs.AddrValidate.Pipe.{
  View, Laws, Reads, Quiet, Creates, read_loop-Emptied, write_loop-Written,
}

module _ {S : Type 0} {calls : Calls S} (view : View calls) where
  open calls use {close, pipe2, read}
  open view use {IsPipe, held, interrupts, readable}

  -- Before the first use there is no pipe; afterwards it holds one check's bytes at most.
  abbrev pub IsSound : Pipes → S → Type 0
  IsSound p s = IsPipe p s × (held p s ≤ 16) ⊎ (p ≡ mem_validate_pipe)

  -- No pipe before and after.
  abbrev pub IsUnused : Pipes → Pipes → Type 0
  IsUnused p p' = (p ≡ mem_validate_pipe) × (p' ≡ mem_validate_pipe)

  -- A call of `pipe2` has failed, and nothing was called after it.
  abbrev pub Unopened : S → S → Type 0
  Unopened s s' = (t : S) × Quiet view s t × (e : Errno) × (pipe2 t ≡ (err e, s'))

  -- The right answer and an open pipe, which only the null address can do without; or false, after a
  -- call of `pipe2` that failed, and still no pipe.
  abbrev pub Validated : Pipes → S → ℕ → Bool × (Pipes × S) → Type 0
  Validated p s addr (b, (p', s')) =
      ((b ≡ readable s addr) × (IsPipe p' s' × (held p' s' ≤ 16) ⊎ (addr ≡ 0) × IsUnused p p')
        ⊎ (b ≡ false) × IsUnused p p' × Unopened s s')
      × Quiet view s s'

  pub Quiet-trans : (s t u : S) → Quiet view s t → Quiet view t u → Quiet view s u
  Quiet-trans s t u (same, less) (same', less') =
      ((λ a. same' a ∙ same a), omega (arith, less, less'))

  -- What `open_pipe` has done, by how it ended.
  abbrev pub Opens : Pipes → Result Errno (Unit {0}) × (Pipes × S) → Type 0
  Opens p (ok _, (p', s')) = IsPipe p' s' × (held p' s' ≡ 0)
  Opens p (err e, (p', s')) = (p' ≡ p) × ¬ IsPipe p' s'

  -- A row of addresses, validated one after the other.
  abbrev pub validate_all : ℕ → List ℕ → Pipes × S → Run (List Bool × (Pipes × S))
  validate_all fuel [] w = returns ([], w)
  validate_all fuel (addr ∷ addrs) w = validate calls fuel addr w >>= λ (b, w').
      validate_all fuel addrs w' >>= λ (bs, w''). returns (b ∷ bs, w'')

  module _ (laws : Laws view) where
    -- An open pipe, emptied or new, is written to.
    write_to-Validated :
        (fuel : ℕ) (p0 p : Pipes) (s0 s : S) (addr : ℕ)
        → IsPipe p s
        → held p s ≡ 0
        → Quiet view s0 s
        → interrupts s0 < fuel
        → Returns (write_to calls fuel addr (ok tt, (p, s))) (Validated p0 s0 addr)
    write_to-Validated fuel p0 p s0 s addr there empty (same, less) h =
        let ((b, t), ran, (right, there_t, few, quiet)) =
          write_loop-Written view laws fuel p s addr there empty (omega (arith, less)) in
        rw ran (
          (b, (p, t)),
          refl,
          (inl (right ∙ same addr, inl (there_t, few)), Quiet-trans s0 s t (same, less) quiet),
        )

    close_both-Quiet : (p : Pipes) (s : S) → Quiet view s (close_both calls p s)
    close_both-Quiet p s =
        Quiet-trans s (close p.read_fd s).1 (close_both calls p s) (laws.close_quiet p.read_fd s)
          (laws.close_quiet p.write_fd (close p.read_fd s).1)

    reopened-Validated :
        (fuel : ℕ) (s0 s : S) (addr : ℕ)
        → Quiet view s0 s
        → interrupts s0 < fuel
        → (r : Result Errno (ℤ × ℤ) × S) → pipe2 s ≡ r
        → Creates view s r
        → Returns
            (write_to calls fuel addr (store_pipe calls mem_validate_pipe r))
            (Validated mem_validate_pipe s0 addr)
    reopened-Validated fuel s0 s addr quiet h (ok (r, w), s') made (there, empty, quiet') =
        write_to-Validated fuel mem_validate_pipe (record { read_fd = r; write_fd = w }) s0 s' addr
          there empty (Quiet-trans s0 s s' quiet quiet') h
    reopened-Validated fuel s0 s addr quiet h (err e, s') failed (_, quiet') = (
      (false, (mem_validate_pipe, s')),
      refl,
      (inr (refl, (refl, refl), (s, quiet, e, failed)), Quiet-trans s0 s s' quiet quiet'),
    )

    -- With a pipe, or before the first use, and enough fuel for the interrupts to come, `validate`
    -- answers, and it leaves at most one check's bytes in the pipe. The answer is whether the address is
    -- readable, and the pipe is open then, unless it was not and the address is null; or `pipe2` has
    -- failed, and the answer is false.
    pub validate-Validated :
        (fuel addr : ℕ) (p : Pipes) (s : S)
        → IsSound p s
        → interrupts s < fuel
        → Returns (validate calls fuel addr (p, s)) (Validated p s addr)
    unfolding validate open_pipe read_loop
    validate-Validated fuel zero p s (inl (there, few)) h = (
      (false, (p, s)),
      refl,
      (inl (sym (laws.readable_null s), inl (there, few)), ((λ a. refl), omega arith)),
    )
    validate-Validated fuel zero p s (inr unused) h = (
      (false, (p, s)),
      refl,
      (inl (sym (laws.readable_null s), inr (refl, (unused, unused))), ((λ a. refl), omega arith)),
    )
    validate-Validated fuel (suc addr) p s (inl (there, few)) h =
        let not_null : (suc addr == 0) ≡ false = ground arith in
        let ((b, t), ran, (open_yet, there_t, empty, quiet)) =
          read_loop-Emptied view laws fuel p s there few h in
        rw (not_null, ran, open_yet)
          (write_to-Validated fuel p p s t (suc addr) there_t empty quiet h)
    validate-Validated zero (suc addr) p s (inr unused) h = absurd (omega arith)
    validate-Validated (suc fuel) (suc addr) p s (inr unused) h =
        let not_null : (suc addr == 0) ≡ false = ground arith in
        let (e, t, called, quiet) = laws.read_negative 0 s in
        rw (unused, not_null, called)
          (reopened-Validated (suc fuel) s (close_both calls mem_validate_pipe t) (suc addr)
            (Quiet-trans s t (close_both calls mem_validate_pipe t) quiet
              (close_both-Quiet mem_validate_pipe t))
            h (pipe2 (close_both calls mem_validate_pipe t)) refl
            (laws.creates (close_both calls mem_validate_pipe t)))

    store_pipe-Opens :
        (p : Pipes) (s : S) (r : Result Errno (ℤ × ℤ) × S)
        → ¬ IsPipe p s
        → Creates view s r
        → Opens p (store_pipe calls p r)
    store_pipe-Opens p s (ok (r, w), s') closed (there, empty, quiet) = (there, empty)
    store_pipe-Opens p s (err e, s') closed (none_new, quiet) = (refl, none_new p closed)

    -- From whatever state, `open_pipe` leaves a new and empty pipe, or it fails: then the descriptors are
    -- still stored, though they have been closed and are no pipe any more.
    pub open_pipe-Opens : (p : Pipes) (s : S) → Opens p (open_pipe calls p s)
    unfolding open_pipe
    open_pipe-Opens p s =
        store_pipe-Opens p (close_both calls p s) (pipe2 (close_both calls p s))
          (laws.close_other p (close p.read_fd s).1 p.write_fd (laws.close_read p s))
          (laws.creates (close_both calls p s))

    -- A pipe has no negative descriptors.
    pub used : (s : S) → ¬ IsPipe mem_validate_pipe s
    used s there =
        let (e, t, called, quiet) = laws.read_negative 0 s in
        subst (Reads view mem_validate_pipe s) called (laws.reads mem_validate_pipe s there)

    readable-map :
        (s s' : S) (addrs : List ℕ)
        → ((a : ℕ) → readable s' a ≡ readable s a)
        → map (readable s') addrs ≡ map (readable s) addrs
    readable-map s s' [] same = refl
    readable-map s s' (addr ∷ addrs) same = rw (same addr, readable-map s s' addrs same) refl

    -- From an open pipe with at most one check's bytes in it, and with fuel for the interrupts to come,
    -- any number of addresses can be validated one after the other: each call answers, each answer is
    -- whether its address was readable at the start, and the pipe never holds more than that.
    pub validate_all-readable :
        (fuel : ℕ) (addrs : List ℕ) (p : Pipes) (s : S)
        → IsPipe p s
        → held p s ≤ 16
        → interrupts s < fuel
        → Returns
            (validate_all fuel addrs (p, s))
            (λ (bs, (p', s')). (bs ≡ map (readable s) addrs) × IsPipe p' s' × (held p' s' ≤ 16))
    validate_all-readable fuel [] p s there few h = (([], (p, s)), refl, (refl, there, few))
    validate_all-readable fuel (addr ∷ addrs) p s there few h =
        by_answer (validate-Validated fuel addr p s (inl (there, few)) h)
          (λ p' s' there' few' h'. validate_all-readable fuel addrs p' s' there' few' h')
      where
        by_answer :
            Returns (validate calls fuel addr (p, s)) (Validated p s addr)
            → ((p' : Pipes) (s' : S)
                → IsPipe p' s'
                → held p' s' ≤ 16
                → interrupts s' < fuel
                → Returns (validate_all fuel addrs (p', s')) (λ (bs, (p'', s'')).
                  (bs ≡ map (readable s') addrs) × IsPipe p'' s'' × (held p'' s'' ≤ 16)))
            → Returns (validate_all fuel (addr ∷ addrs) (p, s)) (λ (bs, (p', s')).
              (bs ≡ map (readable s) (addr ∷ addrs)) × IsPipe p' s' × (held p' s' ≤ 16))
        by_answer ((b, (p', s')), ran, (inr (_, (unused, _), _), quiet)) rest =
            absurd (used s (subst (λ q. IsPipe q s) unused there))
        by_answer ((b, (p', s')), ran, (inl (_, inr (_, (unused, _))), quiet)) rest =
            absurd (used s (subst (λ q. IsPipe q s) unused there))
        by_answer ((b, (p', s')), ran, (inl (right, inl (there', few')), (same, less))) rest =
            let ((bs, w), ran', (all_right, there'', few'')) =
              rest p' s' there' few' (omega (arith, h, less)) in
            rw (ran, ran')
              (
                (b ∷ bs, w),
                refl,
                (rw (right, all_right, readable-map s s' addrs same) refl, there'', few''),
              )
