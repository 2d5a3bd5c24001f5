-- ===== src/AddrValidate/Pipe.antt =====
-- The pipe of src/addr_validate.rs: what the system calls document of a pipe, and what validation makes
-- of it.
use strict_pprof_rs.Base.{
  ℕ, zero, suc, ◌+◌, ◌≤◌, ◌<◌, ◌≡◌, ◌⊎◌, refl, sym, ◌∙◌, Bool, true, false, arith, Result, ok, err,
  Run, Returns, Returns-map, ltb,
}
use strict_pprof_rs.Base.Int.{ℤ, negsuc}
use strict_pprof_rs.AddrValidate.{
  Errno, eintr, eagain, other, Pipes, Calls, read_loop, on_read, on_write, write_loop,
}

-- What the calls document. `IsPipe` holds of two descriptors that are the ends of one open pipe, `held`
-- is the number of bytes in it, and `interrupts` the number of calls that signals will still interrupt.
-- `readable` holds of an address with `CHECK_LENGTH` bytes of readable memory.
pub record View {S : Type 0} (calls : Calls S) : Type 1 where
  pub IsPipe : Pipes → S → Type 0
  pub held : Pipes → S → ℕ
  pub interrupts : S → ℕ
  pub readable : S → ℕ → Bool
  pub capacity : ℕ

module _ {S : Type 0} {calls : Calls S} (view : View calls) where
  open calls use {close, pipe2, read, write}
  open view use {IsPipe, held, interrupts, readable, capacity}

  -- A call has left the memory alone and brought no interrupts.
  abbrev pub Quiet : S → S → Type 0
  Quiet s s' = ((a : ℕ) → readable s' a ≡ readable s a) × (interrupts s' ≤ interrupts s)

  -- An open pipe is as it was, and one interrupt is over.
  abbrev pub Interrupted : Pipes → S → S → Type 0
  Interrupted p s s' =
      IsPipe p s'
      × (held p s' ≡ held p s)
      × (interrupts s' < interrupts s)
      × ((a : ℕ) → readable s' a ≡ readable s a)

  -- A read takes what is there, at most a buffer of it, or finds the pipe empty.
  abbrev pub Reads : Pipes → S → Result Errno ℕ × S → Type 0
  Reads p s (ok n, s') =
      IsPipe p s' × (0 < n) × (held p s ≡ n + held p s') × ((n ≡ 16) ⊎ (held p s' ≡ 0)) × Quiet s s'
  Reads p s (err eintr, s') = Interrupted p s s'
  Reads p s (err eagain, s') = IsPipe p s' × (held p s ≡ 0) × (held p s' ≡ 0) × Quiet s s'
  Reads p s (err (other e), s') = ⊥

  -- A write puts all bytes into the pipe, or none: if there is no room, or the address is bad.
  abbrev pub Writes : Pipes → S → ℕ → Result Errno ℕ × S → Type 0
  Writes p s addr (ok n, s') =
      IsPipe p s' × (n ≡ 16) × (held p s' ≡ held p s + 16) × (readable s addr ≡ true) × Quiet s s'
  Writes p s addr (err eintr, s') = Interrupted p s s'
  Writes p s addr (err eagain, s') = (capacity < held p s + 16) × Quiet s s'
  Writes p s addr (err (other e), s') =
      IsPipe p s' × (held p s' ≡ held p s) × (readable s addr ≡ false) × Quiet s s'

  -- A new pipe is empty. A call that fails opens nothing.
  abbrev pub Creates : S → Result Errno (ℤ × ℤ) × S → Type 0
  Creates s (ok (r, w), s') =
      IsPipe (record { read_fd = r; write_fd = w }) s'
      × (held (record { read_fd = r; write_fd = w }) s' ≡ 0)
      × Quiet s s'
  Creates s (err e, s') = ((p : Pipes) → ¬ IsPipe p s → ¬ IsPipe p s') × Quiet s s'

  pub record Laws : Type 0 where
    pub capacity_lem : 512 ≤ capacity
    pub readable_null : (s : S) → readable s 0 ≡ false
    pub reads : (p : Pipes) (s : S) → IsPipe p s → Reads p s (read p.read_fd s)
    pub writes :
        (p : Pipes) (s : S) (addr : ℕ) → IsPipe p s → Writes p s addr (write p.write_fd addr s)
    pub creates : (s : S) → Creates s (pipe2 s)
    pub close_quiet : (fd : ℤ) (s : S) → Quiet s (close fd s).1
    -- A pipe with a closed end is none.
    pub close_read : (p : Pipes) (s : S) → ¬ IsPipe p (close p.read_fd s).1
    pub close_other : (p : Pipes) (s : S) (fd : ℤ) → ¬ IsPipe p s → ¬ IsPipe p (close fd s).1
    -- A negative descriptor is open nowhere.
    pub read_negative :
        (n : ℕ) (s : S)
        → (e : ℕ) × (s' : S) × (read (negsuc n) s ≡ (err (other e), s')) × Quiet s s'

  -- The first loop's answer, with the pipe that it leaves.
  abbrev pub Emptied : Pipes → S → Bool × S → Type 0
  Emptied p s (b, s') = (b ≡ true) × IsPipe p s' × (held p s' ≡ 0) × Quiet s s'

  Emptied-Interrupted :
      (p : Pipes) (s s' : S) (x : Bool × S) → Interrupted p s s' → Emptied p s' x → Emptied p s x
  Emptied-Interrupted p s s' (b, t) (_, _, less, still) (right, there, empty, (same, no_more)) =
      (right, there, empty, ((λ a. same a ∙ still a), omega (arith, less, no_more)))

  on_read-Emptied :
      (again : S → Run (Bool × S)) (p : Pipes) (s : S)
      → held p s ≤ 16
      → ((s' : S) → Interrupted p s s' → Returns (again s') (Emptied p s'))
      → (r : Result Errno ℕ × S) → Reads p s r
      → Returns (on_read calls again r) (Emptied p s)
  on_read-Emptied again p s few rest (ok n, s') (there, some_bytes, sum, all, quiet) = (
    (ltb 0 n, s'),
    refl,
    (ground (arith, some_bytes), there, ground (arith, sum, all, few), quiet),
  )
  on_read-Emptied again p s few rest (err eintr, s') h =
      Returns-map (again s') (λ x. Emptied-Interrupted p s s' x h) (rest s' h)
  on_read-Emptied again p s few rest (err eagain, s') (there, was, empty, quiet) =
      ((true, s'), refl, (refl, there, empty, quiet))
  on_read-Emptied again p s few rest (err (other e), s') h = absurd h

  -- The second loop's answer.
  abbrev pub Written : Pipes → S → ℕ → Bool × S → Type 0
  Written p s addr (b, s') = (b ≡ readable s addr) × IsPipe p s' × (held p s' ≤ 16) × Quiet s s'

  Written-Interrupted :
      (p : Pipes) (s s' : S) (addr : ℕ) (x : Bool × S)
      → Interrupted p s s'
      → Written p s' addr x
      → Written p s addr x
  Written-Interrupted p s s' addr (b, t) (_, _, less, still) (right, there, few, (same, no_more)) =
      (right ∙ still addr, there, few, ((λ a. same a ∙ still a), omega (arith, less, no_more)))

  on_write-Written :
      (again : S → Run (Bool × S)) (p : Pipes) (s : S) (addr : ℕ)
      → 16 ≤ capacity
      → held p s ≡ 0
      → ((s' : S) → Interrupted p s s' → Returns (again s') (Written p s' addr))
      → (r : Result Errno ℕ × S) → Writes p s addr r
      → Returns (on_write calls again r) (Written p s addr)
  on_write-Written again p s addr room empty rest (ok n, s') (there, whole, sum, good, quiet) =
      ((ltb 0 n, s'), refl, (rw (whole, good) refl, there, omega (arith, sum, empty), quiet))
  on_write-Written again p s addr room empty rest (err eintr, s') h =
      Returns-map (again s') (λ x. Written-Interrupted p s s' addr x h) (rest s' h)
  on_write-Written again p s addr room empty rest (err eagain, s') (full, quiet) =
      absurd (omega (arith, full, room, empty))
  on_write-Written again p s addr room empty rest (err (other e), s') (there, same, bad, quiet) =
      ((false, s'), refl, (sym bad, there, omega (arith, same, empty), quiet))

  module _ (laws : Laws) where
    -- The first loop empties the pipe, if no more is in it than one write puts there.
    pub read_loop-Emptied :
        (fuel : ℕ) (p : Pipes) (s : S)
        → IsPipe p s
        → held p s ≤ 16
        → interrupts s < fuel
        → Returns (read_loop calls fuel p.read_fd s) (Emptied p s)
    unfolding read_loop
    read_loop-Emptied zero p s there few h = absurd (omega arith)
    read_loop-Emptied (suc fuel) p s there few h =
        on_read-Emptied (read_loop calls fuel p.read_fd) p s few
          (λ s' (there', same, less, still).
            read_loop-Emptied fuel p s' there' (omega (arith, same)) (omega (arith, less)))
          (read p.read_fd s) (laws.reads p s there)

    -- The second loop tells whether the address is readable, if the pipe is empty.
    pub write_loop-Written :
        (fuel : ℕ) (p : Pipes) (s : S) (addr : ℕ)
        → IsPipe p s
        → held p s ≡ 0
        → interrupts s < fuel
        → Returns (write_loop calls fuel p.write_fd addr s) (Written p s addr)
    unfolding write_loop
    write_loop-Written zero p s addr there empty h = absurd (omega arith)
    write_loop-Written (suc fuel) p s addr there empty h =
        on_write-Written (write_loop calls fuel p.write_fd addr) p s addr
          (omega (arith, laws.capacity_lem)) empty
          (λ s' (there', same, less, still).
            write_loop-Written fuel p s' addr there' (same ∙ empty) (omega (arith, less)))
          (write p.write_fd addr s) (laws.writes p s addr there)
