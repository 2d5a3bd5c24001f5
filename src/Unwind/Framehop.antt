-- ===== src/Unwind/Framehop.antt =====
-- The unwinder of src/backtrace/framehop_unwinder.rs and its shlib.rs, which walks with the crate
-- framehop: the registers it starts from, what it may read of the stack, and the loop over its frames.
use strict_pprof_rs.Base.{
  ℕ, zero, suc, ◌+◌, ◌*◌, ◌/◌, ◌≤◌, ◌<◌, ◌≡◌, inl, inr, refl, Bool, true, List, [], ◌∷◌, arith, Run,
  returns, diverges, Returns, ap, ◌>>=◌, if◌then◌else◌, Bool-cases, Option, none, some, Result, ok,
  err,
}
use strict_pprof_rs.Unwind.Feed.{feed}

-- The platforms that the registers are read on.
pub data Target : Type 0 where
  linux_x86_64 linux_aarch64 macos_x86_64 macos_aarch64 : Target

-- The registers of a signal context, by their role: on x86_64 the instruction, stack and base pointers,
-- on aarch64 `pc`, `sp` and `regs[29]`, with the link register `regs[30]`.
pub record Registers : Type 0 where
  pub pc : ℕ
  pub sp : ℕ
  pub fp : ℕ
  pub lr : ℕ

-- `UnwindRegsNative::new`, whose first argument is the instruction pointer on x86_64 and the link
-- register on aarch64.
pub record UnwindRegs : Type 0 where
  pub first : ℕ
  pub sp : ℕ
  pub fp : ℕ

-- `get_regs_from_context`. A null `ucontext` is `none`, and so is, on macOS, a null `uc_mcontext`.
unfoldable pub get_regs_from_context : Target → Option (Option Registers) → Option (UnwindRegs × ℕ)
get_regs_from_context target none = none
get_regs_from_context target (some none) = none
get_regs_from_context linux_x86_64 (some (some r)) =
    some (record { first = r.pc; sp = r.sp; fp = r.fp }, r.pc)
get_regs_from_context linux_aarch64 (some (some r)) =
    some (record { first = r.lr; sp = r.sp; fp = r.fp }, r.lr)
get_regs_from_context macos_x86_64 (some (some r)) =
    some (record { first = r.pc; sp = r.sp; fp = r.fp }, r.pc)
get_regs_from_context macos_aarch64 (some (some r)) =
    some (record { first = r.lr; sp = r.sp; fp = r.fp }, r.pc)

-- `addr & !0b111`
abbrev pub aligned : ℕ → ℕ
aligned addr = addr / 8 * 8

-- `read_stack`, with what `validate` accepts and what the memory holds.
unfoldable pub read_stack : (ℕ → Bool) → (ℕ → ℕ) → ℕ → Result (Unit {0}) ℕ
read_stack validate read addr = if validate (aligned addr) then ok (read (aligned addr)) else err tt

-- The crate's iterator over frames, which reads the stack by the closure that it is given.
pub record Frames (E : Type 0) : Type 1 where
  pub Unwinder : Type 0
  pub Iter : Type 0
  pub iter_frames : Unwinder → ℕ → UnwindRegs → Iter
  pub next : (ℕ → Result (Unit {0}) ℕ) → Iter → Result E (Option ℕ) × Iter
  -- The unwinder, of which the iterator has changed the cache.
  pub release : Iter → Unwinder

module _ {E : Type 0} (framehop : Frames E) (read : ℕ → Result (Unit {0}) ℕ) {S : Type 0}
    (cb : S → ℕ → Bool × S) where
  open framehop use {Unwinder, Iter, next, release}

  -- One round of the loop, by what `next` gave.
  abbrev pub round :
      (S → Iter → Run (S × Unwinder)) → S → Result E (Option ℕ) × Iter → Run (S × Unwinder)
  round again s (err e, it) = returns (s, release it)
  round again s (ok none, it) = returns (s, release it)
  round again s (ok (some ip), it) =
      let answer = cb s ip in if answer.0 then again answer.1 it else returns (answer.1, release it)

  -- The loop.
  unfoldable pub walk : ℕ → S → Iter → Run (S × Unwinder)
  walk zero s it = diverges
  walk (suc fuel) s it = round (walk fuel) s (next read it)

  abbrev pub from_registers : ℕ → S → Unwinder → Option (UnwindRegs × ℕ) → Run (S × Unwinder)
  from_registers fuel s u none = returns (s, u)
  from_registers fuel s u (some (regs, pc)) = walk fuel s (framehop.iter_frames u pc regs)

  -- `iter_frames`
  unfoldable pub iter_frames :
      Target → Option (Option Registers) → ℕ → S → Unwinder → Run (S × Unwinder)
  unfolding walk get_regs_from_context
  iter_frames target ctx fuel s u = from_registers fuel s u (get_regs_from_context target ctx)

  -- `trace`, with what `try_write` gave.
  unfoldable pub trace :
      Target → Option (Option Registers) → ℕ → S → Option Unwinder → Run (S × Option Unwinder)
  unfolding iter_frames
  trace target ctx fuel s none = returns (s, none)
  trace target ctx fuel s (some u) =
      iter_frames target ctx fuel s u >>= λ (s', u'). returns (s', some u')

  -- The first `n` addresses that the iterator gives.
  abbrev addresses_after : (Iter → List ℕ) → Result E (Option ℕ) × Iter → List ℕ
  addresses_after rest (err e, it) = []
  addresses_after rest (ok none, it) = []
  addresses_after rest (ok (some ip), it) = ip ∷ rest it

  abbrev pub addresses : ℕ → Iter → List ℕ
  addresses zero it = []
  addresses (suc n) it = addresses_after (addresses n) (next read it)

  module _ (budget : S → ℕ)
      (spends : (s : S) (ip : ℕ) → (cb s ip).0 ≡ true → budget (cb s ip).1 < budget s) where
    -- The callback's state after the walk.
    abbrev pub seen_from : S → Unwinder → Option (UnwindRegs × ℕ) → S
    seen_from s u none = s
    seen_from s u (some (regs, pc)) =
        feed cb s (addresses (budget s + 1) (framehop.iter_frames u pc regs))

    abbrev pub seen : Target → Option (Option Registers) → S → Option Unwinder → S
    seen target ctx s none = s
    seen target ctx s (some u) = seen_from s u (get_regs_from_context target ctx)

    round-feed :
        (n : ℕ) (again : S → Iter → Run (S × Unwinder)) (s : S)
        → ((s' : S) (it : Iter)
            → budget s' < budget s
            → (u : Unwinder) × (again s' it ≡ returns (feed cb s' (addresses n it), u)))
        → (r : Result E (Option ℕ) × Iter)
        → (u : Unwinder) × (round again s r
            ≡ returns (feed cb s (addresses_after (addresses n) r), u))
    round-feed n again s rest (err e, it) = (release it, refl)
    round-feed n again s rest (ok none, it) = (release it, refl)
    round-feed n again s rest (ok (some ip), it) = elim (Bool-cases (cb s ip).0) [
      | inl more ↦ let (u, ran) = rest (cb s ip).1 it (spends s ip more) in rw more (u, ran)
      | inr last ↦ rw last (release it, refl)
    ]

    walk-feed :
        (n fuel : ℕ) (s : S) (it : Iter)
        → budget s < n
        → n ≤ fuel
        → (u : Unwinder) × (walk fuel s it ≡ returns (feed cb s (addresses n it), u))
    unfolding walk
    walk-feed zero fuel s it h k = absurd (omega arith)
    walk-feed (suc n) zero s it h k = absurd (omega arith)
    walk-feed (suc n) (suc fuel) s it h k =
        round-feed n (walk fuel) s
          (λ s' it' less. walk-feed n fuel s' it' (omega (arith, less)) (omega arith))
          (next read it)

    from_registers-feed :
        (fuel : ℕ) (s : S) (u : Unwinder) (o : Option (UnwindRegs × ℕ))
        → budget s < fuel
        → (u' : Unwinder) × (from_registers fuel s u o ≡ returns (seen_from s u o, u'))
    from_registers-feed fuel s u none h = (u, refl)
    from_registers-feed fuel s u (some (regs, pc)) h =
        walk-feed (budget s + 1) fuel s (framehop.iter_frames u pc regs) (omega arith) (omega arith)

    -- A callback that answers true only so often as its budget allows ends the walk, whatever frames
    -- the crate gives: it has then seen the addresses of those frames, in order, up to its first false.
    -- Where there are no registers, or the lock is taken, it has seen nothing.
    pub trace-seen :
        (target : Target) (ctx : Option (Option Registers)) (fuel : ℕ) (s : S) (o : Option Unwinder)
        → budget s < fuel
        → Returns (trace target ctx fuel s o) (λ (s', o'). s' ≡ seen target ctx s o)
    unfolding trace iter_frames
    trace-seen target ctx fuel s none h = ((s, none), refl, refl)
    trace-seen target ctx fuel s (some u) h =
        let (u', ran) = from_registers-feed fuel s u (get_regs_from_context target ctx) h in
        ((seen_from s u (get_regs_from_context target ctx), some u'), rw ran refl, refl)

-- Two memories that agree wherever `validate` accepts a multiple of 8 are the same to `read_stack`.
read_stack-agree :
    (validate : ℕ → Bool) (read read' : ℕ → ℕ)
    → ((a : ℕ) → validate (a * 8) ≡ true → read (a * 8) ≡ read' (a * 8))
    → (addr : ℕ) → read_stack validate read addr ≡ read_stack validate read' addr
unfolding read_stack
read_stack-agree validate read read' same addr = elim (Bool-cases (validate (aligned addr))) [
  | inl good ↦ rw (good, same (addr / 8) good) refl
  | inr bad ↦ rw bad refl
]

-- The walk depends on the memory only where `validate` accepts a multiple of 8: with any other memory
-- that agrees there it gives the same, whatever the crate asks for.
pub trace-agree :
    {E : Type 0} (framehop : Frames E) {S : Type 0} (cb : S → ℕ → Bool × S) (validate : ℕ → Bool)
    (read read' : ℕ → ℕ)
    → ((a : ℕ) → validate (a * 8) ≡ true → read (a * 8) ≡ read' (a * 8))
    → (target : Target) (ctx : Option (Option Registers)) (fuel : ℕ) (s : S)
      (o : Option framehop.Unwinder)
    → trace framehop (read_stack validate read) cb target ctx fuel s o
      ≡ trace framehop (read_stack validate read') cb target ctx fuel s o
trace-agree framehop cb validate read read' same target ctx fuel s o =
    ap (λ r. trace framehop r cb target ctx fuel s o)
      (λ i addr. read_stack-agree validate read read' same addr i)
