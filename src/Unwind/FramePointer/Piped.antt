-- ===== src/Unwind/FramePointer/Piped.antt =====
-- `Trace::trace` of src/backtrace/frame_pointer.rs with the calls of `validate` that it makes, each of
-- which reads and writes the pipe of src/addr_validate.rs.
use strict_pprof_rs.Base.{
  ℕ, zero, suc, ◌≤◌, ◌<◌, ◌≡◌, ◌⊎◌, inl, inr, refl, sym, subst, ◌∙◌, Bool, true, false, Option,
  none, some, List, [], map, ◌+◌, arith, Run, Returns, returns, diverges, ◌>>=◌, ltb, ◌==◌, ◌&&◌,
  not, if◌then◌else◌, Bool-cases,
}
use strict_pprof_rs.AddrValidate.{Pipes, Calls, validate}
use strict_pprof_rs.AddrValidate.Pipe.{View, Laws, Quiet}
use strict_pprof_rs.AddrValidate.Validity.{
  IsSound, IsUnused, Unopened, Validated, validate-Validated, Quiet-trans, used,
}
use strict_pprof_rs.Unwind.Context.{Libc, UContext, frame_pointer}
use strict_pprof_rs.Unwind.FramePointer.{FramePointerLayout, Memory, chain, trace-feed}
use strict_pprof_rs.Unwind.Feed.{feed}
use strict_pprof_rs.Unwind.FramePointer as Pure

module _ {S : Type 0} (calls : Calls S) (read_ptr : ℕ → FramePointerLayout) (tries : ℕ) {B : Type 0}
    (cb : B → ℕ → Bool × B) where
  abbrev pub World : Type 0
  World = Pipes × S

  -- What follows `validate`.
  abbrev pub validated : ℕ → B → (B → World → Run (B × World)) → Bool × World → Run (B × World)
  validated ret b next (valid, w) =
      let answer = cb b ret in
      let further = next answer.1 w in
      if valid then (if answer.0 then further else returns (answer.1, w)) else returns (b, w)

  -- The loop.
  unfoldable pub walk : ℕ → ℕ → ℕ → B → World → Run (B × World)
  walk zero last_frame_pointer fp b w = diverges
  walk (suc fuel) last_frame_pointer fp b w =
      let next = walk fuel fp (read_ptr fp).frame_pointer in
      if not (last_frame_pointer == 0) && ltb fp last_frame_pointer
      then returns (b, w)
      else validate calls tries fp w >>= validated (read_ptr fp).ret b next

  -- `trace`
  unfoldable pub trace : ℕ → Libc → Option UContext → B → World → Run (B × World)
  unfolding walk
  trace fuel libc none b w = returns (b, w)
  trace fuel libc (some ucontext) b w = walk fuel 0 (frame_pointer libc ucontext) b w

  module _ (view : View calls) (laws : Laws view) where
    open view use {IsPipe, held, interrupts, readable}

    -- The memory as `validate` sees it.
    abbrev pub memory : S → Memory
    memory s = record {
      validate = readable s;
      read_ptr = read_ptr;
      validate_null = laws.readable_null s;
    }

    -- The walk has ended as on memory that is just looked at; or `pipe2` has failed, and the callback
    -- has not been called.
    abbrev pub Walked : World → B → B → B × World → Type 0
    Walked (p, s) b r (b', (p', s')) =
        ((b' ≡ r) × IsSound view p' s' ⊎ (b' ≡ b) × IsUnused view p p' × Unopened view s s')
        × Quiet view s s'

    -- After a round on an open pipe, the rest of the walk decides.
    Walked-after :
        (p p' : Pipes) (s s' : S) (b c r : B) (x : B × World)
        → IsPipe p' s'
        → Quiet view s s'
        → Walked (p', s') c r x
        → Walked (p, s) b r x
    Walked-after p p' s s' b c r (b', (p'', t)) there quiet (inl done, quiet') =
        (inl done, Quiet-trans view s s' t quiet quiet')
    Walked-after p p' s s' b c r (b', (p'', t)) there quiet (inr (_, (unused, _), _), quiet') =
        absurd (used view laws s' (subst (λ q. IsPipe q s') unused there))

    -- One round, after the comparison with the frame before.
    round-Walked :
        (fp : ℕ) (p : Pipes) (s s0 : S) (b r : B) (next : B → World → Run (B × World))
        → ((a : ℕ) → readable s a ≡ readable s0 a)
        → (readable s0 fp ≡ false → r ≡ b)
        → (readable s0 fp ≡ true
            → (cb b (read_ptr fp).ret).0 ≡ false
            → r ≡ (cb b (read_ptr fp).ret).1)
        → ((p' : Pipes) (s' : S)
            → readable s0 fp ≡ true
            → (cb b (read_ptr fp).ret).0 ≡ true
            → IsPipe p' s'
            → held p' s' ≤ 16
            → Quiet view s s'
            → Returns
                (next (cb b (read_ptr fp).ret).1 (p', s'))
                (Walked (p', s') (cb b (read_ptr fp).ret).1 r))
        → (x : Bool × World) → Validated view p s fp x
        → Returns (validated (read_ptr fp).ret b next x) (Walked (p, s) b r)
    round-Walked fp p s s0 b r next same bad last more (false, (p', s'))
          (inl (right, inr (_, (_, unused))), quiet) =
        ((b, (p', s')), refl, (inl (sym (bad (sym (right ∙ same fp))), inr unused), quiet))
    round-Walked fp p s s0 b r next same bad last more (true, (p', s'))
          (inl (right, inr (null, _)), quiet) =
        absurd (let never = laws.readable_null s in cc (right, null, never))
    round-Walked fp p s s0 b r next same bad last more (false, (p', s'))
          (inl (right, inl (there, few)), quiet) =
        ((b, (p', s')), refl, (inl (sym (bad (sym (right ∙ same fp))), inl (there, few)), quiet))
    round-Walked fp p s s0 b r next same bad last more (true, (p', s'))
          (inl (right, inl (there, few)), quiet) =
        elim (Bool-cases (cb b (read_ptr fp).ret).0) [
          | inl on ↦
              let (x, ran, walked) = more p' s' (sym (right ∙ same fp)) on there few quiet in
              rw (on, ran)
                (
                  x,
                  refl,
                  Walked-after p p' s s' b (cb b (read_ptr fp).ret).1 r x there quiet walked,
                )
          | inr off ↦ rw off (
            ((cb b (read_ptr fp).ret).1, (p', s')),
            refl,
            (inl (sym (last (sym (right ∙ same fp)) off), inl (there, few)), quiet),
          )
        ]
    round-Walked fp p s s0 b r next same bad last more (true, (p', s')) (inr (wrong, _, _), quiet) =
        absurd (cc wrong)
    round-Walked fp p s s0 b r next same bad last more (false, (p', s'))
          (inr (_, unused, failed), quiet) =
        ((b, (p', s')), refl, (inr (refl, unused, failed), quiet))

    walk-Walked :
        (fuel last fp : ℕ) (p : Pipes) (s s0 : S) (b r : B)
        → IsSound view p s
        → interrupts s < tries
        → ((a : ℕ) → readable s a ≡ readable s0 a)
        → Pure.walk (memory s0) cb fuel last fp b ≡ returns r
        → Returns (walk fuel last fp b (p, s)) (Walked (p, s) b r)
    unfolding walk Pure.walk
    walk-Walked zero last fp p s s0 b r sound few same ran = absurd (cc)
    walk-Walked (suc fuel) last fp p s s0 b r sound few same ran =
        elim (Bool-cases (not (last == 0) && ltb fp last)) [
          | inl below ↦
              let done = rw below at ran in
              rw below ((b, (p, s)), refl, (inl (cc done, sound), ((λ a. refl), omega arith)))
          | inr above ↦
              let (x, answered, valid) = validate-Validated view laws tries fp p s sound few in
              rw (above, answered)
                (round-Walked fp p s s0 b r (walk fuel fp (read_ptr fp).frame_pointer) same
                  (λ h. let done = rw (above, h) at ran in cc done)
                  (λ h off. let done = rw (above, h, off) at ran in cc done)
                  (λ p' s' h on there few' (same', less).
                    walk-Walked fuel fp (read_ptr fp).frame_pointer p' s' s0
                      (cb b (read_ptr fp).ret).1 r (inl (there, few')) (omega (arith, less, few))
                      (λ a. same' a ∙ same a) (rw (above, h, on) at ran))
                  x valid)
        ]

    -- What a walk shows to the callback: the return addresses of the chain from the context's frame
    -- pointer, of which no more than `n` are asked for.
    abbrev pub returned : S → Libc → Option UContext → ℕ → List ℕ
    returned s libc none n = []
    returned s libc (some ucontext) n =
        map (λ a. (read_ptr a).ret) (chain (memory s) n 0 (frame_pointer libc ucontext))

    module _ (budget : B → ℕ)
        (spends : (b : B) (ip : ℕ) → (cb b ip).0 ≡ true → budget (cb b ip).1 < budget b) where
      -- On any memory and from any context, also a null one, with an open pipe or before its first
      -- use, a callback whose budget bounds how often it answers true ends the walk. It has then seen
      -- the return addresses of the chain of readable frames, in order, up to its first false; only
      -- where `pipe2` has failed it has not been called. The pipe is left as sound as it was.
      pub trace-Walked :
          (fuel : ℕ) (libc : Libc) (ucontext : Option UContext) (b : B) (p : Pipes) (s : S)
          → budget b < fuel
          → interrupts s < tries
          → IsSound view p s
          → Returns
              (trace fuel libc ucontext b (p, s))
              (Walked (p, s) b (feed cb b (returned s libc ucontext (budget b + 1))))
      unfolding trace Pure.trace
      trace-Walked fuel libc none b p s enough few sound =
          ((b, (p, s)), refl, (inl (refl, sound), ((λ a. refl), omega arith)))
      trace-Walked fuel libc (some ucontext) b p s enough few sound =
          walk-Walked fuel 0 (frame_pointer libc ucontext) p s s b
            (feed cb b (returned s libc (some ucontext) (budget b + 1))) sound few (λ a. refl)
            (trace-feed (memory s) cb budget spends (frame_pointer libc ucontext) b fuel enough)
