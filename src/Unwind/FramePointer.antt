-- ===== src/Unwind/FramePointer.antt =====
-- `Trace::trace` of src/backtrace/frame_pointer.rs: the walk along the saved frame pointers. What is
-- readable and what the memory holds are parameters.
pub mod Piped
use strict_pprof_rs.Base.{
  ℕ, zero, suc, ◌+◌, ◌≤◌, ◌<◌, ◌≡◌, refl, Bool, true, false, List, [], ◌∷◌, map, arith, Run,
  returns, diverges, ltb, ◌==◌, ◌&&◌, not, if◌then◌else◌, Bool-cases, inl, inr, Option, none, some,
}
use strict_pprof_rs.Unwind.Feed.{feed}

-- `FramePointerLayout`, at its address.
pub record FramePointerLayout : Type 0 where
  pub frame_pointer : ℕ
  pub ret : ℕ

-- The memory of the process: which addresses `validate` accepts (never the null pointer), and what
-- `read_ptr` finds there.
pub record Memory : Type 0 where
  pub validate : ℕ → Bool
  pub read_ptr : ℕ → FramePointerLayout
  pub validate_null : validate 0 ≡ false

module _ (memory : Memory) where
  open memory use {validate, read_ptr}

  -- The two guards of the loop, of which the first compares with the frame before, if there is one.
  abbrev pub ends : ℕ → ℕ → Bool
  ends last_frame_pointer frame_pointer =
      if not (last_frame_pointer == 0) && ltb frame_pointer last_frame_pointer
      then true
      else not (validate frame_pointer)

  module _ {S : Type 0} (cb : S → ℕ → Bool × S) where
    -- The loop. The callback's own state is passed on.
    unfoldable pub walk : ℕ → ℕ → ℕ → S → Run S
    walk zero last_frame_pointer frame_pointer s = diverges
    walk (suc fuel) last_frame_pointer frame_pointer s =
        let answer = cb s (read_ptr frame_pointer).ret in
        let next = walk fuel frame_pointer (read_ptr frame_pointer).frame_pointer answer.1 in
        if ends last_frame_pointer frame_pointer
        then returns s
        else if answer.0
        then next
        else returns answer.1

    -- `trace`, from the frame pointer of the signal context, if there is one.
    unfoldable pub trace : ℕ → Option ℕ → S → Run S
    unfolding walk
    trace fuel none s = returns s
    trace fuel (some frame_pointer) s = walk fuel 0 frame_pointer s

  -- The addresses of the first `n` frames of the chain.
  abbrev pub chain : ℕ → ℕ → ℕ → List ℕ
  chain zero last fp = []
  chain (suc n) last fp =
      let rest = chain n fp (read_ptr fp).frame_pointer in if ends last fp then [] else fp ∷ rest

  -- Every address is readable, none is null, and none is below the one before.
  abbrev pub Climbs : ℕ → List ℕ → Type 0
  Climbs last [] = Unit
  Climbs last (fp ∷ fps) = (last ≤ fp) × (0 < fp) × (validate fp ≡ true) × Climbs fp fps

  not_null : (fp : ℕ) → validate fp ≡ true → 0 < fp
  not_null zero h = absurd (cc memory.validate_null)
  not_null (suc fp) h = omega arith

  -- However long the chain is followed, from wherever, every frame that is read is readable and not
  -- null, and the addresses never fall.
  pub chain-Climbs : (n last fp : ℕ) → Climbs last (chain n last fp)
  chain-Climbs zero last fp = tt
  chain-Climbs (suc n) last fp =
      let rest = chain-Climbs n fp (read_ptr fp).frame_pointer in ground (arith, rest, not_null fp)

  module _ {S : Type 0} (cb : S → ℕ → Bool × S) (budget : S → ℕ)
      (spends : (s : S) (ip : ℕ) → (cb s ip).0 ≡ true → budget (cb s ip).1 < budget s) where
    walk-feed :
        (n fuel last fp : ℕ) (s : S)
        → budget s < n
        → n ≤ fuel
        → walk cb fuel last fp s
          ≡ returns (feed cb s (map (λ a. (read_ptr a).ret) (chain n last fp)))
    unfolding walk
    walk-feed zero fuel last fp s h k = absurd (omega arith)
    walk-feed (suc n) zero last fp s h k = absurd (omega arith)
    walk-feed (suc n) (suc fuel) last fp s h k = elim (Bool-cases (ends last fp)) [
      | inl over ↦ rw over refl
      | inr on ↦ elim (Bool-cases (cb s (read_ptr fp).ret).0) [
        | inl more ↦
            let less = spends s (read_ptr fp).ret more in
            rw (on, more)
              (walk-feed n fuel fp (read_ptr fp).frame_pointer (cb s (read_ptr fp).ret).1
                (omega (arith, less)) (omega arith))
        | inr last_one ↦ rw (on, last_one) refl
      ]
    ]

    -- A callback that answers true only so often as its budget allows ends the walk, whatever the
    -- memory holds, also on a chain that runs in a circle: it has then seen the return addresses of the
    -- chain, in order, up to its first false.
    pub trace-feed :
        (fp : ℕ) (s : S) (fuel : ℕ)
        → budget s < fuel
        → trace cb fuel (some fp) s
          ≡ returns (feed cb s (map (λ a. (read_ptr a).ret) (chain (budget s + 1) 0 fp)))
    unfolding trace
    trace-feed fp s fuel h = walk-feed (budget s + 1) fuel 0 fp s (omega arith) (omega arith)
