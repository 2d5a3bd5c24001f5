-- ===== src/Frames/Equal.antt =====
-- The equality of samples in src/frames.rs is the equality of their threads and call stacks, and
-- equal samples are hashed alike; so they can be keys.
use strict_pprof_rs.Base.{
  ℕ, suc, ◌≡◌, ◌↔◌, refl, ap, true, List, [], ◌∷◌, ◌++◌, map, arith, Key, view_refl, view_symm,
  view_trans, ◌==◌, leb, length, Bool-cases, inl, inr, Returns, take, take-append, length-append,
  length-drop, length-replicate, drop, replicate, leb→le, ◌⊎◌, ◌≤◌, ◌<◌, panics,
}
use strict_pprof_rs.Frames.{Backend, UnresolvedFrames, zip_all, equal, hash, new, max_thread_name}

module _ (backend : Backend) where
  open backend use {Frame, symbol_address}

  -- The addresses of the functions on the stack.
  abbrev pub stack : UnresolvedFrames Frame → List ℕ
  stack u = map symbol_address u.frames

  zip_all-eq :
      (xs ys : List Frame)
      → length xs ≡ length ys
      → (zip_all (λ s₁ s₂. symbol_address s₁ == symbol_address s₂) xs ys ≡ true)
        ↔ (map symbol_address xs ≡ map symbol_address ys)
  unfolding zip_all
  zip_all-eq [] [] h = (λ _. refl, λ _. refl)
  zip_all-eq [] (y ∷ ys) h = absurd (omega arith)
  zip_all-eq (x ∷ xs) [] h = absurd (omega arith)
  zip_all-eq (x ∷ xs) (y ∷ ys) h =
      let rest = zip_all-eq xs ys (omega arith) in
      (λ p. ground (arith, rest), λ p. ground (arith, rest))

  length-stack :
      (xs ys : List Frame) → map symbol_address xs ≡ map symbol_address ys → length xs ≡ length ys
  length-stack [] [] h = refl
  length-stack [] (y ∷ ys) h = absurd (cc)
  length-stack (x ∷ xs) [] h = absurd (cc)
  length-stack (x ∷ xs) (y ∷ ys) h = ap suc (length-stack xs ys (cc))

  -- Two samples are equal exactly when they come from one thread and show the same functions, in
  -- order. Names and times are not compared.
  pub equal_iff :
      (a b : UnresolvedFrames Frame)
      → (equal backend a b ≡ true) ↔ ((a.thread_id ≡ b.thread_id) × (stack a ≡ stack b))
  unfolding equal
  equal_iff a b = (there, back)
    where
      there : equal backend a b ≡ true → (a.thread_id ≡ b.thread_id) × (stack a ≡ stack b)
      there h = ground (arith, zip_all-eq a.frames b.frames)

      back : (a.thread_id ≡ b.thread_id) × (stack a ≡ stack b) → equal backend a b ≡ true
      back h =
          let same = length-stack a.frames b.frames h.1 in
          let all = (zip_all-eq a.frames b.frames same).1 h.1 in ground (arith, same, all)

  -- Equal samples write the same words to the hasher.
  pub hash-equal :
      (a b : UnresolvedFrames Frame) → equal backend a b ≡ true → hash backend a ≡ hash backend b
  unfolding hash
  hash-equal a b h = let (thread, same) = (equal_iff a b).0 h in rw (thread, same)

  -- What the equality compares.
  abbrev pub view : UnresolvedFrames Frame → ℕ × List ℕ
  view u = (u.thread_id, stack u)

  pub view_iff : (a b : UnresolvedFrames Frame) → (equal backend a b ≡ true) ↔ (view a ≡ view b)
  view_iff a b = (
    λ h. let (thread, same) = (equal_iff a b).0 h in λ i. (thread i, same i),
    λ h. (equal_iff a b).1 (ap (λ v. v.0) h, ap (λ v. v.1) h),
  )

  -- Samples as keys, for any hasher.
  abbrev pub frames_key : (List ℕ → ℕ) → Key (UnresolvedFrames Frame)
  frames_key finish = record {
    equal = equal backend;
    hash = λ u. finish (hash backend u);
    equal_refl = view_refl (equal backend) view view_iff;
    equal_symm = view_symm (equal backend) view view_iff;
    equal_trans = view_trans (equal backend) view view_iff;
    hash-equal = λ a b h. ap finish (hash-equal a b h);
  }

-- A thread name of up to sixteen bytes is kept, byte for byte; a longer one is out of range, and
-- `new` panics.
pub new-name :
    {Frame : Type 0} (frames : List Frame) (tn : List ℕ) (id time : ℕ)
    → (length tn ≤ max_thread_name)
        × Returns (new frames tn id time) (λ u.
          (take u.thread_name_length u.thread_name ≡ tn)
          × (length u.thread_name ≡ max_thread_name)
          × (u.frames ≡ frames))
      ⊎ (max_thread_name < length tn) × (new frames tn id time ≡ panics)
unfolding new
new-name frames tn id time = elim (Bool-cases (leb (length tn) max_thread_name)) [
  | inl fits ↦ inl (
    leb→le _ _ fits,
    (
      record {
        frames = frames;
        thread_name = tn ++ drop (length tn) (replicate max_thread_name 0);
        thread_name_length = length tn;
        thread_id = id;
        sample_timestamp = time;
      },
      rw fits,
      (
        take-append tn (drop (length tn) (replicate max_thread_name 0)),
        omega (
          arith,
          length-append tn (drop (length tn) (replicate max_thread_name 0)),
          length-drop {A = ℕ} (length tn) (replicate max_thread_name 0),
          leb→le _ _ fits,
          length-replicate {A = ℕ} max_thread_name 0,
        ),
        refl,
      ),
    ),
  )
  | inr long ↦ inr (ground (arith, long), rw long)
]
