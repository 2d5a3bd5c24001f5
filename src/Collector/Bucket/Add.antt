-- ===== src/Collector/Bucket/Add.antt =====
-- `Bucket::add` on every branch: it never panics on a bucket that earlier calls made, it loses no
-- count, and what it evicts is the rarest entry of a full bucket without the key.
use native.Mathlib.Nat.{add-zero}
use native.Mathlib.Numerals.{add-one}
use strict_pprof_rs.Base.{
  ℕ, ◌+◌, ◌≤◌, ◌<◌, ◌≡◌, inl, inr, ◌≢◌, Bool, true, Option, none, some, List, [], ◌∷◌, ◌++◌, arith,
  Key, Returns, length, get_or, take, drop, set, EqWord, Bool-cases, length-append, length-set,
  length-take, take-append, take-length, take-set_next, get_elem?-get_or, leb_of_le, ltb→lt,
  length-drop, ltb, lt→ltb, subst, ap, word, ◌%◌, sym, ◌∙◌,
}
use strict_pprof_rs.Collector.Bucket.{Entry, Bucket, slice, bump, place, replace, min_scan, add}
use strict_pprof_rs.Collector.Bucket.Rarest.{AtLeast, min_scan-AtLeast}
use strict_pprof_rs.Collector.Bucket.Hits.{hit, hits, hits-append, hits-set, hits-bump}
use strict_pprof_rs.Collector.Bucket.Weight.{
  evicted, share, weight, occurs, weight-append, occurs-append, weight-set, occurs-set, length-bump,
  occurs-bump, bump-done, bump-missing, weight-bump, weight-bump_exact, occurs_congr, occurs-get_or,
}

-- The entries in use.
abbrev pub live {ℓ} : {T : Type ℓ} → Bucket T → List (Entry T)
live b = take b.length b.entries

module _ {ℓ} {T : Type ℓ} ⦃key : Key T⦄ where
  -- The array has four places, `length` of them in use, and no key is in use twice.
  pub record IsValid (b : Bucket T) : Type ℓ where
    pub width : length b.entries ≡ 4
    pub fits : b.length ≤ 4
    pub distinct : (q : T) → occurs q (live b) ≤ 1

  -- What `add b k c` has done when it returns `r`.
  pub record Added (b : Bucket T) (k : T) (c : ℕ) (r : Bucket T × Option (Entry T)) : Type ℓ where
    pub valid : IsValid r.0
    pub conserved :
        (q : T)
        → EqWord (weight q (live r.0) + weight q (evicted r.1)) (weight q (live b) + share q k c)
    pub exact :
        (q : T)
        → weight q (live b) + share q k c < word
        → weight q (live r.0) + weight q (evicted r.1) ≡ weight q (live b) + share q k c
    pub present : occurs k (live r.0) ≡ 1
    pub few : (q : T) → occurs q (live r.0) ≤ occurs q (live b) + share q k 1
    pub gone : (q : T) → occurs q (evicted r.1) ≤ occurs q (live b)
    pub rarest :
        (old : Entry T)
        → r.1 ≡ some old
        → (b.length ≡ 4) × (occurs k (live b) ≡ 0) × AtLeast old.count (live b)
    pub kept : (p : T → Bool) → hits p (live r.0) + hits p (evicted r.1) ≤ hits p (live b) + hit p k
    pub evicts : b.length ≡ 4 → occurs k (live b) ≡ 0 → r.1 ≢ none

  module _ (b : Bucket T) (k : T) (c : ℕ) (v : IsValid b) where
    length-live : length (live b) ≡ b.length
    length-live = omega (arith, length-take b.length b.entries, v.width, v.fits)

    -- Counting up in place leaves the entries in use where they are.
    live-bump :
        take b.length ((bump k c (live b)).0 ++ drop b.length b.entries) ≡ (bump k c (live b)).0
    live-bump =
        subst
          (λ n. take n ((bump k c (live b)).0 ++ drop b.length b.entries) ≡ (bump k c (live b)).0)
          (length-bump k c (live b) ∙ length-live)
          (take-append (bump k c (live b)).0 (drop b.length b.entries))

    bump-Added :
        (bump k c (live b)).1 ≡ true
        → Added b k c
            (record b { entries = (bump k c (live b)).0 ++ drop b.length b.entries }, none)
    bump-Added done =
        let one = bump-done k c (live b) done in
        let once = v.distinct k in
        record {
          valid = record {
            width = omega (
              arith,
              length-append (bump k c (live b)).0 (drop b.length b.entries),
              length-bump k c (live b),
              length-live,
              length-drop b.length b.entries,
              v.width,
              v.fits,
            );
            fits = v.fits;
            distinct = λ q. rw (live-bump, occurs-bump) (v.distinct q);
          };
          conserved = λ q. rw (live-bump, add-zero) (weight-bump k c q (live b) one once);
          exact =
              λ q small. rw (live-bump, add-zero) (weight-bump_exact k c q (live b) one once small);
          present = rw (live-bump, occurs-bump) (omega arith);
          few = λ q. rw (live-bump, occurs-bump) (omega arith);
          gone = λ q. omega arith;
          rarest = λ old e. cc;
          kept = λ p. rw (live-bump, hits-bump) (omega arith);
          evicts = λ full absent e. absurd (omega arith);
        }

    module _ (missing : occurs k (live b) ≡ 0) where
      abbrev fresh : Entry T
      fresh = record { item = k; count = c }

      live-place :
          b.length < 4 → take (b.length + 1) (set b.entries b.length fresh) ≡ live b ++ fresh ∷ []
      live-place room = rw add-one (take-set_next b.length b.entries fresh (omega (arith, v.width)))

      place-Added : b.length < 4 → Returns (place b fresh) (Added b k c)
      unfolding place
      place-Added room = (
        (record { length = b.length + 1; entries = set b.entries b.length fresh }, none),
        rw (lt→ltb b.length (length b.entries) (omega (arith, v.width))),
        record {
          valid = record {
            width = length-set b.entries b.length fresh ∙ v.width;
            fits = omega arith;
            distinct = λ q.
                rw (live-place room, occurs-append)
                  (ground (arith, v.distinct q, occurs_congr q k (live b)));
          };
          conserved =
              λ q. rw (live-place room, add-zero, weight-append) (ap (λ n. n % word) (omega arith));
          exact = λ q _. rw (live-place room, add-zero, weight-append) (omega arith);
          present = rw (live-place room, occurs-append) (ground (arith, key.equal_refl k));
          few = λ q. rw (live-place room, occurs-append) (omega arith);
          gone = λ q. omega arith;
          rarest = λ old e. cc;
          kept = λ p. rw (live-place room, hits-append) (omega arith);
          evicts = λ full absent e. omega arith;
        },
      )

      module _ (full : b.length ≡ 4) where
        live-full : live b ≡ b.entries
        live-full = rw (full ∙ sym v.width) (take-length b.entries)

        live-set : (i : ℕ) → take b.length (set b.entries i fresh) ≡ set b.entries i fresh
        live-set i =
            rw (full ∙ sym (length-set b.entries i fresh ∙ v.width))
              (take-length (set b.entries i fresh))

        set-Added :
            (i : ℕ)
            → i < length b.entries
            → AtLeast (get_or b.entries i fresh).count b.entries
            → Added b k c
                (record b { entries = set b.entries i fresh }, some (get_or b.entries i fresh))
        set-Added i lt low =
            let old : Entry T = get_or b.entries i fresh in
            let swap_occurs = λ (q : T). occurs-set q b.entries i fresh fresh lt in
            let absent : occurs k b.entries ≡ 0 = rw live-full at missing in
            record {
              valid = record {
                width = length-set b.entries i fresh ∙ v.width;
                fits = v.fits;
                distinct = λ q. rw live-set (
                    ground (
                      arith,
                      rw live-full at (v.distinct q),
                      swap_occurs q,
                      occurs_congr q k b.entries,
                      absent,
                    ));
              };
              conserved = λ q.
                  rw (live-set, live-full)
                    (ap (λ n. n % word) (omega (arith, weight-set q b.entries i fresh fresh lt)));
              exact = λ q _.
                  rw (live-set, live-full) (omega (arith, weight-set q b.entries i fresh fresh lt));
              present = rw live-set (
                  ground
                    (arith, key.equal_refl k, swap_occurs k, occurs-get_or k b.entries i fresh lt));
              few = λ q. rw (live-set, live-full) (omega (arith, swap_occurs q));
              gone = λ q. rw live-full (occurs-get_or q b.entries i fresh lt);
              rarest = λ other e. (
                full,
                missing,
                let same : get_or b.entries i fresh ≡ other = cc in
                    rw live-full (subst (λ (x : Entry T). AtLeast x.count b.entries) same low),
              );
              kept = λ p.
                  rw (live-set, live-full) (omega (arith, hits-set p b.entries i fresh fresh lt));
              evicts = λ f a e. cc;
            }

        replace-Added : Returns (replace b (live b) fresh) (Added b k c)
        unfolding replace
        replace-Added =
            let some_entry : 0 < length b.entries = omega (arith, v.width) in
            let (lt, low) = min_scan-AtLeast b.entries fresh some_entry in
            let i : ℕ = min_scan b.entries 0 0 (get_or b.entries 0 fresh).count in
            (
              (record b { entries = set b.entries i fresh }, some (get_or b.entries i fresh)),
              ground (
                arith,
                get_elem?-get_or b.entries 0 fresh some_entry,
                live-full,
                get_elem?-get_or b.entries i fresh lt,
              ),
              set-Added i lt low,
            )

  -- On a well-formed bucket `add` returns, keeps the bucket well-formed, and does what `Added` says.
  pub add-Added : (b : Bucket T) (k : T) (c : ℕ) → IsValid b → Returns (add b k c) (Added b k c)
  unfolding add slice
  add-Added b k c v =
      rw (leb_of_le b.length (length b.entries) (omega (arith, v.width, v.fits)), add)
        (elim (Bool-cases (bump k c (live b)).1) [
          | inl done ↦ (
            (record b { entries = (bump k c (live b)).0 ++ drop b.length b.entries }, none),
            rw done,
            bump-Added b k c v done,
          )
          | inr missing ↦
              let absent = (bump-missing k c (live b) missing).1 in
              rw missing (elim (Bool-cases (ltb b.length 4)) [
                | inl room ↦ rw room (place-Added b k c v absent (ltb→lt b.length 4 room))
                | inr full ↦ rw full (replace-Added b k c v absent (ground (arith, v.fits)))
              ])
        ])
