-- ===== src/AddrValidate/Create/Tests.antt =====
-- The theorem about `create_pipe`, on a system that keeps two flags for each descriptor.
use strict_pprof_rs.Base.{
  ℕ, ◌≡◌, ◌≢◌, ◌↔◌, refl, ap, Bool, true, false, Option, none, some, arith, Result, ok, Returns,
  ◌==◌, ==_iff, if◌then◌else◌, ◌||◌,
}
use strict_pprof_rs.Base.Int.{ℤ, pos, negsuc}
use strict_pprof_rs.AddrValidate.{Errno, Calls}
use strict_pprof_rs.AddrValidate.Pipe.{View}
use strict_pprof_rs.AddrValidate.Tests.{Kernel, kernel, seen, first_use}
use strict_pprof_rs.AddrValidate.Create.{Flags, FlagCalls, create_pipe}
use strict_pprof_rs.AddrValidate.Create.Attempts.{FlagLaws}
use strict_pprof_rs.AddrValidate.Create.Made.{Created, create_pipe-Created}

-- Bit 0 of a word is the flag.
abbrev bit : ℕ → Option Bool
bit n = if n == 0 then some false else if n == 1 then some true else none

abbrev word_of : Bool → ℕ
word_of b = if b then 1 else 0

abbrev one_flag : Flags
one_flag = record { Flag = Bool; from_bits = bit; insert = λ a b. a || b; wanted = true }

abbrev Both : Type 0
Both = Bool × Bool

abbrev State : Type 0
State = Kernel × (ℤ → Both)

abbrev same : ℤ → ℤ → Bool
same (pos m) (pos n) = m == n
same (pos m) (negsuc n) = false
same (negsuc m) (pos n) = false
same (negsuc m) (negsuc n) = m == n

same_iff : (a b : ℤ) → (same a b ≡ true) ↔ (a ≡ b)
same_iff (pos m) (pos n) = (λ h. ap pos ((==_iff m n).0 h), λ h. (==_iff m n).1 (cc h))
same_iff (pos m) (negsuc n) = (λ h. absurd (cc h), λ h. absurd (cc h))
same_iff (negsuc m) (pos n) = (λ h. absurd (cc h), λ h. absurd (cc h))
same_iff (negsuc m) (negsuc n) = (λ h. ap negsuc ((==_iff m n).0 h), λ h. (==_iff m n).1 (cc h))

same_refl : (a : ℤ) → same a a ≡ true
same_refl a = (same_iff a a).1 refl

same_other : (a b : ℤ) → a ≢ b → same a b ≡ false
same_other a b ne = ground (arith, same_iff a b)

abbrev put : ℤ → Both → State → Result Errno (Unit {0}) × State
put fd f (k, flags) = (ok tt, (k, λ z. if same z fd then f else flags z))

abbrev lifted {ℓ} : {A : Type ℓ} → (Kernel → A × Kernel) → State → A × State
lifted call (k, flags) = let (a, k') = call k in (a, (k', flags))

abbrev pipe_calls : Calls State
pipe_calls = record {
  close = λ fd. lifted (kernel.close fd);
  pipe2 = lifted kernel.pipe2;
  read = λ fd. lifted (kernel.read fd);
  write = λ fd addr. lifted (kernel.write fd addr);
}

abbrev view : View pipe_calls
view = record {
  IsPipe = λ p s. seen.IsPipe p s.0;
  held = λ p s. seen.held p s.0;
  interrupts = λ s. seen.interrupts s.0;
  readable = λ s. seen.readable s.0;
  capacity = seen.capacity;
}

abbrev flag_calls : FlagCalls State one_flag one_flag
flag_calls = record {
  pipe = lifted kernel.pipe2;
  get_fd = λ fd s. (ok (word_of (s.1 fd).0), s);
  set_fd = λ fd f s. put fd (f, (s.1 fd).1) s;
  get_fl = λ fd s. (ok (word_of (s.1 fd).1), s);
  set_fl = λ fd f s. put fd ((s.1 fd).0, f) s;
}

bit-word_of : (b : Bool) → bit (word_of b) ≡ some b
bit-word_of true = refl
bit-word_of false = refl

laws : FlagLaws view flag_calls
laws = record {
  flags_of = λ fd s. s.1 fd;
  pipe_creates = λ s. ((refl, refl), refl, ((λ a. refl), omega arith));
  differ = λ p s (there, o) e. let three_four : pos 3 ≡ pos 4 = rw there at e in cc three_four;
  gets_fd = λ fd s. (bit-word_of (s.1 fd).0, refl);
  gets_fl = λ fd s. (bit-word_of (s.1 fd).1, refl);
  sets_fd = λ fd f s. (
    rw (same_refl fd) refl,
    λ other ne. rw (same_other other fd ne) refl,
    (λ p there. (there, refl), ((λ a. refl), omega arith)),
  );
  sets_fl = λ fd f s. (
    rw (same_refl fd) refl,
    λ other ne. rw (same_other other fd ne) refl,
    (λ p there. (there, refl), ((λ a. refl), omega arith)),
  );
}

abbrev closed_at_first : State
closed_at_first = (first_use, λ fd. (false, false))

create_pipe-Created_example :
    Returns (create_pipe flag_calls closed_at_first) (Created view flag_calls laws closed_at_first)
create_pipe-Created_example = create_pipe-Created view flag_calls laws closed_at_first
