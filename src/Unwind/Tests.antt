-- ===== src/Unwind/Tests.antt =====
-- The theorems about the walk, on a stack frame that points to itself.
use strict_pprof_rs.Base.{
  ℕ, ◌-◌, ◌<◌, ◌≡◌, refl, Bool, true, false, List, [], ◌∷◌, arith, returns, some, ltb, ◌==◌, not,
  if◌then◌else◌, length, Result, ok, err, Option, none, ◌+◌, ◌*◌,
}
use strict_pprof_rs.Unwind.Framehop
use strict_pprof_rs.Unwind.Framehop.{
  Frames, Registers, linux_x86_64, read_stack, seen, trace-seen, trace-agree,
}
use strict_pprof_rs.Unwind.FramePointer.{Memory, trace, walk}

abbrev pub not_zero : ℕ → Bool
not_zero a = not (a == 0)

abbrev circle : Memory
circle = record {
  validate = not_zero;
  read_ptr = λ a. record { frame_pointer = 16; ret = 7 };
  validate_null = refl;
}

-- Takes three frames at most.
abbrev take_three : List ℕ → ℕ → Bool × List ℕ
take_three bt ip = if ltb (length bt) 3 then (true, ip ∷ bt) else (false, bt)

abbrev left : List ℕ → ℕ
left bt = 3 - length bt

left_spent :
    (bt : List ℕ) (ip : ℕ) → (take_three bt ip).0 ≡ true → left (take_three bt ip).1 < left bt
left_spent bt ip h = ground arith

abbrev nothing : List ℕ
nothing = []

three_frames : trace circle take_three 4 (some 16) nothing ≡ returns (7 ∷ 7 ∷ 7 ∷ [])
unfolding trace walk
three_frames = refl

-- Frames from a list, which is both the unwinder and the iterator; `next` reads the stack once.
abbrev from_list : (ℕ → Result (Unit {0}) ℕ) → List ℕ → Result ℕ (Option ℕ) × List ℕ
from_list read [] = (ok none, [])
from_list read (a ∷ rest) = elim (read a) [ err _ ↦ (err 1, rest) | ok v ↦ (ok (some v), rest) ]

abbrev pub listed : Frames ℕ
listed = record {
  Unwinder = List ℕ;
  Iter = List ℕ;
  iter_frames = λ u pc regs. pc ∷ u;
  next = from_list;
  release = λ it. it;
}

abbrev pub context : Option (Option Registers)
context = some (some (record { pc = 17; sp = 32; fp = 48; lr = 64 }))

abbrev pub one_more : ℕ → ℕ
one_more a = a + 1

-- The walk ends where 3, which is 0 when it is aligned, cannot be read.
two_read :
    Framehop.trace listed
      (read_stack not_zero one_more)
      take_three
      linux_x86_64
      context
      4
      nothing
      (some (24 ∷ 3 ∷ 40 ∷ []))
    ≡ returns (25 ∷ 17 ∷ [], some (40 ∷ []))
unfolding Framehop.trace read_stack
two_read = refl

-- The same, except at address zero.
abbrev elsewhere : ℕ → ℕ
elsewhere a = if a == 0 then 9 else a + 1

same_memory : (a : ℕ) → not_zero (a * 8) ≡ true → one_more (a * 8) ≡ elsewhere (a * 8)
same_memory a h = ground (arith, h)

trace-agree_example :
    Framehop.trace listed
      (read_stack not_zero one_more)
      take_three
      linux_x86_64
      context
      4
      nothing
      (some (24 ∷ 3 ∷ 40 ∷ []))
    ≡ Framehop.trace listed
        (read_stack not_zero elsewhere)
        take_three
        linux_x86_64
        context
        4
        nothing
        (some (24 ∷ 3 ∷ 40 ∷ []))
trace-agree_example =
    trace-agree listed take_three not_zero one_more elsewhere same_memory linux_x86_64 context 4
      nothing (some (24 ∷ 3 ∷ 40 ∷ []))
