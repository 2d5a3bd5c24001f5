-- ===== src/AddrValidate/Tests.antt =====
-- The theorems about validation, on a system with one pipe and two interrupts to come.
use strict_pprof_rs.Base.{
  ℕ, zero, suc, ◌+◌, ◌-◌, ◌≤◌, ◌≡◌, inl, inr, refl, subst, Bool, true, false, [], ◌∷◌, map, arith,
  Result, ok, err, Returns, ltb, ◌==◌, not, if◌then◌else◌, Bool-cases,
}
use strict_pprof_rs.Base.Int.{ℤ, pos, negsuc}
use strict_pprof_rs.AddrValidate.{
  Errno, eintr, eagain, other, Pipes, Calls, mem_validate_pipe, open_pipe, validate,
}
use strict_pprof_rs.AddrValidate.Pipe.{View, Laws, Quiet, Reads, Writes}
use strict_pprof_rs.AddrValidate.Validity.{
  Validated, validate-Validated, Opens, open_pipe-Opens, validate_all, validate_all-readable,
}

-- The interrupts to come, the bytes in the pipe, and whether it is open.
abbrev pub Kernel : Type 0
Kernel = ℕ × (ℕ × Bool)

abbrev take_some : ℕ → Result Errno ℕ × Kernel
take_some h = if ltb h 16 then (ok h, (0, (0, true))) else (ok 16, (0, (h - 16, true)))

abbrev kernel_read : ℤ → Kernel → Result Errno ℕ × Kernel
kernel_read (negsuc n) s = (err (other 9), s)
kernel_read (pos n) (i, (h, false)) = (err (other 9), (i, (h, false)))
kernel_read (pos n) (suc i, (h, true)) = (err eintr, (i, (h, true)))
kernel_read (pos n) (zero, (zero, true)) = (err eagain, (zero, (zero, true)))
kernel_read (pos n) (zero, (suc h, true)) = take_some (suc h)

abbrev kernel_write : ℤ → ℕ → Kernel → Result Errno ℕ × Kernel
kernel_write fd addr (i, (h, false)) = (err (other 9), (i, (h, false)))
kernel_write fd addr (suc i, (h, true)) = (err eintr, (i, (h, true)))
kernel_write fd zero (zero, (h, true)) = (err (other 14), (zero, (h, true)))
kernel_write fd (suc addr) (zero, (h, true)) =
    if ltb 65_536 (h + 16) then (err eagain, (zero, (h, true))) else (ok 16, (zero, (h + 16, true)))

abbrev kernel_close : ℤ → Kernel → Result Errno (Unit {0}) × Kernel
kernel_close (negsuc n) s = (err (other 9), s)
kernel_close (pos n) (i, (h, o)) = (ok tt, (i, (h, false)))

abbrev pub kernel : Calls Kernel
kernel = record {
  close = kernel_close;
  pipe2 = λ s. (ok (pos 3, pos 4), (s.0, (0, true)));
  read = kernel_read;
  write = kernel_write;
}

abbrev pub pipe_ends : Pipes
pipe_ends = record { read_fd = pos 3; write_fd = pos 4 }

abbrev pub seen : View kernel
seen = record {
  IsPipe = λ p s. (p ≡ pipe_ends) × (s.1.1 ≡ true);
  held = λ p s. s.1.0;
  interrupts = λ s. s.0;
  readable = λ s addr. not (addr == 0);
  capacity = 65_536;
}

kernel_read-Reads : (s : Kernel) → s.1.1 ≡ true → Reads seen pipe_ends s (kernel_read (pos 3) s)
kernel_read-Reads (i, (h, false)) o = absurd (cc)
kernel_read-Reads (suc i, (h, true)) o = ((refl, refl), refl, omega arith, (λ a. refl))
kernel_read-Reads (zero, (zero, true)) o = ((refl, refl), refl, refl, ((λ a. refl), omega arith))
kernel_read-Reads (zero, (suc h, true)) o = elim (Bool-cases (ltb (suc h) 16)) [
  | inl few ↦ rw few ((refl, refl), omega arith, omega arith, inr refl, ((λ a. refl), omega arith))
  | inr many ↦
      let enough : 16 ≤ suc h = ground (arith, many) in
      rw many
        ((refl, refl), omega arith, omega (arith, enough), inl refl, ((λ a. refl), omega arith))
]

kernel_write-Writes :
    (s : Kernel) (addr : ℕ)
    → s.1.1 ≡ true
    → Writes seen pipe_ends s addr (kernel_write (pos 4) addr s)
kernel_write-Writes (i, (h, false)) addr o = absurd (cc)
kernel_write-Writes (suc i, (h, true)) addr o = ((refl, refl), refl, omega arith, (λ a. refl))
kernel_write-Writes (zero, (h, true)) zero o =
    ((refl, refl), refl, refl, ((λ a. refl), omega arith))
kernel_write-Writes (zero, (h, true)) (suc addr) o = elim (Bool-cases (ltb 65_536 (h + 16))) [
  | inl full ↦ rw full (ground (arith, full), ((λ a. refl), omega arith))
  | inr room ↦ rw room ((refl, refl), refl, refl, ground arith, ((λ a. refl), omega arith))
]

still : (s : Kernel) → Quiet seen s s
still s = ((λ a. refl), omega arith)

kernel_close-Quiet : (fd : ℤ) (s : Kernel) → Quiet seen s (kernel_close fd s).1
kernel_close-Quiet (negsuc n) s = still s
kernel_close-Quiet (pos n) s = still s

close_other :
    (p : Pipes) (s : Kernel) (fd : ℤ)
    → ¬ ((p ≡ pipe_ends) × (s.1.1 ≡ true))
    → ¬ ((p ≡ pipe_ends) × ((kernel_close fd s).1.1.1 ≡ true))
close_other p s (negsuc n) closed h = closed h
close_other p s (pos n) closed h = cc h.1

closed_read :
    (p : Pipes) (s : Kernel) → ¬ ((p ≡ pipe_ends) × ((kernel_close p.read_fd s).1.1.1 ≡ true))
closed_read p s (same, o) =
    let shut : false ≡ true = subst (λ q. (kernel_close q.read_fd s).1.1.1 ≡ true) same o in cc shut

pub laws : Laws seen
laws = record {
  capacity_lem = omega arith;
  readable_null = λ s. refl;
  reads = λ p s (same, o). rw same (kernel_read-Reads s o);
  writes = λ p s addr (same, o). rw same (kernel_write-Writes s addr o);
  creates = λ s. ((refl, refl), refl, still s);
  close_quiet = kernel_close-Quiet;
  close_read = closed_read;
  close_other = close_other;
  read_negative = λ n s. (9, s, refl, still s);
}

abbrev pub first_use : Kernel
first_use = (2, (0, false))

validate-Validated_example :
    Returns
      (validate kernel 3 4096 (mem_validate_pipe, first_use))
      (Validated seen mem_validate_pipe first_use 4096)
validate-Validated_example =
    validate-Validated seen laws 3 4096 mem_validate_pipe first_use (inr refl) (omega arith)

abbrev pub in_use : Kernel
in_use = (2, (16, true))

validate_all-readable_example :
    Returns (validate_all seen 3 (4096 ∷ 0 ∷ 8192 ∷ []) (pipe_ends, in_use)) (λ (bs, (p', s')).
      (bs ≡ map (seen.readable in_use) (4096 ∷ 0 ∷ 8192 ∷ []))
      × seen.IsPipe p' s'
      × (seen.held p' s' ≤ 16))
validate_all-readable_example =
    validate_all-readable seen laws 3 (4096 ∷ 0 ∷ 8192 ∷ []) pipe_ends in_use (refl, refl)
      (omega arith) (omega arith)

open_pipe-Opens_example : Opens seen pipe_ends (open_pipe kernel pipe_ends in_use)
open_pipe-Opens_example = open_pipe-Opens seen laws pipe_ends in_use
