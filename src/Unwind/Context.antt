-- ===== src/Unwind/Context.antt =====
-- The signal context that the kernel gives to the handler, and what src/profiler.rs and
-- src/backtrace/frame_pointer.rs read of it.
use strict_pprof_rs.Base.{ℕ, Option, none, some}

-- The constants of libc that name registers.
pub record Libc : Type 0 where
  pub reg_rip : ℕ
  pub reg_rbp : ℕ
  pub reg_pc : ℕ
  pub reg_s0 : ℕ

-- `__ss` on macOS: the program counter (`__rip` or `__pc`) and the frame pointer (`__rbp` or `__fp`).
pub record ThreadState : Type 0 where
  pub pc : ℕ
  pub fp : ℕ

-- `ucontext_t` on each target: `uc_mcontext.gregs`; the pointer `uc_mcontext`, which may be null;
-- `uc_mcontext.regs` with `pc`; `__gregs`; `__gregs` with `__pc`.
pub data UContext : Type 0 where
  linux_x86_64 : (ℕ → ℕ) → UContext
  macos_x86_64 : Option ThreadState → UContext
  linux_aarch64 : (ℕ → ℕ) → ℕ → UContext
  macos_aarch64 : Option ThreadState → UContext
  linux_riscv64 : (ℕ → ℕ) → UContext
  linux_loongarch64 : (ℕ → ℕ) → ℕ → UContext

-- A field of the thread's state, or 0.
abbrev pub state_field : (ThreadState → ℕ) → Option ThreadState → ℕ
state_field field none = 0
state_field field (some ss) = field ss

-- The interrupted address, in `perf_signal_handler`.
abbrev pub program_counter : Libc → UContext → ℕ
program_counter libc (linux_x86_64 gregs) = gregs libc.reg_rip
program_counter libc (macos_x86_64 mcontext) = state_field (λ ss. ss.pc) mcontext
program_counter libc (linux_aarch64 regs pc) = pc
program_counter libc (macos_aarch64 mcontext) = state_field (λ ss. ss.pc) mcontext
program_counter libc (linux_riscv64 gregs) = gregs libc.reg_pc
program_counter libc (linux_loongarch64 gregs pc) = pc

-- Where the walk of frame_pointer.rs starts.
abbrev pub frame_pointer : Libc → UContext → ℕ
frame_pointer libc (linux_x86_64 gregs) = gregs libc.reg_rbp
frame_pointer libc (macos_x86_64 mcontext) = state_field (λ ss. ss.fp) mcontext
frame_pointer libc (linux_aarch64 regs pc) = regs 29
frame_pointer libc (macos_aarch64 mcontext) = state_field (λ ss. ss.fp) mcontext
frame_pointer libc (linux_riscv64 gregs) = gregs libc.reg_s0
frame_pointer libc (linux_loongarch64 gregs pc) = gregs 22
