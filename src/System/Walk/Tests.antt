-- ===== src/System/Walk/Tests.antt =====
-- Walks of the handler's closure: along frames that point to themselves, and over a list of frames.
use strict_pprof_rs.Base.{
  ℕ, ◌+◌, ◌≡◌, ◌⊎◌, inr, refl, true, false, Option, some, List, [], ◌∷◌, arith, Returns, take, ◌==◌,
  if◌then◌else◌,
}
use strict_pprof_rs.AddrValidate.{mem_validate_pipe}
use strict_pprof_rs.AddrValidate.Pipe.{Quiet}
use strict_pprof_rs.AddrValidate.Validity.{IsSound, IsUnused, Unopened}
use strict_pprof_rs.AddrValidate.Tests.{kernel, seen, laws, first_use}
use strict_pprof_rs.Frames.{RawSymbol, max_depth}
use strict_pprof_rs.Profiler.Handler.{unblocked}
use strict_pprof_rs.Unwind.Backends.{frame_pointer_frames}
use strict_pprof_rs.Unwind.Context.{Libc, UContext, linux_x86_64}
use strict_pprof_rs.Unwind.FramePointer.{FramePointerLayout}
use strict_pprof_rs.Unwind.FramePointer.Piped.{trace, returned}
use strict_pprof_rs.Unwind.Framehop
use strict_pprof_rs.Unwind.Tests.{not_zero, one_more, listed as listed_frames, context as registers}
use strict_pprof_rs.System.Callback.{callback}
use strict_pprof_rs.System.Walk.{trace-Taken, listed, framehop-Taken}

-- Frames that point to themselves, on Linux for x86_64, with the pipe not yet open.
abbrev at_itself : ℕ → FramePointerLayout
at_itself fp = record { frame_pointer = fp; ret = fp + 1 }

abbrev libc_numbers : Libc
libc_numbers = record { reg_rip = 16; reg_rbp = 10; reg_pc = 0; reg_s0 = 8 }

abbrev context : Option UContext
context = some (linux_x86_64 (λ n. if n == 10 then 4096 else 0))

abbrev no_symbols : ℕ → List RawSymbol
no_symbols ip = []

abbrev itself : ℕ → ℕ
itself ip = ip

trace-Taken_example :
    Returns
      (trace kernel at_itself 3
        (callback (frame_pointer_frames false itself no_symbols) true ((8192, 8200) ∷ []))
        200
        libc_numbers
        context
        ([], 0)
        (mem_validate_pipe, first_use))
      (λ (t, (p', s')).
        ((t.0
              ≡ take max_depth (
                  unblocked
                    (frame_pointer_frames false itself no_symbols)
                    true
                    ((8192, 8200) ∷ [])
                    (returned kernel at_itself 3
                      (callback
                        (frame_pointer_frames false itself no_symbols)
                        true
                        ((8192, 8200) ∷ []))
                      seen
                      laws
                      first_use
                      libc_numbers
                      context
                      (max_depth + 1))))
            × IsSound seen p' s'
          ⊎ (t.0 ≡ []) × IsUnused seen mem_validate_pipe p' × Unopened seen first_use s')
        × Quiet seen first_use s')
trace-Taken_example =
    trace-Taken true ((8192, 8200) ∷ []) false itself no_symbols seen laws at_itself 3 200
      libc_numbers context mem_validate_pipe first_use (omega arith) (omega arith) (inr refl)

-- Three addresses, of which the last is blocked.
abbrev unwinder : Option (List ℕ)
unwinder = some (24 ∷ 40 ∷ 8191 ∷ [])

framehop-Taken_example :
    Returns
      (Framehop.trace listed_frames
        (Framehop.read_stack not_zero one_more)
        (callback (frame_pointer_frames false itself no_symbols) true ((8000, 8200) ∷ []))
        Framehop.linux_x86_64
        registers
        200
        ([], 0)
        unwinder)
      (λ (t, _).
        t.0
        ≡ take max_depth (
            unblocked (frame_pointer_frames false itself no_symbols) true ((8000, 8200) ∷ []) (
              listed true
                ((8000, 8200) ∷ [])
                false
                itself
                no_symbols
                listed_frames
                (Framehop.read_stack not_zero one_more)
                Framehop.linux_x86_64
                registers
                unwinder)))
framehop-Taken_example =
    framehop-Taken true ((8000, 8200) ∷ []) false itself no_symbols listed_frames
      (Framehop.read_stack not_zero one_more) 200 Framehop.linux_x86_64 registers unwinder
      (omega arith)
