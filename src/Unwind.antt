-- ===== src/Unwind.antt =====
-- src/backtrace: the walks of the call stack.
pub mod Backends
pub mod Backtrace
pub mod Context
pub mod Feed
pub mod FramePointer
pub mod Framehop
pub mod Shlib
pub mod Tests
