-- ===== src/Kernel.antt =====
-- internal/kernel: the deterministic event kernel.
pub mod Dispatch
pub mod UnixNanos
