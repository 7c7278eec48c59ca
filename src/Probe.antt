-- ===== src/Probe.antt =====
-- internal/probe: what a broker connection must prove before orders may go out.
pub mod WriteGate
