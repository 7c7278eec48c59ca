-- ===== src/Risk.antt =====
-- internal/risk: the pre-trade gate, the durable kill switch and the retry delays.
pub mod Engine
pub mod Backoff
pub mod KillSwitch
