-- ===== src/Harness.antt =====
-- internal/harness: the trade loop that joins the risk engine, the kill switch and the broker.
pub mod Trader
pub mod Loop
pub mod Report
pub mod Run
