-- ===== src/Brokers.antt =====
-- internal/brokers: the broker's view of orders, and what a restart makes of it.
pub mod Reconcile
