-- ===== src/Examples.antt =====
-- Runs of the model on concrete inputs, at which its theorems apply. The data are whole numbers.
pub mod Orders
pub mod Harness
pub mod Kernel
pub mod Backtest
pub mod Book
pub mod Boot
pub mod Journal
pub mod Reconciler
pub mod Risk
pub mod Runtime
