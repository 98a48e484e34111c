-- ===== src/Analysis.antt =====
-- The scripts under analysis/, which read what the simulations leave.
pub mod Simulations
pub mod Stats
pub mod Results
pub mod Notebook
mod Tests
