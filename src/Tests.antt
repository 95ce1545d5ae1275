-- ===== src/Tests.antt =====
-- Concrete runs of the model.
mod Machine
mod Runs
mod Figures
mod Workloads
mod Reload
mod Network
