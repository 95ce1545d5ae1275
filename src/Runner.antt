-- ===== src/Runner.antt =====
-- benchmarks/lib/runner.py: servers, clients and their working directories.
pub mod Server
pub mod Client
pub mod Batch
pub mod Workdirs
