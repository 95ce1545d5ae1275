-- ===== src/Mininet.antt =====
-- experiments/mininet/mininet_tests_123.py: the three tests run over an emulated network.
pub mod Lab
pub mod Profiles
pub mod Shell
pub mod Metrics
pub mod ServerLog
pub mod Clients
pub mod Topology
pub mod Traffic
pub mod Prepare
pub mod Rows
pub mod Csv
pub mod Batch
pub mod Enrol
pub mod Trials
pub mod Run
