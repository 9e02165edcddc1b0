-- ===== src/Triage.antt =====
-- tools/log-triage/src/main.rs
pub mod Acc
pub mod Ipv4
pub mod Times
pub mod Scan
pub mod Log
pub mod Found
pub mod Sights
pub mod Table
pub mod Keeps
pub mod Report
pub mod Assembly
pub mod Ranked
pub mod Results
pub mod Bounds
