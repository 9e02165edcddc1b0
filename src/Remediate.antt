-- ===== src/Remediate.antt =====
-- The tools that change a host: package-remediate and service-remediate.
pub mod Exec
pub mod VersionGe
pub mod Package
pub mod Service
