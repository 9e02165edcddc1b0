-- ===== src/Posture.antt =====
-- The tools that report one answer of the host: package-check, service-status, package-inventory,
-- os-fingerprint and sysinfo.
pub mod PackageCheck
pub mod ServiceStatus
pub mod Inventory
pub mod OsFingerprint
pub mod SysInfo
