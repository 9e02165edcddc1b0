-- ===== src/Inspect.antt =====
-- The tools that inspect one file, one directory, one text or one list: fs-read, fs-hash, fs-list and
-- the checks on data that the caller hands over.
pub mod Base64
pub mod ReadFile
pub mod Inventory
pub mod Ioc
pub mod SshdConfig
pub mod Sbom
pub mod Eol
pub mod DigestFile
pub mod ListDir
