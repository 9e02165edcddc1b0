-- ===== src/Fim.antt =====
-- File integrity: the snapshot of a tree and the drift from it.
pub mod Snapshot
pub mod Diff
pub mod RoundTrip
