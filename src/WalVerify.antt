-- ===== src/WalVerify.antt =====
-- The wal-verify command: internal/databases/postgres/{wal_segment_runner,wal_segment_scanner,
-- integrity_check_runner,timeline_check_runner,wal_show_handler}.go.
pub mod Runner
pub mod Scanner
pub mod Sequence
pub mod Integrity
pub mod Rounds
pub mod Complete
pub mod Verdict
pub mod Earliest
pub mod Timeline
