-- ===== src/WalDelta.antt =====
-- The files that a delta backup is computed from: delta_file.go, wal_part.go and wal_part_file.go.
pub mod DeltaFile
pub mod WalPart
pub mod WalPartFile
