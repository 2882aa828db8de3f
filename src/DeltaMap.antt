-- ===== src/DeltaMap.antt =====
-- The blocks that the WAL has changed since a backup, by relation: paged_file_delta_map.go and
-- delta_map_downloader.go of internal/databases/postgres.
pub mod RelFile
pub mod Bitmap
pub mod Map
pub mod Download
pub mod PagedFile
