-- ===== src/Increment.antt =====
-- Incremental copies of the files that hold a relation's pages: pagefile.go, pagefile_new.go,
-- incremental_page_reader.go and postgres_page_header.go of internal/databases/postgres.
pub mod PageHeader
pub mod Reader
pub mod Format
pub mod Apply
pub mod Local
