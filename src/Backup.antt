-- ===== src/Backup.antt =====
-- The handlers of the whole backup catalogue: backup_mark.go and delete_handler.go.
pub mod Mark
pub mod Delete
