-- ===== src/Walparser.antt =====
-- internal/walparser: parsing the pages of a WAL file into records, and lists of block locations.
pub mod Readers
pub mod Location
pub mod Header
pub mod Block
pub mod Record
pub mod Page
pub mod Parser
pub mod Totality
