-- ===== src/Examples.antt =====
-- The theorems at concrete inputs, and tests.
mod Backup
mod History
mod Compose
mod Increment
mod Scan
mod DeltaMap
mod WalDelta
mod WalVerify
mod Segment
mod Walparser
mod WalReceive
