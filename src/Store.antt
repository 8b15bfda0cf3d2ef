-- ===== src/Store.antt =====
-- The backup file as a whole (backupSession.c): its tree, the requests written into it, and what is
-- read back after a reboot.
pub mod Node
pub mod Requests
pub mod Writers
pub mod DuWriters
pub mod Request
pub mod Readers
pub mod States
pub mod Search
pub mod Written
pub mod Delete
pub mod RoundTrip
pub mod Loading
pub mod LoadEvent
pub mod Reload
pub mod LoadSaved
pub mod Events
pub mod Refine
pub mod Keeps
pub mod Sorted
pub mod Disk
pub mod DuRoundTrip
