-- ===== src/Scheduler.antt =====
-- internal/scheduler: the Manager that picks endpoints and keys, and its parts.
pub mod Counters
pub mod Cost
pub mod Sorting
pub mod Scanning
pub mod Cursor
pub mod Manager
pub mod Endpoints
pub mod Keys
pub mod Pool
pub mod Recovery
pub mod Waiting
pub mod Snapshot
pub mod Reachable
pub mod Requests
