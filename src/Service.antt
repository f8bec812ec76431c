-- ===== src/Service.antt =====
-- internal/service: the synchronisation of the local definitions with the center.
pub mod SyncMerge
pub mod SyncDirty
pub mod Sync
