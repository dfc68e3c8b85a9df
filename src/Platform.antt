-- ===== src/Platform.antt =====
-- src/platform: the storage-neutral records and the security policy.
pub mod RecordId
pub mod Record
pub mod Security
