-- ===== src/Util.antt =====
-- internal/util: the helpers that the commands share.
pub mod Hostnames
pub mod Decimal
pub mod ByteSize
pub mod Groups
pub mod Version
pub mod Subjects
pub mod Backoff
