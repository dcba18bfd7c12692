-- ===== src/Userfs/Content.antt =====
-- `ufs_write` and `ufs_read` of 3/userfs.h against the content of a file, a list of bytes.
pub mod Write
pub mod Read
pub mod RoundTrip
