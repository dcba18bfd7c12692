-- ===== src/Userfs/Defects.antt =====
-- Calls of 3/userfs.c at the bounds of the table, of a block and of the file.
pub mod Bounds
pub mod Shrink
pub mod Rewind
