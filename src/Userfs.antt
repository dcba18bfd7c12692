-- ===== src/Userfs.antt =====
-- 3/userfs.c and 3/userfs.h: the in-memory file system.
pub mod Types
pub mod Chain
pub mod Transfer
pub mod Ahead
pub mod Read
pub mod Dense
pub mod Position
pub mod Write
pub mod Table
pub mod Files
pub mod Resize
pub mod Truncate
pub mod Api
pub mod Valid
pub mod Safety
pub mod Content
pub mod Defects
mod Tests
