-- ===== src/Userfs/Tests.antt =====
-- Sample states of 3/userfs.c, reached by calls from the start of the process, and the theorems at them.
pub mod States
mod Witnesses
