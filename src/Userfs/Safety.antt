-- ===== src/Userfs/Safety.antt =====
-- The functions of 3/userfs.h on a state in order, and the programs made of them.
pub mod Slots
pub mod Transfer
pub mod Names
pub mod Resize
pub mod Program
pub mod Destroy
