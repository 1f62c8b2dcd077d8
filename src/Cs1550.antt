-- ===== src/Cs1550.antt =====
-- The file system of project04/cs1550.c.
pub mod Disk
pub mod Layout
pub mod Path
pub mod Errno
pub mod Root
pub mod Files
pub mod Transfer
pub mod Attributes
pub mod Mknod
pub mod Tree
pub mod Session
mod Tests
