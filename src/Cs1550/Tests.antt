-- ===== src/Cs1550/Tests.antt =====
-- The theorems about the file system at concrete disks and paths.
mod Disks
mod Layouts
mod Calls
mod Directories
mod Sessions
mod Stats
