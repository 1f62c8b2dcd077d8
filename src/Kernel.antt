-- ===== src/Kernel.antt =====
-- The semaphore system calls added to the kernel in project02/trafficsim/adp59-project2/sys.c, with the
-- queue of waiting processes.
pub mod Queue
pub mod Semaphore
mod Tests
