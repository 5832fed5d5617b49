-- ===== src/Scratch.antt =====
-- The two tools of /scratch: nix/modules/scratch/scratch-overflow.py and scratch-restore.py.
pub mod Os
pub mod Paths
pub mod Copying
pub mod Steps
pub mod Trace
pub mod Guarding
pub mod Overflow
pub mod Restore
mod Tests
