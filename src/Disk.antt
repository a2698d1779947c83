-- ===== src/Disk.antt =====
-- metrics/disk.rs: the rates of the disks, from the text of `/proc/diskstats`.
pub mod Names
pub mod Sampler
pub mod Counted
mod Tests
