-- ===== src/Detection.antt =====
-- engines/detector.rs: how the engines of a host are found, from its processes and its containers.
pub mod PidLists
pub mod Candidates
pub mod PidTree
pub mod Commands
pub mod Containers
pub mod Launch
pub mod Endpoints
pub mod Arguments
pub mod Processes
pub mod Docker
pub mod Probe
mod Tests
