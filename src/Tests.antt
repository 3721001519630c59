-- ===== src/Tests.antt =====
-- Servers in memory that meet the laws which theorems ask for, and the theorems at concrete inputs.
pub mod Servers
pub mod Cache
pub mod Values
pub mod Requests
pub mod Pools
pub mod Rows
pub mod Redis
pub mod Service
pub mod Sessions
pub mod Groups
pub mod Client
pub mod Wire
pub mod Runs
pub mod Threads
pub mod Server
