-- ===== src/Usd.antt =====
-- src/usd: the uSched daemon.
pub mod Notify
pub mod Libs
pub mod Runtime
pub mod Index
pub mod Vars
pub mod Delta
pub mod Marshal
pub mod Schedule
pub mod Auth
pub mod Authorize
pub mod Dispatch
pub mod Serialize
pub mod Process
