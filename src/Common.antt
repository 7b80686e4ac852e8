-- ===== src/Common.antt =====
-- src/common: what the programs of uSched share, and the constants of include/.
pub mod Config
pub mod Files
pub mod Settings
pub mod Flag
pub mod Bitops
pub mod Str
pub mod Hash
pub mod Entry
