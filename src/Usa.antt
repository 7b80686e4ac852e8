-- ===== src/Usa.antt =====
-- src/usa: the administration tool.
pub mod Words
pub mod Request
pub mod Category
pub mod Config
pub mod Admin
pub mod Users
pub mod Lists
pub mod Logic
