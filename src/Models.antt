-- ===== src/Models.antt =====
-- models.py: the data that the components share. The child modules declare it.
pub mod Enums
pub mod Config
pub mod Runtime
pub mod Payloads
pub mod Equal
