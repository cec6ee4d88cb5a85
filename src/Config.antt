-- ===== src/Config.antt =====
-- config.py, in parts: the reading of values, devices, variables and the file, and the loader.
pub mod Housecodes
pub mod Values
pub mod Devices
pub mod Objects
pub mod Environment
pub mod Load
pub mod File
pub mod Numbers
pub mod Rebuilt
pub mod Accepted
pub mod Loaded
pub mod Sorted
pub mod Reread
pub mod Restart
pub mod Tls
mod Examples
