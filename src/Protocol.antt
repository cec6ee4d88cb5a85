-- ===== src/Protocol.antt =====
-- The package `protocol`: addresses and tokens, the encoding of commands, the parsing of lines.
pub mod Validation
pub mod Encoder
pub mod Regex
pub mod Status
pub mod Parser
