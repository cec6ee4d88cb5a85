-- ===== src/Protocol/Regex.antt =====
-- What protocol/regex.py uses of Python's `re`: patterns and the backtracking search of
-- `Pattern.match`.
pub mod Search
pub mod Language
pub mod Sound
pub mod Complete
pub mod Patterns
pub mod Steps
