-- ===== src/DisplayFilter.antt =====
-- src/display_filter.cpp: the display filter, its language and the patterns that it becomes.
pub mod Ranges
pub mod Syntax
pub mod Tokens
pub mod Addresses
pub mod Tests
pub mod Parser
pub mod Patterns
pub mod Outcomes
