-- ===== src/Examples.antt =====
-- The theorems at concrete inputs.
mod Orderer
mod Content
mod Blocks
mod Segments
mod Filters
mod Patterns
mod Rendering
mod Reassembly
mod Captures
