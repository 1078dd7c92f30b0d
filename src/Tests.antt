-- ===== src/Tests.antt =====
-- Runs on concrete data, and the theorems at concrete inputs.
mod WholeFiles
mod RoundTrips
mod Toys
mod Headers
mod Files
mod Compression
mod Endings
mod Blocks
mod Options
mod Machine
mod Deletions
mod Memory
mod Verdicts
