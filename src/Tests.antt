-- ===== src/Tests.antt =====
-- Runs of the definitions at concrete inputs, and the theorems applied there.
mod Comparisons
mod Copies
mod Searches
mod Blocks
mod Numbers
mod Allocator
mod Paths
mod Commands
mod Accounts
mod Json
mod Editor
mod Addresses
