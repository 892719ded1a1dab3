-- ===== src/Tests.antt =====
-- The theorems at concrete inputs.
mod Captures
mod Sessions
mod Openings
mod Elements
mod Screens
mod Disks
mod Sizes
mod Stores
mod Sweeps
mod Models
mod Pages
