-- ===== src/Examples.antt =====
-- The properties at concrete inputs.
mod Pages
mod Memory
mod Tables
mod Disk
mod Turns
mod Caches
mod Mappings
mod Files
mod Spaces
mod Calls
mod Forks
mod Ordered
mod Images
