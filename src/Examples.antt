-- ===== src/Examples.antt =====
-- Concrete data on which the theorems are tried, one module for each part of the program.
mod Sessions
mod Stored
mod Containers
mod Throttling
mod Updates
mod Saving
mod Toys
mod Unlocking
mod Transfers
mod Copying
