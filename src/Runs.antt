-- ===== src/Runs.antt =====
-- Examples: the theorems applied to small inputs.
mod Disk
mod Wire
mod Clients
mod Groups
mod Network
mod Copies
mod Nodes
