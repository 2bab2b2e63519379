-- ===== src/Witnesses.antt =====
-- The theorems applied to concrete states.
mod Frames
mod Events
mod Spaces
mod Signals
mod Descriptors
mod Processes
mod Tasks
mod Rects
mod Files
mod Numbers
mod Disks
