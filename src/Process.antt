-- ===== src/Process.antt =====
-- The process layer of the kernel core: records, address ranges, signals, identity, groups and the
-- program break.
pub mod Abi
pub mod Types
pub mod Vma
pub mod Signal
pub mod Identity
pub mod Lifecycle
pub mod Brk
