-- ===== src/Vfs.antt =====
-- kernel-core/src/vfs: the file-descriptor tables and the pipes of the POSIX layer.
pub mod Errno
pub mod Pipe
pub mod Fd
pub mod Tmpfs
pub mod Space
pub mod Stream
pub mod Runlist
