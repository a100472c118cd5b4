-- ===== src/Yfs.antt =====
-- yfs_client.h and yfs_client.cc: the file system operations over extents and locks.
pub mod Numbers
pub mod Dirs
pub mod Buffers
pub mod Services
pub mod Client
pub mod Fuse
