-- ===== src/Fs.antt =====
-- inode_manager.h and inode_manager.cc: the disk, the block manager and the inode manager.
pub mod Words
pub mod Disk
pub mod Inode
pub mod Manager
pub mod Inodes
mod Tests
