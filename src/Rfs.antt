-- ===== src/Rfs.antt =====
-- The server of the remote file system (rfs): an ext2 disk, its groups and the blocks of its files.
pub mod Disk
pub mod Bitmap
pub mod Groups
pub mod Inode
pub mod Dir
pub mod Files
pub mod Requests
pub mod Paths
pub mod Locks
mod Tests
