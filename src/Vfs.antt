-- ===== src/Vfs.antt =====
-- fakeshell/vfs/vfs.go: the file tree of the fake shell.
pub mod Paths
pub mod Resolve
pub mod Tree
pub mod Write
pub mod Dirs
