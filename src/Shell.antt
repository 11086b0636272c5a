-- ===== src/Shell.antt =====
-- fakeshell/shell.go and its neighbours: the simulated shell.
pub mod Words
pub mod Tty
pub mod Date
pub mod Commands
pub mod Layout
pub mod Files
pub mod Session
